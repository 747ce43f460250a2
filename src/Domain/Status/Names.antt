-- ===== src/Domain/Status/Names.antt =====
-- The spelling of the statuses: `String` and `NewOrderStatus`.
use oficina_tech_ms_order_se.Shared.{
  ◌≡◌, true, List, [], ◌∷◌, String, eq_iff, refl, arith, ap, eq_refl,
}
use oficina_tech_ms_order_se.Domain.Errors.{ok}
use oficina_tech_ms_order_se.Domain.Status.{
  OrderStatus, unknown, to_string, of_string, is_valid, new_order_status, status_eq,
}

-- Every valid status is read back from its own spelling.
pub new_order_status-to_string :
    (s : OrderStatus) → is_valid s ≡ true → new_order_status (to_string s) ≡ ok s
unfolding new_order_status of_string
new_order_status-to_string (unknown _) h = cc
new_order_status-to_string _ h = refl

-- The texts that the API documents as statuses.
abbrev pub documented : List String
documented =
    "RECEIVED" ∷ "DIAGNOSING" ∷ "PENDING_AUTHORIZATION" ∷ "AUTHORIZED" ∷ "IN_PROGRESS" ∷ "COMPLETED"
    ∷ "AWAITING_PAYMENT" ∷ "PAYMENT_REJECTED" ∷ "PAID" ∷ "DELIVERED" ∷ "CANCELED"
    ∷ "AUTHORIZATION_DENIED" ∷ []

-- `==` on statuses decides their equality.
pub status_eq-eq : (s t : OrderStatus) → status_eq s t ≡ true → s ≡ t
status_eq-eq (unknown a) (unknown b) h = ap unknown ((eq_iff a b).0 h)
status_eq-eq _ t h = ground arith

pub status_eq_refl : (s : OrderStatus) → status_eq s s ≡ true
status_eq_refl (unknown a) = eq_refl a
status_eq_refl _ = refl
