-- ===== src/Domain/Order/Traces.antt =====
-- What holds of an order after any sequence of calls.
use oficina_tech_ms_order_se.Shared.{
  List, String, [], inl, inr, is_some, refl, true, ◌∙◌, ◌∷◌, ◌≡◌, ◌⊎◌,
}
use oficina_tech_ms_order_se.Domain.Errors.{Result, err, ok}
use oficina_tech_ms_order_se.Domain.Item.{Clock, Time}
use oficina_tech_ms_order_se.Domain.Order.{ServiceOrder, new_service_order}
use oficina_tech_ms_order_se.Domain.Order.Calls.{Call, after, perform, perform_all}
use oficina_tech_ms_order_se.Domain.Order.Life.{
  IsConsistent, new_service_order-IsConsistent, perform-Advances, perform-IsConsistent,
}
use oficina_tech_ms_order_se.Domain.Status.{OrderStatus, can_transition_to}
use oficina_tech_ms_order_se.Domain.Status.Flow.{can_transition_to_iff, here, onward, ◌⟶*◌}
use oficina_tech_ms_order_se.Platform.Ports.{step}

pub after_keeps :
    (P : ServiceOrder → Type 0) (r : Result ServiceOrder) (s : ServiceOrder)
    → ((t : ServiceOrder) → r ≡ ok t → P t)
    → P s
    → P (after r s)
after_keeps P (ok t) s step base = step t refl
after_keeps P (err e) s step base = base

perform_all-IsConsistent :
    (calls : List (Call × Clock)) (s : ServiceOrder)
    → IsConsistent s
    → IsConsistent (perform_all calls s)
unfolding perform_all
perform_all-IsConsistent [] s i = i
perform_all-IsConsistent ((c, now) ∷ rest) s i =
    perform_all-IsConsistent rest (after (perform c now s) s)
      (after_keeps IsConsistent (perform c now s) s (λ t h. perform-IsConsistent c now s h i) i)

-- An order that `NewServiceOrder` made satisfies the invariant after any calls of the methods: its
-- status is valid, a closing status comes with a time of closing, an order that awaits the inventory
-- has a saga id and a target, and any other order has no saga id, target or notes.
pub created_IsConsistent :
    (customer_id vehicle_id description : String) (now : Time) {s : ServiceOrder}
    → new_service_order customer_id vehicle_id description now ≡ ok s
    → (calls : List (Call × Clock)) → IsConsistent (perform_all calls s)
created_IsConsistent c v d now {s} h calls =
    perform_all-IsConsistent calls s (new_service_order-IsConsistent c v d now h)

pub onward_status : (s t : OrderStatus) → (t ≡ s) ⊎ (can_transition_to s t ≡ true) → s ⟶* t
onward_status s t (inl same) = rw same here
onward_status s t (inr e) = onward ((can_transition_to_iff s t).0 e) here

pub ⟶*-trans : {s t u : OrderStatus} → s ⟶* t → t ⟶* u → s ⟶* u
⟶*-trans here r = r
⟶*-trans (onward e q) r = onward e (⟶*-trans q r)

-- Whatever methods are called, the status only moves along the edges of the workflow diagram.
pub perform_all-⟶* :
    (calls : List (Call × Clock)) (s : ServiceOrder) → s.status ⟶* (perform_all calls s).status
unfolding perform_all
perform_all-⟶* [] s = here
perform_all-⟶* ((c, now) ∷ rest) s =
    ⟶*-trans
      (after_keeps (λ t. s.status ⟶* t.status) (perform c now s) s
        (λ t h. onward_status s.status t.status (perform-Advances c now s h).edge) here)
      (perform_all-⟶* rest (after (perform c now s) s))

-- The time of closing is written once: no sequence of calls changes one that is set.
pub perform_all-closed_at :
    (calls : List (Call × Clock)) (s : ServiceOrder)
    → is_some s.closed_at ≡ true
    → (perform_all calls s).closed_at ≡ s.closed_at
unfolding perform_all
perform_all-closed_at [] s h = refl
perform_all-closed_at ((c, now) ∷ rest) s h =
    let same : (after (perform c now s) s).closed_at ≡ s.closed_at =
      after_keeps (λ t. t.closed_at ≡ s.closed_at) (perform c now s) s
        (λ t e. (perform-Advances c now s e).closed_once h) refl in
    perform_all-closed_at rest (after (perform c now s) s) (rw same h) ∙ same
