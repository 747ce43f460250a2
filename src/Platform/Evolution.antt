-- ===== src/Platform/Evolution.antt =====
-- What one operation of the service may do to the stored orders.
use oficina_tech_ms_order_se.Shared.{List, inl, refl, ◌≡◌}
use oficina_tech_ms_order_se.Domain.Errors.{ok}
use oficina_tech_ms_order_se.Domain.Item.{Clock}
use oficina_tech_ms_order_se.Domain.Order.{ServiceOrder}
use oficina_tech_ms_order_se.Domain.Order.Calls.{Call, perform}
use oficina_tech_ms_order_se.Domain.Order.Life.{
  Advances, IsConsistent, perform-Advances, perform-IsConsistent,
}
use oficina_tech_ms_order_se.Platform.Monad.{Action}
use oficina_tech_ms_order_se.Platform.Rules.{SafeFor}

-- What a stored order may become in one operation: its status moves along one edge of the workflow
-- at most, a time of closing that is set stays, and the invariant is kept.
pub record Evolves (s t : ServiceOrder) : Type 0 where
  pub advances : Advances s t
  pub consistent : IsConsistent s → IsConsistent t

pub Evolves-refl : (s : ServiceOrder) → Evolves s s
Evolves-refl s = record {
  advances = record { edge = inl refl; closed_once = λ h. refl };
  consistent = λ i. i;
}

abbrev pub Safe : {A : Type 0} → List ServiceOrder → Action A → Type 0
Safe o m = SafeFor Evolves o m

-- A method of the order that succeeds is such a step.
pub perform-Evolves :
    (c : Call) (now : Clock) (s : ServiceOrder) {t : ServiceOrder}
    → perform c now s ≡ ok t
    → Evolves s t
perform-Evolves c now s h = record {
  advances = perform-Advances c now s h;
  consistent = perform-IsConsistent c now s h;
}
