-- ===== src/UseCases/Details.antt =====
-- update_service_order.go: the parts of an update before its items: the customer, the vehicle and
-- the description.
use mathlib.Core.Path.{subst}
use oficina_tech_ms_order_se.Shared.{
  Option, String, arith, eq_iff, false, is_empty, none, refl, some, sym, ◌≡◌, ap, ◌∙◌,
}
use oficina_tech_ms_order_se.Domain.Errors.{ok, ok_injective}
use oficina_tech_ms_order_se.Domain.Item.{Clock, Time}
use oficina_tech_ms_order_se.Domain.Order.{
  ServiceOrder, update_customer, update_description, update_vehicle,
}
use oficina_tech_ms_order_se.Platform.Monad.{World, lift}
use oficina_tech_ms_order_se.Platform.Outcomes.{>>=-ok}
use oficina_tech_ms_order_se.Platform.Ports.{Env, get_vehicle_by_id, read_clock}
use oficina_tech_ms_order_se.Platform.Silent.{
  Silent, Silent-bind, Silent-if, Silent-lift, Silent-pure, Silent-raise_if, Silent-read_clock,
}
use oficina_tech_ms_order_se.UseCases.Created.{IsOwned}
use oficina_tech_ms_order_se.UseCases.Update.{
  UpdateInput, change_customer, change_description, change_vehicle, check_customer,
  check_given_vehicle, check_ownership, given_or, validate_and_update_customer_vehicle,
}

-- The order with what the input gives for its customer, vehicle and description.
abbrev pub detailed : UpdateInput → ServiceOrder → Time → ServiceOrder
detailed input s now = record s {
  customer_id = given_or input.customer_id s.customer_id;
  vehicle_id = given_or input.vehicle_id s.vehicle_id;
  description = given_or input.description s.description;
  updated_at = now;
}

change_customer_lem :
    (o : Option String) (now : Time) (s : ServiceOrder) {t : ServiceOrder}
    → change_customer o now s ≡ ok t
    → t ≡ record s { customer_id = given_or o s.customer_id; updated_at = t.updated_at }
unfolding update_customer
change_customer_lem none now s h = ground arith
change_customer_lem (some c) now s h = ground arith

change_vehicle_lem :
    (o : Option String) (now : Time) (s : ServiceOrder) {t : ServiceOrder}
    → change_vehicle o now s ≡ ok t
    → t ≡ record s { vehicle_id = given_or o s.vehicle_id; updated_at = t.updated_at }
unfolding update_vehicle
change_vehicle_lem none now s h = ground arith
change_vehicle_lem (some c) now s h = ground arith

change_description_lem :
    (o : Option String) (now : Time) (s : ServiceOrder)
    → change_description o now s ≡ record s {
      description = given_or o s.description;
      updated_at = (change_description o now s).updated_at;
    }
unfolding update_description
change_description_lem none now s = refl
change_description_lem (some d) now s = refl

check_ownership-IsOwned :
    (env : Env) (v c : String) (w : World) {u : Unit {0}}
    → (check_ownership env v c w).0 ≡ ok u
    → is_empty v ≡ false
    → IsOwned env v c
unfolding check_ownership
check_ownership-IsOwned env v c w h given =
    let (d, known, h1, _) = >>=-ok (get_vehicle_by_id env v) _ w (rw given at h) in
    (w.tick, d, known, ground (arith, eq_iff d.customer_id c))

pub record Detailed (env : Env) (input : UpdateInput) (s t : ServiceOrder) : Type 0 where
  pub frame : t ≡ detailed input s t.updated_at
  pub owner : is_empty t.vehicle_id ≡ false → IsOwned env t.vehicle_id t.customer_id

details_frame :
    (input : UpdateInput) (now : Clock) (s t u : ServiceOrder)
    → change_customer input.customer_id (now 0) s ≡ ok t
    → change_vehicle input.vehicle_id (now 1) t ≡ ok u
    → change_description input.description (now 2) u
      ≡ detailed input s (change_description input.description (now 2) u).updated_at
unfolding update_description
details_frame input now s t u a b =
    change_description_lem input.description (now 2) u
    ∙ ap {A = ServiceOrder} {B = ServiceOrder}
        (λ x. record x {
          description = given_or input.description x.description;
          updated_at = (change_description input.description (now 2) u).updated_at;
        })
        (change_vehicle_lem input.vehicle_id (now 1) t b
          ∙ ap {A = ServiceOrder} {B = ServiceOrder}
              (λ x. record x {
                vehicle_id = given_or input.vehicle_id x.vehicle_id;
                updated_at = u.updated_at;
              })
              (change_customer_lem input.customer_id (now 0) s a))

pub validate_and_update-Detailed :
    (env : Env) (s : ServiceOrder) (input : UpdateInput) (w : World) {t : ServiceOrder}
    → (validate_and_update_customer_vehicle env s input w).0 ≡ ok t
    → Detailed env input s t
unfolding validate_and_update_customer_vehicle
validate_and_update-Detailed env s input w {t} h =
    let (_, _, h1, _) = >>=-ok (check_customer env input.customer_id) _ w h in
    let (_, _, h2, _) = >>=-ok (check_given_vehicle env input.vehicle_id) _ _ h1 in
    let vehicle = given_or input.vehicle_id s.vehicle_id in
    let buyer = given_or input.customer_id s.customer_id in
    let (_, checked, h3, _) = >>=-ok (check_ownership env vehicle buyer) _ _ h2 in
    let (now, _, h4, _) = >>=-ok (read_clock env) _ _ h3 in
    let (u, a, h5, _) = >>=-ok (lift (change_customer input.customer_id (now 0) s)) _ _ h4 in
    let (x, b, h6, _) = >>=-ok (lift (change_vehicle input.vehicle_id (now 1) u)) _ _ h5 in
    let frame = details_frame input now s u x a b in
    subst (Detailed env input s) (ok_injective h6) (record {
      frame = frame;
      owner =
          subst (λ y. is_empty y.vehicle_id ≡ false → IsOwned env y.vehicle_id y.customer_id)
            (sym frame) (λ e. check_ownership-IsOwned env vehicle buyer _ checked e);
    })

Silent-check_customer : (env : Env) (o : Option String) → Silent (check_customer env o)
Silent-check_customer env none = Silent-pure
Silent-check_customer env (some c) = Silent-bind (record { run = λ w. refl }) λ _. Silent-pure

Silent-check_given_vehicle : (env : Env) (o : Option String) → Silent (check_given_vehicle env o)
Silent-check_given_vehicle env none = Silent-pure
Silent-check_given_vehicle env (some v) =
    Silent-if (is_empty v) Silent-pure (Silent-bind (record { run = λ w. refl }) λ _. Silent-pure)

Silent-check_ownership : (env : Env) (v c : String) → Silent (check_ownership env v c)
unfolding check_ownership
Silent-check_ownership env v c =
    Silent-if (is_empty v) Silent-pure
      (Silent-bind (record { run = λ w. refl }) λ d. Silent-raise_if _ _)

pub Silent-validate_and_update :
    (env : Env) (s : ServiceOrder) (input : UpdateInput)
    → Silent (validate_and_update_customer_vehicle env s input)
unfolding validate_and_update_customer_vehicle
Silent-validate_and_update env s input =
    Silent-bind (Silent-check_customer env input.customer_id) λ _.
      Silent-bind (Silent-check_given_vehicle env input.vehicle_id) λ _.
        Silent-bind (Silent-check_ownership env _ _) λ _.
          Silent-bind (Silent-read_clock env)
            λ now. Silent-bind (Silent-lift _) λ t. Silent-bind (Silent-lift _) λ u. Silent-pure
