-- ===== src/UseCases/Created.antt =====
-- What the creation of an order stores when it succeeds, and that it stores nothing when it fails.
use mathlib.Core.Path.{subst}
use oficina_tech_ms_order_se.Shared.{
  Bool, String, [], arith, eq_iff, false, is_empty, none, refl, ℕ, ◌≡◌, All, List, ap, sym, ◌∙◌,
  not,
}
use oficina_tech_ms_order_se.Domain.Errors.{Error, err, ok}
use oficina_tech_ms_order_se.Domain.Item.{Time, ServiceOrderItem, is_deleted}
use oficina_tech_ms_order_se.Domain.Order.{
  ServiceOrder, idle, new_service_order, set_customer_snapshot,
}
use oficina_tech_ms_order_se.Domain.Order.Life.{IsConsistent, new_service_order-IsConsistent}
use oficina_tech_ms_order_se.Domain.Order.Stocked.{IsStocked, IsSound}
use oficina_tech_ms_order_se.Domain.Status.{received}
use oficina_tech_ms_order_se.Platform.Monad.{CustomerDto, World, lift, raise_if}
use oficina_tech_ms_order_se.Platform.Outcomes.{>>=-ok}
use oficina_tech_ms_order_se.Platform.Ports.{
  Env, VehicleDto, get_customer_by_id, get_vehicle_by_id, read_clock, step,
}
use oficina_tech_ms_order_se.Platform.Silent.{
  Silent, Silent-bind, Silent-if, Silent-lift, Silent-pure, Silent-raise_if, Silent-read_clock,
  Silent-then_err, tick_to,
}
use oficina_tech_ms_order_se.Platform.Table.{find_row}
use oficina_tech_ms_order_se.UseCases.Creation.{
  CreationInput, check_vehicle, create_service_order, fill_new,
}
use oficina_tech_ms_order_se.UseCases.ItemEffects.{
  Refilled, Silent-add_items, Silent-validate_and_build_items, add_items-IsStocked,
  validate_and_build_items-IsSound,
}
use oficina_tech_ms_order_se.UseCases.ItemInputs.{add_items, validate_and_build_items}
use oficina_tech_ms_order_se.UseCases.Renaming.{Renamed-IsStocked, Renamed-owned, select-IsStocked}
use oficina_tech_ms_order_se.UseCases.Saving.{stored_order, save_with_items}
use oficina_tech_ms_order_se.UseCases.SavingEffects.{
  save_with_items-err, with_rows, Identified, save_with_items-Saved,
}

-- The vehicle service answered, and the vehicle is the customer's.
abbrev pub IsOwned : Env → String → String → Type 0
IsOwned env vehicle_id customer_id =
    (k : ℕ) × (d : VehicleDto) × (env.vehicle k vehicle_id ≡ ok d) × (d.customer_id ≡ customer_id)

-- The creation for `input` took `w` to `v` and answered with `t`.
pub record Created (env : Env) (input : CreationInput) (w : World) (t : ServiceOrder) (v : World)
    : Type 0 where
  pub fresh : find_row t.id w.orders ≡ none
  pub world : v ≡ tick_to v.tick (with_rows t w)
  pub status : t.status ≡ received
  pub no_saga : (t.saga_status ≡ idle) × (t.current_saga_id ≡ none)
  pub consistent : IsConsistent t
  pub stocked : IsStocked (stored_order t).items
  pub customer : t.customer_id ≡ input.customer_id
  pub vehicle : t.vehicle_id ≡ input.vehicle_id
  pub owner : IsOwned env input.vehicle_id input.customer_id
  pub snapshot :
      (d : CustomerDto) × (env.customer w.tick input.customer_id ≡ ok d)
      × (t.customer_email ≡ d.email)
      × (t.customer_name ≡ d.name)

pub raise_if-ok :
    (b : Bool) (e : Error) (w : World) {u : Unit {0}} → (raise_if b e w).0 ≡ ok u → b ≡ false
raise_if-ok b e w h = ground arith

check_vehicle-IsOwned :
    (env : Env) (c v : String) (w : World) {u : Unit {0}}
    → is_empty v ≡ false
    → (check_vehicle env c v w).0 ≡ ok u
    → IsOwned env v c
unfolding check_vehicle
check_vehicle-IsOwned env c v w named h =
    let (d, known, h1, _) = >>=-ok (get_vehicle_by_id env v) _ w (rw named at h) in
    (w.tick, d, known, ground (arith, eq_iff d.customer_id c))

Silent-check_vehicle : (env : Env) (c v : String) → Silent (check_vehicle env c v)
unfolding check_vehicle
Silent-check_vehicle env c v =
    Silent-if (is_empty v) Silent-pure
      (Silent-bind (record { run = λ w. refl }) λ d. Silent-raise_if _ _)

-- What is fixed once the order is made: only items, the time and the id change after.
pub record Begun (input : CreationInput) (d : CustomerDto) (s : ServiceOrder) : Type 0 where
  pub id : s.id ≡ ""
  pub status : s.status ≡ received
  pub no_saga : (s.saga_status ≡ idle) × (s.current_saga_id ≡ none)
  pub consistent : IsConsistent s
  pub customer : s.customer_id ≡ input.customer_id
  pub vehicle : s.vehicle_id ≡ input.vehicle_id
  pub vehicle_named : is_empty input.vehicle_id ≡ false
  pub email : s.customer_email ≡ d.email
  pub name : s.customer_name ≡ d.name

new_order-Begun :
    (input : CreationInput) (d : CustomerDto) (now later : Time) {s : ServiceOrder}
    → new_service_order input.customer_id input.vehicle_id input.description now ≡ ok s
    → Begun input d (set_customer_snapshot s d.email d.name later)
      × IsStocked (set_customer_snapshot s d.email d.name later).items
unfolding new_service_order set_customer_snapshot
new_order-Begun input d now later {s} h =
    let none_yet : s.items ≡ [] = ground arith in
    (
      ground (
        arith,
        new_service_order-IsConsistent input.customer_id input.vehicle_id input.description now h,
      ),
      rw none_yet (record { sound = tt; apart = tt }),
    )

Refilled-Begun :
    (input : CreationInput) (d : CustomerDto) (s t : ServiceOrder)
    → Refilled s t
    → Begun input d s
    → Begun input d t
Refilled-Begun input d s t (items, now, e) b = ground arith

-- The transaction for a new order wrote its rows and nothing else.
abbrev Wrote : ServiceOrder → World → World → Type 0
Wrote t w v = (v ≡ tick_to v.tick (with_rows t w)) × (find_row t.id w.orders ≡ none)

Wrote-after : (t : ServiceOrder) (w u v : World) → u ≡ tick_to u.tick w → Wrote t u v → Wrote t w v
Wrote-after t w u v s (e, fresh) = (
  e ∙ ap (λ x. tick_to v.tick (with_rows t x)) s,
  ap (λ x. find_row t.id x.orders) (sym s) ∙ fresh,
)

Identified-Begun :
    (input : CreationInput) (d : CustomerDto) (s t : ServiceOrder)
    → Begun input d s
    → Identified s t
    → IsConsistent t
      × (t.status ≡ received)
      × ((t.saga_status ≡ idle) × (t.current_saga_id ≡ none))
      × (t.customer_id ≡ input.customer_id)
      × (t.vehicle_id ≡ input.vehicle_id)
      × (t.customer_email ≡ d.email)
      × (t.customer_name ≡ d.name)
Identified-Begun input d s t b i = ground arith

fill_new-ok :
    (env : Env) (input : CreationInput) (d : CustomerDto) (items : List ServiceOrderItem)
    (w : World) {t : ServiceOrder}
    → All IsSound items
    → (fill_new env input d items w).0 ≡ ok t
    → (s : ServiceOrder) × Begun input d s
      × Identified s t
      × IsStocked (stored_order t).items
      × Wrote t w (fill_new env input d items w).1
unfolding fill_new
fill_new-ok env input d items w {t} sound h =
    let (now, _, h1, e1) = >>=-ok (read_clock env) _ w h in
    let (s, made, h2, e2) =
      >>=-ok (lift (new_service_order input.customer_id input.vehicle_id input.description (now 0)))
        _ (step w) h1 in
    let start = set_customer_snapshot s d.email d.name (now 1) in
    let (u, filled, h3, e3) = >>=-ok (add_items env start items) _ (step w) h2 in
    let (begun, empty) = new_order-Begun input d (now 0) (now 1) made in
    let (fuller, stocked) = add_items-IsStocked env start items (step w) filled sound empty in
    let saved = save_with_items-Saved env u (add_items env start items (step w)).1 h3 in
    let ready = Refilled-Begun input d start u fuller begun in
    (
      u,
      ready,
      saved.identified,
      Renamed-IsStocked (Renamed-owned t.id _) (
          select-IsStocked (λ i. not (is_deleted i)) t.items
            (Renamed-IsStocked saved.identified.items stocked)),
      subst (Wrote t w) (sym (e1 ∙ e2 ∙ e3)) (
          Wrote-after t w (add_items env start items (step w)).1
            (save_with_items env u (add_items env start items (step w)).1).1
            ((Silent-add_items env start items).run (step w))
            (saved.world, saved.fresh (ap is_empty ready.id))),
    )

-- A creation that succeeds: the order is stored RECEIVED, without a saga, under an id that no row
-- had, with the customer, the vehicle and the snapshot of the customer that was asked for; the
-- vehicle is the customer's; every item stored has a positive quantity and price, and no two have the
-- same type and reference. Nothing else is written.
pub create_service_order-Created :
    (env : Env) (input : CreationInput) (w : World) (t : ServiceOrder)
    → (create_service_order env input w).0 ≡ ok t
    → Created env input w t (create_service_order env input w).1
unfolding create_service_order
create_service_order-Created env input w t h =
    let (d, known, h1, e1) = >>=-ok (get_customer_by_id env input.customer_id) _ w h in
    let (_, checked, h2, e2) =
      >>=-ok (check_vehicle env input.customer_id input.vehicle_id) _ (step w) h1 in
    let v = (check_vehicle env input.customer_id input.vehicle_id (step w)).1 in
    let (items, built, h3, e3) = >>=-ok (validate_and_build_items env "" input.items) _ v h2 in
    let u = (validate_and_build_items env "" input.items v).1 in
    let (s, begun, i, stocked, wrote) =
      fill_new-ok env input d items u (validate_and_build_items-IsSound env "" input.items v built)
        h3 in
    let (consistent, status, no_saga, same_customer, same_vehicle, email, name) =
      Identified-Begun input d s t begun i in
    let (ends, fresh) = subst (Wrote t w) (sym (e1 ∙ e2 ∙ e3)) (
      Wrote-after t w v (fill_new env input d items u).1
        ((Silent-check_vehicle env input.customer_id input.vehicle_id).run (step w))
        (Wrote-after t v u (fill_new env input d items u).1
          ((Silent-validate_and_build_items env "" input.items).run v) wrote)) in
    record {
      fresh = fresh;
      world = ends;
      status = status;
      no_saga = no_saga;
      consistent = consistent;
      stocked = stocked;
      customer = same_customer;
      vehicle = same_vehicle;
      owner =
          check_vehicle-IsOwned env input.customer_id input.vehicle_id (step w) begun.vehicle_named
            checked;
      snapshot = (d, known, email, name);
    }

fill_new-err :
    (env : Env) (input : CreationInput) (d : CustomerDto) (items : List ServiceOrderItem)
    (w : World) {e : Error}
    → (fill_new env input d items w).0 ≡ err e
    → (fill_new env input d items w).1 ≡ tick_to (fill_new env input d items w).1.tick w
unfolding fill_new
fill_new-err env input d items w h =
    Silent-then_err (read_clock env) _ w (Silent-read_clock env)
      (λ now v h1.
        Silent-then_err
          (lift (new_service_order input.customer_id input.vehicle_id input.description (now 0))) _
          v (Silent-lift _)
          (λ order v h2.
            Silent-then_err (add_items env _ items) _ v (Silent-add_items env _ items)
              (λ filled v h3. save_with_items-err env filled v h3) h2)
          h1)
      h

-- A creation that fails writes nothing.
pub create_service_order-err :
    (env : Env) (input : CreationInput) (w : World) (e : Error)
    → (create_service_order env input w).0 ≡ err e
    → (create_service_order env input w).1 ≡ tick_to (create_service_order env input w).1.tick w
unfolding create_service_order
create_service_order-err env input w e h =
    Silent-then_err (get_customer_by_id env input.customer_id) _ w (record { run = λ w. refl })
      (λ buyer v h1.
        Silent-then_err (check_vehicle env input.customer_id input.vehicle_id) _ v
          (Silent-check_vehicle env _ _)
          (λ _ v h2.
            Silent-then_err (validate_and_build_items env "" input.items) _ v
              (Silent-validate_and_build_items env "" input.items)
              (λ items v h3. fill_new-err env input buyer items v h3) h2)
          h1)
      h
