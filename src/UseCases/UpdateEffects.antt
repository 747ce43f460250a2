-- ===== src/UseCases/UpdateEffects.antt =====
-- An update that fails stores no order, and one that succeeds is a step that any call may make.
use mathlib.Core.Path.{subst}
use oficina_tech_ms_order_se.Shared.{
  Bool, Option, ap, arith, false, is_some, refl, true, ◌∙◌, ◌≡◌, inl, sym,
}
use oficina_tech_ms_order_se.Billing.Effects.{Quiet-raise_if}
use oficina_tech_ms_order_se.Domain.Errors.{Error, Result, err, ok, service_order_deleted}
use oficina_tech_ms_order_se.Domain.History.{History, capture_order_state}
use oficina_tech_ms_order_se.Domain.Order.{ServiceOrder, order_is_deleted}
use oficina_tech_ms_order_se.Platform.Evolution.{Evolves, Evolves-refl}
use oficina_tech_ms_order_se.Platform.Monad.{◌>>=◌, World, raise_if}
use oficina_tech_ms_order_se.Platform.Ports.{Env, find_by_id}
use oficina_tech_ms_order_se.Platform.Rules.{
  Quiet, Quiet-bind, Quiet-generate_uuid, Quiet-pure, Quiet-read_clock, Quiet-save_history_record,
  Rows, Rows-same, Rows-save_row,
}
use oficina_tech_ms_order_se.Platform.Silent.{Quiet-of_Silent, Quiet-then_err, Silent-lift}
use oficina_tech_ms_order_se.Platform.Table.{find_row, find_row_id}
use oficina_tech_ms_order_se.UseCases.Details.{Silent-validate_and_update}
use oficina_tech_ms_order_se.UseCases.SavingEffects.{save_with_items-err}
use oficina_tech_ms_order_se.UseCases.Update.{
  UpdateInput, save_history, save_updated, store_history, update_items, update_service_order,
  validate_and_update_customer_vehicle,
}
use oficina_tech_ms_order_se.UseCases.Updated.{
  Silent-update_items, Updated, update_service_order-Updated,
}

Quiet-store_history : (env : Env) (h : History) → Quiet (store_history env h)
unfolding store_history
Quiet-store_history env h =
    Quiet-bind (Quiet-generate_uuid env)
      λ id. Quiet-bind (Quiet-save_history_record env _) λ _. Quiet-pure

Quiet-save_history :
    (env : Env) (s : ServiceOrder) (old : Option ServiceOrder) (b : Bool)
    → Quiet (save_history env s old b)
unfolding save_history
Quiet-save_history env s old b = Quiet-bind (Quiet-of_Silent (Silent-lift _)) λ first.
    Quiet-bind (Quiet-read_clock env) λ now. Quiet-bind (Quiet-of_Silent (Silent-lift _)) λ h.
      Quiet-bind (Quiet-store_history env h) λ id.
        Quiet-bind (Quiet-read_clock env)
          λ later. Quiet-bind (Quiet-of_Silent (Silent-lift _)) λ items. Quiet-pure

save_updated-err :
    (env : Env) (s : ServiceOrder) (b : Bool) (w : World) {e : Error}
    → (save_updated env s b w).0 ≡ err e
    → (save_updated env s b w).1.orders ≡ w.orders
unfolding ◌>>=◌
save_updated-err env s true w h = ap (λ v. v.orders) (save_with_items-err env s w h)
save_updated-err env s false w h = ground arith

-- An update that fails stores no order; its history may be stored already.
pub update_service_order-err :
    (env : Env) (input : UpdateInput) (w : World) (e : Error)
    → (update_service_order env input w).0 ≡ err e
    → (update_service_order env input w).1.orders ≡ w.orders
unfolding update_service_order
update_service_order-err env input w e h =
    Quiet-then_err (find_by_id env input.id) _ w (record { run = λ w. refl })
      (λ s v _ h1.
        Quiet-then_err (raise_if (order_is_deleted s) service_order_deleted) _ v
          (Quiet-raise_if _ _)
          (λ _ v _ h2.
            Quiet-then_err (validate_and_update_customer_vehicle env s input) _ v
              (Quiet-of_Silent (Silent-validate_and_update env s input))
              (λ u v _ h3.
                Quiet-then_err (update_items env u input.items) _ v
                  (Quiet-of_Silent (Silent-update_items env u input.items))
                  (λ x v _ h4.
                    Quiet-then_err
                      (save_history env x (capture_order_state s) (is_some input.items)) _ v
                      (Quiet-save_history env x _ _)
                      (λ y v _ h5. save_updated-err env y (is_some input.items) v h5) h4)
                  h3)
              h2)
          h1)
      h

Updated-Evolves :
    (env : Env) (input : UpdateInput) (s : ServiceOrder) (w : World) (t row : ServiceOrder)
    (v : World)
    → Updated env input s w t row v
    → Evolves s row × (row.id ≡ s.id)
Updated-Evolves env input s w t row v u =
    subst (λ x. Evolves s x × (x.id ≡ s.id))
      (sym (
        u.stored
        ∙ ap {A = ServiceOrder} {B = ServiceOrder} (λ x. record x { items = row.items }) u.frame))
      (
        record {
          advances = record { edge = inl refl; closed_once = λ _. refl };
          consistent = λ i. record {
            valid = i.valid;
            closing = i.closing;
            busy = i.busy;
            at_rest = i.at_rest;
          };
        },
        refl,
      )

-- The update of an order, whether it succeeds or fails, is a step of the order.
pub update_service_order-Rows :
    (env : Env) (input : UpdateInput) (w : World)
    → Rows Evolves w.orders (update_service_order env input w).1.orders
update_service_order-Rows env input w = by_result (update_service_order env input w).0 refl
  where
    by_result :
        (r : Result ServiceOrder)
        → (update_service_order env input w).0 ≡ r
        → Rows Evolves w.orders (update_service_order env input w).1.orders
    by_result (err e) h =
        rw (update_service_order-err env input w e h) (Rows-same Evolves-refl w.orders)
    by_result (ok t) h =
        let (s, row, u) = update_service_order-Updated env input w t h in
        let (evolves, same) = Updated-Evolves env input s w t row _ u in
        rw u.written (
          Rows-save_row Evolves-refl s row w.orders
            (ap (λ k. find_row k w.orders) (same ∙ find_row_id input.id w.orders u.at_hand)
              ∙ u.at_hand)
            evolves)
