-- ===== src/UseCases/Effects.antt =====
-- What the use cases do to the table of orders: like the saga and the billing, they write at most
-- one row, over the row of the order that they read.
use oficina_tech_ms_order_se.Shared.{List, Option, String, arith, none, not, some, ◌&&◌, ◌≡◌}
use oficina_tech_ms_order_se.Billing.Effects.{
  Quiet-create_payment_preference, Quiet-raise_if, Quiet-send_status_update_email,
  await_payment-Evolves,
}
use oficina_tech_ms_order_se.Billing.Payments.{cancel_payment_order, refund_payment_order}
use oficina_tech_ms_order_se.Domain.Errors.{
  forbidden_access, invalid_status_transition, ok, service_order_deleted, service_order_not_found,
}
use oficina_tech_ms_order_se.Domain.History.{Metadata, build_status_only_metadata}
use oficina_tech_ms_order_se.Domain.Item.{Clock}
use oficina_tech_ms_order_se.Domain.Order.{ServiceOrder, update_status}
use oficina_tech_ms_order_se.Domain.Order.Calls.{perform, to_status}
use oficina_tech_ms_order_se.Domain.Status.{
  OrderStatus, awaiting_payment, completed, paid, status_eq,
}
use oficina_tech_ms_order_se.Domain.Stock.{
  StockOperation, determine_inventory_operation, is_no_operation,
}
use oficina_tech_ms_order_se.Platform.Evolution.{Evolves, Evolves-refl, Safe, perform-Evolves}
use oficina_tech_ms_order_se.Platform.Monad.{◌>>=◌}
use oficina_tech_ms_order_se.Platform.Ports.{Env, MpOrder}
use oficina_tech_ms_order_se.Platform.Rules.{
  Quiet, Quiet-bind, Quiet-pure, Quiet-read_clock, Quiet-save_history_record, Safe-Quiet_then,
  Safe-find_then, Safe-if, Safe-lift_then, Safe-save_order, Safe-then-Quiet,
}
use oficina_tech_ms_order_se.Platform.Table.{find_row}
use oficina_tech_ms_order_se.Saga.Effects.{cancel_order-Safe, start_order_saga-Safe}
use oficina_tech_ms_order_se.Saga.Values.{put_present}
use oficina_tech_ms_order_se.UseCases.Advance.{
  advance_service_order_status, advance_to, await_preference, preference_metadata, start_payment,
}
use oficina_tech_ms_order_se.UseCases.Authorization.{
  AuthorizationInput, answer_to, answered_status, respond_to_authorization,
}
use oficina_tech_ms_order_se.UseCases.Deletion.{
  cancel_after_payment, delete_service_order, settle_before,
}
use oficina_tech_ms_order_se.UseCases.Steps.{record_step, step_by_saga, step_locally}

record_step-Safe :
    (env : Env) (old s : ServiceOrder) (a : OrderStatus) (m : Metadata) (u : Option String)
    (o : List ServiceOrder)
    → find_row s.id o ≡ some old
    → Evolves old s
    → Safe o (record_step env s a m u)
unfolding record_step
record_step-Safe env old s a m u o h e = Safe-Quiet_then Evolves-refl (Quiet-read_clock env) λ now.
    Safe-lift_then Evolves-refl λ history _.
      Safe-Quiet_then Evolves-refl (Quiet-save_history_record env history) λ _.
        Safe-then-Quiet Evolves-refl (Safe-save_order Evolves-refl env old s h e)
          λ _. Quiet-bind (Quiet-send_status_update_email env s a s.status) λ _. Quiet-pure

update_status-Evolves :
    (s : ServiceOrder) (target : OrderStatus) (now : Clock) {t : ServiceOrder}
    → update_status s target now ≡ ok t
    → Evolves s t × (t.id ≡ s.id)
unfolding perform update_status
update_status-Evolves s target now h = (perform-Evolves (to_status target) now s h, ground arith)

step_locally-Safe :
    (env : Env) (s : ServiceOrder) (target : OrderStatus) (f : Metadata → Metadata)
    (o : List ServiceOrder)
    → find_row s.id o ≡ some s
    → Safe o (step_locally env s target f)
unfolding step_locally
step_locally-Safe env s target f o h = Safe-Quiet_then Evolves-refl (Quiet-read_clock env) λ now.
    Safe-lift_then Evolves-refl
      {f = λ t. record_step env t s.status (f (build_status_only_metadata s.status t.status)) none}
      λ t e.
        let (evolves, same) = update_status-Evolves s target now e in
        record_step-Safe env s t s.status _ none o (rw same h) evolves

step_by_saga-Safe :
    (env : Env) (id : String) (op : StockOperation) (target : OrderStatus) (n : Option String)
    (o : List ServiceOrder)
    → Safe o (step_by_saga env id op target n)
unfolding step_by_saga
step_by_saga-Safe env id op target n o =
    Safe-then-Quiet Evolves-refl (start_order_saga-Safe env id op target n o) λ _. Quiet-pure

await_preference-Safe :
    (env : Env) (s : ServiceOrder) (p : MpOrder) (o : List ServiceOrder)
    → find_row s.id o ≡ some s
    → Safe o (await_preference env s p)
unfolding await_preference
await_preference-Safe env s p o h = Safe-Quiet_then Evolves-refl (Quiet-read_clock env) λ now.
    Safe-lift_then Evolves-refl
      {f = λ t. record_step env t s.status (preference_metadata s.status t.status p) t.payment_url}
      λ t e.
        let (evolves, same) = await_payment-Evolves s p.id p.redirect_url now e in
        record_step-Safe env s t s.status _ t.payment_url o (rw same h) evolves

start_payment-Safe :
    (env : Env) (s : ServiceOrder) (o : List ServiceOrder)
    → find_row s.id o ≡ some s
    → Safe o (start_payment env s)
unfolding start_payment
start_payment-Safe env s o h =
    Safe-Quiet_then Evolves-refl (Quiet-create_payment_preference env s)
      λ p. await_preference-Safe env s p o h

advance_to-Safe :
    (env : Env) (s : ServiceOrder) (op : StockOperation) (target : OrderStatus)
    (o : List ServiceOrder)
    → find_row s.id o ≡ some s
    → Safe o (advance_to env s op target)
unfolding advance_to
advance_to-Safe env s op target o h =
    Safe-if Evolves-refl {b = not (is_no_operation op)} {m = step_by_saga env s.id op target none}
      (λ _. step_by_saga-Safe env s.id op target none o)
      λ _.
        Safe-if Evolves-refl {b = status_eq s.status completed && status_eq target awaiting_payment}
          {m = start_payment env s} (λ _. start_payment-Safe env s o h)
          λ _. step_locally-Safe env s target (λ m. m) o h

pub advance_service_order_status-Safe :
    (env : Env) (id : String) (o : List ServiceOrder) → Safe o (advance_service_order_status env id)
unfolding advance_service_order_status
advance_service_order_status-Safe env id o = Safe-find_then Evolves-refl env id λ s h.
    Safe-Quiet_then Evolves-refl (Quiet-raise_if _ service_order_deleted) λ _.
      Safe-lift_then Evolves-refl
        {f = λ t. advance_to env s (determine_inventory_operation s.status t) t}
        λ t _. advance_to-Safe env s (determine_inventory_operation s.status t) t o h

answer_to-Safe :
    (env : Env) (s : ServiceOrder) (op : StockOperation) (target : OrderStatus) (n : Option String)
    (o : List ServiceOrder)
    → find_row s.id o ≡ some s
    → Safe o (answer_to env s op target n)
unfolding answer_to
answer_to-Safe env s op target n o h =
    Safe-if Evolves-refl {b = not (is_no_operation op)} {m = step_by_saga env s.id op target n}
      (λ _. step_by_saga-Safe env s.id op target n o)
      λ _. step_locally-Safe env s target (put_present "observation" n) o h

pub respond_to_authorization-Safe :
    (env : Env) (input : AuthorizationInput) (o : List ServiceOrder)
    → Safe o (respond_to_authorization env input)
unfolding respond_to_authorization
respond_to_authorization-Safe env input o =
    Safe-find_then Evolves-refl env input.service_order_id λ s h.
      Safe-Quiet_then Evolves-refl (Quiet-raise_if _ forbidden_access) λ _.
        Safe-Quiet_then Evolves-refl (Quiet-raise_if _ service_order_deleted) λ _.
          Safe-Quiet_then Evolves-refl (Quiet-raise_if _ invalid_status_transition)
            λ _. answer_to-Safe env s _ (answered_status input.approved) input.observation o h

Quiet-refund_payment_order : (env : Env) (id : String) → Quiet (refund_payment_order env id)
unfolding refund_payment_order ◌>>=◌
Quiet-refund_payment_order env id = record { run = λ w. ground arith }

pub Quiet-settle_before :
    (env : Env) (s : ServiceOrder) (a : OrderStatus) → Quiet (settle_before env s a)
unfolding cancel_payment_order ◌>>=◌
Quiet-settle_before env s paid = Quiet-refund_payment_order env _
Quiet-settle_before env s _ = record { run = λ w. ground arith }

pub delete_service_order-Safe :
    (env : Env) (id : String) (n : Option String) (o : List ServiceOrder)
    → Safe o (delete_service_order env id n)
unfolding delete_service_order cancel_after_payment
delete_service_order-Safe env id n o = Safe-find_then Evolves-refl env id λ s h.
    Safe-Quiet_then Evolves-refl (Quiet-raise_if _ service_order_not_found) λ _.
      Safe-Quiet_then Evolves-refl (Quiet-settle_before env s s.status)
        λ _. Safe-then-Quiet Evolves-refl (cancel_order-Safe env id n o) λ _. Quiet-pure
