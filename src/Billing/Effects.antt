-- ===== src/Billing/Effects.antt =====
-- What the billing does to the table of orders: it writes at most one row, over the row of the order
-- that it read.
use oficina_tech_ms_order_se.Shared.{
  Bool, List, String, arith, refl, some, ◌≡◌, false, not, str_eq, ◌||◌,
}
use oficina_tech_ms_order_se.Billing.Payments.{create_payment_preference}
use oficina_tech_ms_order_se.Billing.Retry.{await_retry, record_retry, retry_payment}
use oficina_tech_ms_order_se.Billing.Webhook.{
  OrderChange, WebhookInput, apply_change, handle_payment_webhook, mark, record_payment,
  referenced_order, save_payment_history, settle_payment, is_rejection, mark_approved,
  mark_refunded, mark_rejected, webhook_output,
}
use oficina_tech_ms_order_se.Domain.Errors.{Error, invalid_status_transition, malformed_webhook, ok}
use oficina_tech_ms_order_se.Domain.Item.{Clock}
use oficina_tech_ms_order_se.Domain.Order.{
  ServiceOrder, await_payment, cancel_after_refund, confirm_payment, reject_payment, update_status,
}
use oficina_tech_ms_order_se.Domain.Order.Calls.{
  payment_awaited, payment_confirmed, payment_rejection, perform, refund_cancellation,
}
use oficina_tech_ms_order_se.Domain.Status.{
  OrderStatus, awaiting_payment, canceled, paid, payment_rejected, status_eq,
}
use oficina_tech_ms_order_se.Platform.Evolution.{Evolves, Evolves-refl, Safe, perform-Evolves}
use oficina_tech_ms_order_se.Platform.Monad.{◌>>=◌, PaymentCall, raise_if, pure}
use oficina_tech_ms_order_se.Platform.Ports.{Env, MpOrder, MpPayment, call_mp, call_mp_payment}
use oficina_tech_ms_order_se.Platform.Rules.{
  Quiet, Quiet-bind, Quiet-pure, Quiet-read_clock, Quiet-save_history_record, Safe-Quiet_then,
  Safe-find_then, Safe-if, Safe-lift_then, Safe-of_Quiet, Safe-save_order, Safe-then-Quiet,
}
use oficina_tech_ms_order_se.Platform.Table.{find_row}
use oficina_tech_ms_order_se.Saga.Recording.{send_status_update_email}

pub Quiet-save_payment_history :
    (env : Env) (s : ServiceOrder) (a b : OrderStatus) (p st d : String)
    → Quiet (save_payment_history env s a b p st d)
unfolding save_payment_history ◌>>=◌
Quiet-save_payment_history env s a b p st d = record { run = λ w. ground arith }

Quiet-call_mp : (env : Env) (c : PaymentCall) → Quiet (call_mp env c)
Quiet-call_mp env c = record { run = λ w. refl }

Quiet-call_mp_payment : (env : Env) (id : String) → Quiet (call_mp_payment env id)
Quiet-call_mp_payment env id = record { run = λ w. refl }

pub Quiet-raise_if : (b : Bool) (e : Error) → Quiet (raise_if b e)
Quiet-raise_if b e = record { run = λ w. refl }

pub Quiet-send_status_update_email :
    (env : Env) (s : ServiceOrder) (a b : OrderStatus) → Quiet (send_status_update_email env s a b)
unfolding send_status_update_email ◌>>=◌
Quiet-send_status_update_email env s a b = record { run = λ w. ground arith }

record_payment-Safe :
    (env : Env) (old s : ServiceOrder) (a : OrderStatus) (p st d : String) (o : List ServiceOrder)
    → find_row s.id o ≡ some old
    → Evolves old s
    → Safe o (record_payment env s a p st d)
unfolding record_payment
record_payment-Safe env old s a p st d o h e =
    Safe-Quiet_then Evolves-refl (Quiet-save_payment_history env s a s.status p st d) λ _.
      Safe-then-Quiet Evolves-refl (Safe-save_order Evolves-refl env old s h e)
        λ _. Quiet-bind (Quiet-send_status_update_email env s a s.status) λ _. Quiet-pure

-- A change that is a method of the order and keeps its id.
unfoldable IsStep : OrderChange → Type 0
IsStep f = (s t : ServiceOrder) (now : Clock) → f s now ≡ ok t → Evolves s t × (t.id ≡ s.id)

confirm_payment-IsStep : (p : String) → IsStep (λ s now. confirm_payment s p now)
unfolding confirm_payment update_status IsStep perform
confirm_payment-IsStep p s t now h = (perform-Evolves (payment_confirmed p) now s h, ground arith)

reject_payment-IsStep : IsStep reject_payment
unfolding reject_payment update_status IsStep perform
reject_payment-IsStep s t now h = (perform-Evolves payment_rejection now s h, ground arith)

cancel_after_refund-IsStep : IsStep cancel_after_refund
unfolding cancel_after_refund update_status IsStep perform
cancel_after_refund-IsStep s t now h = (perform-Evolves refund_cancellation now s h, ground arith)

apply_change-Safe :
    (env : Env) (s : ServiceOrder) (f : OrderChange) (p st d : String) (o : List ServiceOrder)
    → IsStep f
    → find_row s.id o ≡ some s
    → Safe o (apply_change env s f p st d)
unfolding apply_change IsStep
apply_change-Safe env s f p st d o is_step h =
    Safe-Quiet_then Evolves-refl (Quiet-read_clock env) λ now.
      Safe-lift_then Evolves-refl {f = λ t. record_payment env t s.status p st d} λ t e.
        let (evolves, same) = is_step s t now e in
        record_payment-Safe env s t s.status p st d o (rw same h) evolves

mark-Safe :
    (env : Env) (done from : OrderStatus) (f : OrderChange) (id p st d : String)
    (o : List ServiceOrder)
    → IsStep f
    → Safe o (mark env done from f id p st d)
unfolding mark
mark-Safe env done from f id p st d o is_step = Safe-find_then Evolves-refl env id λ s h.
    Safe-if Evolves-refl {b = status_eq s.status done || not (status_eq s.status from)}
      {m = pure (webhook_output false s)} (λ _. Safe-of_Quiet Evolves-refl Quiet-pure)
      (λ _. apply_change-Safe env s f p st d o is_step h)

settle_payment-Safe :
    (env : Env) (id : String) (p : MpPayment) (o : List ServiceOrder)
    → Safe o (settle_payment env id p)
unfolding settle_payment
settle_payment-Safe env id p o =
    Safe-if Evolves-refl {b = str_eq p.status "approved"} {m = mark_approved env id p.id}
      (λ _.
        mark-Safe env paid awaiting_payment (λ s now. confirm_payment s p.id now) id p.id "approved"
          "" o (confirm_payment-IsStep p.id))
      λ _.
        Safe-if Evolves-refl {b = is_rejection p.status}
          {m = mark_rejected env id p.id p.status p.status_detail}
          (λ _.
            mark-Safe env payment_rejected awaiting_payment reject_payment id p.id p.status
              p.status_detail o reject_payment-IsStep)
          λ _.
            Safe-if Evolves-refl {b = str_eq p.status "refunded"} {m = mark_refunded env id p.id}
              (λ _.
                mark-Safe env canceled paid cancel_after_refund id p.id "refunded" "" o
                  cancel_after_refund-IsStep)
              λ _. Safe-of_Quiet Evolves-refl Quiet-pure

pub handle_payment_webhook-Safe :
    (env : Env) (input : WebhookInput) (o : List ServiceOrder)
    → Safe o (handle_payment_webhook env input)
unfolding handle_payment_webhook
handle_payment_webhook-Safe env input o =
    Safe-Quiet_then Evolves-refl (Quiet-call_mp_payment env input.mp_order_id) λ p.
      Safe-Quiet_then Evolves-refl (Quiet-raise_if _ malformed_webhook)
        λ _. settle_payment-Safe env (referenced_order p input) p o

record_retry-Safe :
    (env : Env) (old s : ServiceOrder) (a : OrderStatus) (m : MpOrder) (o : List ServiceOrder)
    → find_row s.id o ≡ some old
    → Evolves old s
    → Safe o (record_retry env s a m)
unfolding record_retry
record_retry-Safe env old s a m o h e = Safe-Quiet_then Evolves-refl (Quiet-read_clock env) λ now.
    Safe-lift_then Evolves-refl λ history _.
      Safe-Quiet_then Evolves-refl (Quiet-save_history_record env history) λ _.
        Safe-then-Quiet Evolves-refl (Safe-save_order Evolves-refl env old s h e) λ _. Quiet-pure

await_payment_id :
    (s : ServiceOrder) (p u : String) (now : Clock) {t : ServiceOrder}
    → await_payment s p u now ≡ ok t
    → t.id ≡ s.id
unfolding await_payment update_status
await_payment_id s p u now h = ground arith

-- `AwaitPayment` is a step of the order that keeps its id.
pub await_payment-Evolves :
    (s : ServiceOrder) (p u : String) (now : Clock) {t : ServiceOrder}
    → await_payment s p u now ≡ ok t
    → Evolves s t × (t.id ≡ s.id)
unfolding perform
await_payment-Evolves s p u now h =
    (perform-Evolves (payment_awaited p u) now s h, await_payment_id s p u now h)

await_retry-Safe :
    (env : Env) (s : ServiceOrder) (m : MpOrder) (o : List ServiceOrder)
    → find_row s.id o ≡ some s
    → Safe o (await_retry env s m)
unfolding await_retry
await_retry-Safe env s m o h = Safe-Quiet_then Evolves-refl (Quiet-read_clock env) λ now.
    Safe-lift_then Evolves-refl {f = λ t. record_retry env t s.status m} λ t e.
      let (evolves, same) = await_payment-Evolves s m.id m.redirect_url now e in
      record_retry-Safe env s t s.status m o (rw same h) evolves

pub Quiet-create_payment_preference :
    (env : Env) (s : ServiceOrder) → Quiet (create_payment_preference env s)
unfolding create_payment_preference
Quiet-create_payment_preference env s = Quiet-call_mp env _

pub retry_payment-Safe :
    (env : Env) (id : String) (o : List ServiceOrder) → Safe o (retry_payment env id)
unfolding retry_payment
retry_payment-Safe env id o = Safe-find_then Evolves-refl env id λ s h.
    Safe-Quiet_then Evolves-refl (Quiet-raise_if _ invalid_status_transition) λ _.
      Safe-Quiet_then Evolves-refl (Quiet-create_payment_preference env s)
        λ m. await_retry-Safe env s m o h
