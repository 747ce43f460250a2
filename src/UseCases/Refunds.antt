-- ===== src/UseCases/Refunds.antt =====
-- A paid order is not canceled without its refund.
use oficina_tech_ms_order_se.Shared.{
  Option, String, [], ap, false, if◌then◌else◌, is_empty, none, some, ◌++◌, ◌+◌, ◌∙◌, ◌∷◌, ◌≡◌,
}
use oficina_tech_ms_order_se.Billing.Payments.{refund_payment_order}
use oficina_tech_ms_order_se.Domain.Errors.{Error, err, fail_if, service_order_not_found}
use oficina_tech_ms_order_se.Domain.Order.{ServiceOrder, order_is_deleted}
use oficina_tech_ms_order_se.Domain.Status.{paid}
use oficina_tech_ms_order_se.Platform.Monad.{◌>>=◌, World, pure, raise_if, refund_mp_order}
use oficina_tech_ms_order_se.Platform.Outcomes.{>>=_halted, >>=_resumed, find_by_id_found}
use oficina_tech_ms_order_se.Platform.Ports.{Env, call_mp, find_by_id, step}
use oficina_tech_ms_order_se.Platform.Table.{find_row}
use oficina_tech_ms_order_se.UseCases.Deletion.{delete_service_order, settle_before, text_or_empty}

abbrev pub refund_asked : String → World → World
refund_asked payment_id w =
    step (record w { payment_calls = w.payment_calls ++ refund_mp_order payment_id ∷ [] })

refund_ran :
    (env : Env) (payment_id : String) (w : World) {e : Error}
    → is_empty payment_id ≡ false
    → env.mp_order w.tick (refund_mp_order payment_id) ≡ err e
    → refund_payment_order env payment_id w ≡ (err e, refund_asked payment_id w)
unfolding refund_payment_order
refund_ran env payment_id w named refused =
    ap (λ b. (if b then pure tt else (call_mp env (refund_mp_order payment_id) >>= λ _. pure tt)) w)
      named
    ∙ >>=_halted (call_mp env (refund_mp_order payment_id)) _ w refused

settle_before_ran :
    (env : Env) (s : ServiceOrder) (payment_id : String) (w : World) {e : Error}
    → s.status ≡ paid
    → s.mp_payment_id ≡ some payment_id
    → is_empty payment_id ≡ false
    → env.mp_order w.tick (refund_mp_order payment_id) ≡ err e
    → settle_before env s s.status w ≡ (err e, refund_asked payment_id w)
settle_before_ran env s payment_id w at known named refused =
    ap (λ st. settle_before env s st w) at
    ∙ ap (λ p. refund_payment_order env (text_or_empty p) w) known
    ∙ refund_ran env payment_id w named refused

-- When the table hands over a paid order that is not deleted and has the id of its payment, and
-- Mercado Pago refuses the refund, deleting the order fails with that error, and nothing has happened
-- but the request for the refund: no order, history, message or e-mail is written.
pub delete_service_order-refund_payment_order :
    (env : Env) (id payment_id : String) (notes : Option String) (w : World) (s : ServiceOrder)
    (e : Error)
    → find_row id w.orders ≡ some s
    → env.find_error w.tick id ≡ none
    → order_is_deleted s ≡ false
    → s.status ≡ paid
    → s.mp_payment_id ≡ some payment_id
    → is_empty payment_id ≡ false
    → env.mp_order (w.tick + 1) (refund_mp_order payment_id) ≡ err e
    → delete_service_order env id notes w ≡ (err e, refund_asked payment_id (step w))
unfolding delete_service_order
delete_service_order-refund_payment_order env id payment_id notes w s e row answers kept at known
      named refused =
    let settled = settle_before_ran env s payment_id (step w) at known named refused in
    >>=_resumed (find_by_id env id) _ w (find_by_id_found env id w answers row)
    ∙ >>=_resumed (raise_if (order_is_deleted s) service_order_not_found) _ (step w)
        (ap (λ b. fail_if b service_order_not_found) kept)
    ∙ >>=_halted (settle_before env s s.status) _ (step w) (ap (λ r. r.0) settled)
    ∙ ap (λ r. (err e, r.1)) settled
