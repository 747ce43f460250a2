-- ===== src/Billing/Paid.antt =====
-- What an approved payment does to the order that it is for.
use oficina_tech_ms_order_se.Shared.{
  Bool, String, ap, arith, false, if◌then◌else◌, is_some, refl, some, str_eq, sym, true, ◌∙◌, ◌≡◌,
}
use oficina_tech_ms_order_se.Billing.Marks.{passed, record_payment-ok}
use oficina_tech_ms_order_se.Billing.Once.{asked, named_order, webhook_ran}
use oficina_tech_ms_order_se.Billing.Webhook.{
  WebhookInput, WebhookOutput, apply_change, handle_payment_webhook, mark, mark_approved,
  referenced_order, settle_payment, webhook_output,
}
use oficina_tech_ms_order_se.Domain.Errors.{ok, ok_injective}
use oficina_tech_ms_order_se.Domain.Item.{Clock}
use oficina_tech_ms_order_se.Domain.Order.{ServiceOrder, confirm_payment, idle, update_status}
use oficina_tech_ms_order_se.Domain.Status.{awaiting_payment, can_transition_to, paid}
use oficina_tech_ms_order_se.Platform.Monad.{Action, World, lift, pure}
use oficina_tech_ms_order_se.Platform.Outcomes.{>>=-ok, find_by_id-ok}
use oficina_tech_ms_order_se.Platform.Ports.{Env, MpPayment, find_by_id, read_clock, step}
use oficina_tech_ms_order_se.Platform.Table.{find_row, save_row}

-- The order as a confirmed payment leaves it.
pub record IsPaidBy (payment_id : String) (s t : ServiceOrder) : Type 0 where
  pub at : t.status ≡ paid
  pub payment : t.mp_payment_id ≡ some payment_id
  pub at_rest : t.saga_status ≡ idle
  pub closed : is_some t.closed_at ≡ true
  pub same_id : t.id ≡ s.id
  pub same_items : t.items ≡ s.items

confirm_payment-IsPaidBy :
    (s : ServiceOrder) (payment_id : String) (now : Clock) {t : ServiceOrder}
    → confirm_payment s payment_id now ≡ ok t
    → (s.status ≡ awaiting_payment) × IsPaidBy payment_id s t
unfolding confirm_payment update_status can_transition_to
confirm_payment-IsPaidBy s payment_id now h = ground arith

-- An approval that was processed: what it found and what it stored.
abbrev pub Approved : String → String → World → World → Type 0
Approved id payment_id w v =
    (s : ServiceOrder) × (t : ServiceOrder) × (find_row id w.orders ≡ some s)
    × (s.status ≡ awaiting_payment)
    × IsPaidBy payment_id s t
    × (v.orders ≡ save_row t w.orders)

paid_change :
    (env : Env) (s : ServiceOrder) (p : String) (w : World) {out : WebhookOutput}
    → (apply_change env s (λ o now. confirm_payment o p now) p "approved" "" w).0 ≡ ok out
    → (s.status ≡ awaiting_payment)
      × ((t : ServiceOrder) × IsPaidBy p s t
          × ((apply_change env s (λ o now. confirm_payment o p now) p "approved" "" w).1.orders
              ≡ save_row t w.orders))
unfolding apply_change
paid_change env s p w h =
    let (now, _, h1, e1) = >>=-ok (read_clock env) _ w h in
    let (t, changed, h2, e2) = >>=-ok (lift (confirm_payment s p now)) _ (step w) h1 in
    let (from_awaiting, is_paid) = confirm_payment-IsPaidBy s p now changed in
    (
      from_awaiting,
      (
        t,
        is_paid,
        ap (λ v. v.orders) (e1 ∙ e2) ∙ record_payment-ok env t s.status p "approved" "" (step w) h2,
      ),
    )

processed_ran :
    (b : Bool) (s : ServiceOrder) (m : Action WebhookOutput) (v : World) {out : WebhookOutput}
    → out.processed ≡ true
    → ((if b then pure (webhook_output false s) else m) v).0 ≡ ok out
    → ((m v).0 ≡ ok out) × (((if b then pure (webhook_output false s) else m) v).1 ≡ (m v).1)
processed_ran true s m v {out} p h =
    let same : webhook_output false s ≡ out = ok_injective h in
    let off : false ≡ true = ap (λ o. o.processed) same ∙ p in cc
processed_ran false s m v p h = (h, refl)

mark_approved_ran :
    (env : Env) (id p : String) (w : World) {out : WebhookOutput}
    → out.processed ≡ true
    → (mark_approved env id p w).0 ≡ ok out
    → Approved id p w (mark_approved env id p w).1
unfolding mark
mark_approved_ran env id p w on h =
    let (s, r, h1, e1) = >>=-ok (find_by_id env id) _ w h in
    let (h2, e2) =
      processed_ran (passed paid awaiting_payment s) s
        (apply_change env s (λ o now. confirm_payment o p now) p "approved" "") (step w) on h1 in
    let (from_awaiting, (t, is_paid, e3)) = paid_change env s p (step w) h2 in
    (s, t, find_by_id-ok env id w r, from_awaiting, is_paid, ap (λ v. v.orders) (e1 ∙ e2) ∙ e3)

settle_approved :
    (env : Env) (id : String) (p : MpPayment)
    → str_eq p.status "approved" ≡ true
    → settle_payment env id p ≡ mark_approved env id p.id
unfolding settle_payment
settle_approved env id p h = rw h refl

-- When a notification of an approved payment is processed, the order that the payment refers to was
-- awaiting its payment, and it is stored PAID, closed, with the payment's id, with no saga and with
-- its items as they were.
pub handle_payment_webhook-Approved :
    (env : Env) (input : WebhookInput) (w : World) (p : MpPayment) (out : WebhookOutput)
    → env.mp_payment w.tick input.mp_order_id ≡ ok p
    → str_eq p.status "approved" ≡ true
    → out.processed ≡ true
    → (handle_payment_webhook env input w).0 ≡ ok out
    → Approved (referenced_order p input) p.id w (handle_payment_webhook env input w).1
handle_payment_webhook-Approved env input w p out answer good on h =
    let id = referenced_order p input in
    let v = asked env input w in
    let ran : handle_payment_webhook env input w ≡ mark_approved env id p.id v =
      webhook_ran env input w p answer (named_order env input w p answer h)
      ∙ ap (λ m. m v) (settle_approved env id p good) in
    let (s, t, row, from_awaiting, is_paid, e) =
      mark_approved_ran env id p.id v on (ap (λ r. r.0) (sym ran) ∙ h) in
    (s, t, row, from_awaiting, is_paid, ap (λ r. r.1.orders) ran ∙ e)
