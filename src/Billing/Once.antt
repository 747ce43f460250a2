-- ===== src/Billing/Once.antt =====
-- A notification that Mercado Pago delivers again.
use mathlib.Core.Path.{subst}
use oficina_tech_ms_order_se.Shared.{
  Bool, Bool-cases, String, ap, false, if◌then◌else◌, inl, inr, is_empty, refl, str_eq, sym, true,
  ◌∙◌, ◌≡◌,
}
use oficina_tech_ms_order_se.Billing.Marks.{
  IsTo, Passed, cancel_after_refund-IsTo, confirm_payment-IsTo, mark-Passed, mark_stale,
  reject_payment-IsTo,
}
use oficina_tech_ms_order_se.Billing.Webhook.{
  OrderChange, WebhookInput, WebhookOutput, handle_payment_webhook, is_rejection, mark,
  mark_approved, mark_refunded, mark_rejected, referenced_order, settle_payment,
}
use oficina_tech_ms_order_se.Domain.Errors.{err, malformed_webhook, ok}
use oficina_tech_ms_order_se.Domain.Order.{cancel_after_refund, confirm_payment, reject_payment}
use oficina_tech_ms_order_se.Domain.Status.{
  OrderStatus, awaiting_payment, canceled, paid, payment_rejected,
}
use oficina_tech_ms_order_se.Platform.Monad.{◌>>=◌, Action, World}
use oficina_tech_ms_order_se.Platform.Ports.{Env, MpPayment, call_mp_payment, step}

-- Two states with the same orders, histories, requests and e-mails.
pub record SameBooks (v w : World) : Type 0 where
  pub orders : w.orders ≡ v.orders
  pub histories : w.histories ≡ v.histories
  pub requests : w.requests ≡ v.requests
  pub emails : w.emails ≡ v.emails

same_books : (v w : World) → w ≡ step v → SameBooks v w
same_books v w e = record {
  orders = ap (λ u. u.orders) e;
  histories = ap (λ u. u.histories) e;
  requests = ap (λ u. u.requests) e;
  emails = ap (λ u. u.emails) e;
}

SameBooks-refl : (v : World) → SameBooks v v
SameBooks-refl v = record { orders = refl; histories = refl; requests = refl; emails = refl }

mark_again :
    (env : Env) (done from : OrderStatus) (f : OrderChange) (id p st d : String) (v w : World)
    {out : WebhookOutput}
    → IsTo done f
    → (mark env done from f id p st d w).0 ≡ ok out
    → v.orders ≡ (mark env done from f id p st d w).1.orders
    → SameBooks v (mark env done from f id p st d v).1
mark_again env done from f id p st d v w is_to h e = same_books v _ (
    mark_stale env done from f id p st d v
      (subst (Passed done from id) (sym e) (mark-Passed env done from f id p st d w is_to h)))

unfoldable Again : {A : Type 0} → Action A → Type 0
Again {A} m =
    (v w : World) (out : A) → (m w).0 ≡ ok out → v.orders ≡ (m w).1.orders → SameBooks v (m v).1

if_Again : {A : Type 0} (b : Bool) (m n : Action A) → Again m → Again n → Again (if b then m else n)
if_Again true m n x y = x
if_Again false m n x y = y

settle_payment-Again : (env : Env) (id : String) (p : MpPayment) → Again (settle_payment env id p)
unfolding settle_payment Again
settle_payment-Again env id p =
    if_Again (str_eq p.status "approved") (mark_approved env id p.id) _
      (λ v w out.
        mark_again env paid awaiting_payment (λ s now. confirm_payment s p.id now) id p.id
          "approved" "" v w (confirm_payment-IsTo p.id))
      (if_Again (is_rejection p.status) (mark_rejected env id p.id p.status p.status_detail) _
        (λ v w out.
          mark_again env payment_rejected awaiting_payment reject_payment id p.id p.status
            p.status_detail v w reject_payment-IsTo)
        (if_Again (str_eq p.status "refunded") (mark_refunded env id p.id) _
          (λ v w out.
            mark_again env canceled paid cancel_after_refund id p.id "refunded" "" v w
              cancel_after_refund-IsTo)
          (λ v w out h e. SameBooks-refl v)))

abbrev pub asked : Env → WebhookInput → World → World
asked env input w = (call_mp_payment env input.mp_order_id w).1

pub webhook_ran :
    (env : Env) (input : WebhookInput) (w : World) (p : MpPayment)
    → env.mp_payment w.tick input.mp_order_id ≡ ok p
    → is_empty (referenced_order p input) ≡ false
    → handle_payment_webhook env input w
      ≡ settle_payment env (referenced_order p input) p (asked env input w)
unfolding handle_payment_webhook ◌>>=◌
webhook_ran env input w p answer named = rw (answer, named) refl

pub named_order :
    (env : Env) (input : WebhookInput) (w : World) (p : MpPayment) {out : WebhookOutput}
    → env.mp_payment w.tick input.mp_order_id ≡ ok p
    → (handle_payment_webhook env input w).0 ≡ ok out
    → is_empty (referenced_order p input) ≡ false
unfolding handle_payment_webhook ◌>>=◌
named_order env input w p answer h = elim (Bool-cases (is_empty (referenced_order p input))) [
  | inl unnamed ↦ let failed_with : err malformed_webhook ≡ ok _ = rw (answer, unnamed) at h in cc
  | inr named ↦ named
]

-- When a notification has been handled and is delivered again, and Mercado Pago gives the same
-- payment for it, then no order, history, request or e-mail is written any more.
pub handle_payment_webhook-once :
    (env : Env) (input : WebhookInput) (w : World) (p : MpPayment) (out : WebhookOutput)
    → env.mp_payment w.tick input.mp_order_id ≡ ok p
    → (handle_payment_webhook env input w).0 ≡ ok out
    → env.mp_payment (handle_payment_webhook env input w).1.tick input.mp_order_id ≡ ok p
    → SameBooks
        (handle_payment_webhook env input w).1
        (handle_payment_webhook env input (handle_payment_webhook env input w).1).1
unfolding Again
handle_payment_webhook-once env input w p out answer h again =
    let id = referenced_order p input in
    let named = named_order env input w p answer h in
    let first = webhook_ran env input w p answer named in
    let after_first = (handle_payment_webhook env input w).1 in
    let second = webhook_ran env input after_first p again named in
    let same : SameBooks (asked env input after_first)
        (settle_payment env id p (asked env input after_first)).1 =
      settle_payment-Again env id p (asked env input after_first) (asked env input w) out
        (ap (λ r. r.0) (sym first) ∙ h) (ap (λ r. r.1.orders) first) in
    record {
      orders = ap (λ r. r.1.orders) second ∙ same.orders;
      histories = ap (λ r. r.1.histories) second ∙ same.histories;
      requests = ap (λ r. r.1.requests) second ∙ same.requests;
      emails = ap (λ r. r.1.emails) second ∙ same.emails;
    }
