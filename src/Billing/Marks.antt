-- ===== src/Billing/Marks.antt =====
-- The three changes that a notification makes, and why each happens once.
use mathlib.Core.Path.{subst}
use oficina_tech_ms_order_se.Shared.{
  Bool, List, Option, String, ap, arith, eq_iff, false, if◌then◌else◌, none, not, refl, some, sym,
  true, ◌||◌, ◌∙◌, ◌≡◌,
}
use oficina_tech_ms_order_se.Billing.Effects.{
  Quiet-save_payment_history, Quiet-send_status_update_email,
}
use oficina_tech_ms_order_se.Billing.Webhook.{
  OrderChange, WebhookOutput, apply_change, mark, record_payment, save_payment_history,
  webhook_output,
}
use oficina_tech_ms_order_se.Domain.Errors.{Error, Result, ok}
use oficina_tech_ms_order_se.Domain.Item.{Clock}
use oficina_tech_ms_order_se.Domain.Order.{
  ServiceOrder, cancel_after_refund, confirm_payment, reject_payment, update_status,
}
use oficina_tech_ms_order_se.Domain.Status.{
  OrderStatus, canceled, paid, payment_rejected, status_eq,
}
use oficina_tech_ms_order_se.Domain.Status.Names.{status_eq_refl}
use oficina_tech_ms_order_se.Platform.Monad.{◌>>=◌, Action, World, lift, pure}
use oficina_tech_ms_order_se.Platform.Outcomes.{>>=-ok, find_by_id-ok, if_ends, save_order-ok}
use oficina_tech_ms_order_se.Platform.Ports.{
  Env, find_by_id, find_outcome, read_clock, save_order, step,
}
use oficina_tech_ms_order_se.Platform.Table.{find_row, find_row-save_row, find_row_id, save_row}
use oficina_tech_ms_order_se.Saga.Recording.{send_status_update_email}

-- The test of the early returns of the three methods.
abbrev pub passed : OrderStatus → OrderStatus → ServiceOrder → Bool
passed done from s = status_eq s.status done || not (status_eq s.status from)

-- No order of that id can make the change any more.
unfoldable pub Passed : OrderStatus → OrderStatus → String → List ServiceOrder → Type 0
Passed done from id o = (s : ServiceOrder) → find_row id o ≡ some s → passed done from s ≡ true

-- A change that leads to a status and keeps the id.
unfoldable pub IsTo : OrderStatus → OrderChange → Type 0
IsTo done f =
    (s t : ServiceOrder) (now : Clock) → f s now ≡ ok t → (t.status ≡ done) × (t.id ≡ s.id)

pub confirm_payment-IsTo : (p : String) → IsTo paid (λ s now. confirm_payment s p now)
unfolding confirm_payment update_status IsTo
confirm_payment-IsTo p s t now h = ground arith

pub reject_payment-IsTo : IsTo payment_rejected reject_payment
unfolding reject_payment update_status IsTo
reject_payment-IsTo s t now h = ground arith

pub cancel_after_refund-IsTo : IsTo canceled cancel_after_refund
unfolding cancel_after_refund update_status IsTo
cancel_after_refund-IsTo s t now h = ground arith

pub record_payment-ok :
    (env : Env) (s : ServiceOrder) (a : OrderStatus) (p st d : String) (w : World)
    {out : WebhookOutput}
    → (record_payment env s a p st d w).0 ≡ ok out
    → (record_payment env s a p st d w).1.orders ≡ save_row s w.orders
unfolding record_payment
record_payment-ok env s a p st d w h =
    let (_, _, h1, e1) = >>=-ok (save_payment_history env s a s.status p st d) _ w h in
    let (_, h2, h3, e2) =
      >>=-ok (save_order env s) _ (save_payment_history env s a s.status p st d w).1 h1 in
    let (_, _, _, e3) = >>=-ok (send_status_update_email env s a s.status) _ _ h3 in
    ap (λ v. v.orders) (e1 ∙ e2 ∙ e3)
    ∙ (Quiet-send_status_update_email env s a s.status).run _
    ∙ save_order-ok env s _ h2
    ∙ ap (save_row s) ((Quiet-save_payment_history env s a s.status p st d).run w)

Passed-save_row :
    (done from : OrderStatus) (id : String) (t : ServiceOrder) (o p : List ServiceOrder)
    → p ≡ save_row t o
    → t.id ≡ id
    → t.status ≡ done
    → Passed done from id p
unfolding Passed
Passed-save_row done from id t o p e same at s row =
    let stored : some t ≡ some s =
      sym (rw ((eq_iff t.id id).1 same) at (find_row-save_row id t o))
      ∙ sym (ap (find_row id) e)
      ∙ row in
    let both : t ≡ s = cc in
    let reached : s.status ≡ done = ap (λ u. u.status) (sym both) ∙ at in
    rw (reached, status_eq_refl done) refl

apply_change-ok :
    (env : Env) (s : ServiceOrder) (f : OrderChange) {done : OrderStatus} (p st d : String)
    (w : World) {out : WebhookOutput}
    → IsTo done f
    → (apply_change env s f p st d w).0 ≡ ok out
    → (t : ServiceOrder) × (t.status ≡ done)
      × (t.id ≡ s.id)
      × ((apply_change env s f p st d w).1.orders ≡ save_row t w.orders)
unfolding apply_change IsTo
apply_change-ok env s f p st d w is_to h =
    let (now, _, h1, e1) = >>=-ok (read_clock env) _ w h in
    let (t, changed, h2, e2) = >>=-ok (lift (f s now)) _ (step w) h1 in
    let (at, same) = is_to s t now changed in
    (
      t,
      at,
      same,
      ap (λ v. v.orders) (e1 ∙ e2) ∙ record_payment-ok env t s.status p st d (step w) h2,
    )

pub mark-Passed :
    (env : Env) (done from : OrderStatus) (f : OrderChange) (id p st d : String) (w : World)
    {out : WebhookOutput}
    → IsTo done f
    → (mark env done from f id p st d w).0 ≡ ok out
    → Passed done from id (mark env done from f id p st d w).1.orders
unfolding mark Passed
mark-Passed env done from f id p st d w is_to h =
    let (s, r, h1, e1) = >>=-ok (find_by_id env id) _ w h in
    let row = find_by_id-ok env id w r in
    subst (λ v. Passed done from id v.orders) (sym e1)
      (if_ends (Passed done from id) (passed done from s) (pure (webhook_output false s))
        (apply_change env s f p st d) (step w)
        (λ over _ t found_t.
          let same : some s ≡ some t = sym row ∙ found_t in
          let both : s ≡ t = cc in ap (passed done from) (sym both) ∙ over)
        (λ _ fine.
          let (t, at, same, e) = apply_change-ok env s f p st d (step w) is_to fine in
          Passed-save_row done from id t w.orders _ e (same ∙ find_row_id id w.orders row) at)
        h1)

abbrev marking :
    Result ServiceOrder
    → OrderStatus
    → OrderStatus
    → (ServiceOrder → Action WebhookOutput)
    → Action WebhookOutput
marking r done from m =
    lift r >>= λ s. if passed done from s then pure (webhook_output false s) else m s

marking-Passed :
    (failure : Option Error) (row : Option ServiceOrder) (done from : OrderStatus)
    (m : ServiceOrder → Action WebhookOutput) (v : World)
    → ((s : ServiceOrder) → row ≡ some s → passed done from s ≡ true)
    → (marking (find_outcome failure row) done from m v).1 ≡ v
unfolding ◌>>=◌
marking-Passed (some e) row done from m v over = refl
marking-Passed none none done from m v over = refl
marking-Passed none (some s) done from m v over = rw (over s refl) refl

pub mark_stale :
    (env : Env) (done from : OrderStatus) (f : OrderChange) (id p st d : String) (w : World)
    → Passed done from id w.orders
    → (mark env done from f id p st d w).1 ≡ step w
unfolding mark Passed ◌>>=◌
mark_stale env done from f id p st d w over =
    marking-Passed (env.find_error w.tick id) (find_row id w.orders) done from
      (λ s. apply_change env s f p st d) (step w) over
