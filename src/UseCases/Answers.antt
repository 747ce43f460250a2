-- ===== src/UseCases/Answers.antt =====
-- Who may answer an estimate and when, and what an approval leaves.
use oficina_tech_ms_order_se.Shared.{
  Bool, Option, String, ap, arith, false, none, not, refl, some, true, ◌∙◌, ◌≡◌, if◌then◌else◌, sym,
}
use oficina_tech_ms_order_se.Billing.Effects.{Quiet-send_status_update_email}
use oficina_tech_ms_order_se.Domain.Errors.{
  Error, fail_if, forbidden_access, invalid_status_transition, ok, service_order_deleted,
}
use oficina_tech_ms_order_se.Domain.History.{Metadata, new_history}
use oficina_tech_ms_order_se.Domain.Item.{Clock}
use oficina_tech_ms_order_se.Domain.Order.{ServiceOrder, order_is_deleted, update_status}
use oficina_tech_ms_order_se.Domain.Status.{
  OrderStatus, pending_authorization, status_eq, authorized,
}
use oficina_tech_ms_order_se.Domain.Status.Names.{status_eq-eq}
use oficina_tech_ms_order_se.Domain.Stock.{
  determine_inventory_operation, is_no_operation, no_operation,
}
use oficina_tech_ms_order_se.Platform.Monad.{World, lift, raise_if, Action}
use oficina_tech_ms_order_se.Platform.Outcomes.{>>=-ok, find_by_id-ok, save_order-ok}
use oficina_tech_ms_order_se.Platform.Ports.{
  Env, find_by_id, read_clock, save_history_record, save_order, step,
}
use oficina_tech_ms_order_se.Platform.Rules.{Quiet-save_history_record}
use oficina_tech_ms_order_se.Platform.Table.{find_row, save_row}
use oficina_tech_ms_order_se.Saga.Recording.{send_status_update_email}
use oficina_tech_ms_order_se.Saga.Values.{put_present}
use oficina_tech_ms_order_se.UseCases.Authorization.{
  AuthorizationInput, answer_to, answered_status, is_stranger, respond_to_authorization,
}
use oficina_tech_ms_order_se.UseCases.Steps.{StepOutput, record_step, step_locally, step_by_saga}

record_step-ok :
    (env : Env) (s : ServiceOrder) (a : OrderStatus) (m : Metadata) (u : Option String) (w : World)
    {out : StepOutput}
    → (record_step env s a m u w).0 ≡ ok out
    → (record_step env s a m u w).1.orders ≡ save_row s w.orders
unfolding record_step
record_step-ok env s a m u w h =
    let (now, _, h1, e1) = >>=-ok (read_clock env) _ w h in
    let (history, _, h2, e2) = >>=-ok (lift (new_history s.id m s.status (now 0))) _ (step w) h1 in
    let (_, _, h3, e3) = >>=-ok (save_history_record env history) _ (step w) h2 in
    let (_, h4, h5, e4) = >>=-ok (save_order env s) _ _ h3 in
    let (_, _, _, e5) = >>=-ok (send_status_update_email env s a s.status) _ _ h5 in
    ap (λ v. v.orders) (e1 ∙ e2 ∙ e3 ∙ e4 ∙ e5)
    ∙ (Quiet-send_status_update_email env s a s.status).run _
    ∙ save_order-ok env s _ h4
    ∙ ap (save_row s) ((Quiet-save_history_record env history).run (step w))

pub update_status_ok :
    (s : ServiceOrder) (target : OrderStatus) (now : Clock) {t : ServiceOrder}
    → update_status s target now ≡ ok t
    → (t.status ≡ target) × (t.id ≡ s.id)
unfolding update_status
update_status_ok s target now h = ground arith

step_locally-ok :
    (env : Env) (s : ServiceOrder) (target : OrderStatus) (f : Metadata → Metadata) (w : World)
    {out : StepOutput}
    → (step_locally env s target f w).0 ≡ ok out
    → (t : ServiceOrder) × (t.status ≡ target)
      × (t.id ≡ s.id)
      × ((step_locally env s target f w).1.orders ≡ save_row t w.orders)
unfolding step_locally
step_locally-ok env s target f w h =
    let (now, _, h1, e1) = >>=-ok (read_clock env) _ w h in
    let (t, moved, h2, e2) = >>=-ok (lift (update_status s target now)) _ (step w) h1 in
    let (at, same) = update_status_ok s target now moved in
    (t, at, same, ap (λ v. v.orders) (e1 ∙ e2) ∙ record_step-ok env t s.status _ none (step w) h2)

-- The three tests that an answer has passed.
pub record MayAnswer (input : AuthorizationInput) (s : ServiceOrder) : Type 0 where
  pub owner : is_stranger input s ≡ false
  pub kept : order_is_deleted s ≡ false
  pub pending : s.status ≡ pending_authorization

fail_if_ok : (b : Bool) (e : Error) {u : Unit {0}} → fail_if b e ≡ ok u → b ≡ false
fail_if_ok true e h = cc
fail_if_ok false e h = refl

answered_ok :
    (env : Env) (input : AuthorizationInput) (w : World) {out : StepOutput}
    → (respond_to_authorization env input w).0 ≡ ok out
    → (s : ServiceOrder) × (find_row input.service_order_id w.orders ≡ some s)
      × MayAnswer input s
      × ((answer_to env s
            (determine_inventory_operation s.status (answered_status input.approved))
            (answered_status input.approved)
            input.observation
            (step w)).0
          ≡ ok out)
      × ((respond_to_authorization env input w).1
          ≡ (answer_to env s
              (determine_inventory_operation s.status (answered_status input.approved))
              (answered_status input.approved)
              input.observation
              (step w)).1)
unfolding respond_to_authorization
answered_ok env input w h =
    let (s, r, h1, e1) = >>=-ok (find_by_id env input.service_order_id) _ w h in
    let row = find_by_id-ok env input.service_order_id w r in
    let (_, own, h2, e2) = >>=-ok (raise_if (is_stranger input s) forbidden_access) _ (step w) h1 in
    let (_, there, h3, e3) =
      >>=-ok (raise_if (order_is_deleted s) service_order_deleted) _ (step w) h2 in
    let (_, open_to, h4, e4) =
      >>=-ok (raise_if (not (status_eq s.status pending_authorization)) invalid_status_transition) _
        (step w) h3 in
    let unguarded = fail_if_ok _ _ open_to in
    (
      s,
      row,
      record {
        owner = fail_if_ok _ _ own;
        kept = fail_if_ok _ _ there;
        pending = ground (arith, unguarded, status_eq-eq s.status pending_authorization);
      },
      h4,
      e1 ∙ e2 ∙ e3 ∙ e4,
    )

approval_asks_nothing :
    determine_inventory_operation pending_authorization authorized ≡ no_operation
unfolding determine_inventory_operation
approval_asks_nothing = refl

-- An approval as `Execute` passes it on.
abbrev approval : Env → AuthorizationInput → OrderStatus → Bool → ServiceOrder → Action StepOutput
approval env input old approved s =
    answer_to env s (determine_inventory_operation old (answered_status approved))
      (answered_status approved) input.observation

approval_ran :
    (env : Env) (input : AuthorizationInput) (s : ServiceOrder)
    → s.status ≡ pending_authorization
    → input.approved ≡ true
    → approval env input s.status input.approved s
      ≡ step_locally env s authorized (put_present "observation" input.observation)
unfolding answer_to
approval_ran env input s pending agreed =
    ap (λ old. approval env input old input.approved s) pending
    ∙ ap (λ b. approval env input pending_authorization b s) agreed
    ∙ ap
        (λ op.
          if not (is_no_operation op)
          then step_by_saga env s.id op authorized input.observation
          else step_locally env s authorized (put_present "observation" input.observation))
        approval_asks_nothing

-- When an approval succeeds, the order was there, not deleted and pending authorization, the caller
-- was no other customer than its own, and it is stored with the status AUTHORIZED.
pub respond_to_authorization-answered_status :
    (env : Env) (input : AuthorizationInput) (w : World) (out : StepOutput)
    → input.approved ≡ true
    → (respond_to_authorization env input w).0 ≡ ok out
    → (s : ServiceOrder) × (find_row input.service_order_id w.orders ≡ some s)
      × MayAnswer input s
      × ((t : ServiceOrder) × (t.status ≡ authorized)
          × (t.id ≡ s.id)
          × ((respond_to_authorization env input w).1.orders ≡ save_row t w.orders))
respond_to_authorization-answered_status env input w out agreed h =
    let (s, row, may, h1, e1) = answered_ok env input w h in
    let ran = approval_ran env input s may.pending agreed in
    let (t, at, same, e2) =
      step_locally-ok env s authorized (put_present "observation" input.observation) (step w)
        (ap (λ m. (m (step w)).0) (sym ran) ∙ h1) in
    (s, row, may, (t, at, same, ap (λ v. v.orders) e1 ∙ ap (λ m. (m (step w)).1.orders) ran ∙ e2))
