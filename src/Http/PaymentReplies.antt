-- ===== src/Http/PaymentReplies.antt =====
-- payment_handler.go and webhook_handler.go: what a reply says of the use case.
use mathlib.Core.Path.{subst}
use oficina_tech_ms_order_se.Shared.{
  Bool, [], arith, false, if◌then◌else◌, inl, inr, is_empty, length, none, refl, some, true, ℕ, ◌≡◌,
  ◌≤◌, ◌⊎◌, String, eq_iff, ◌↔◌, ◌≢◌, Bool-cases, ap, ◌∙◌,
}
use oficina_tech_ms_order_se.Billing.Once.{asked}
use oficina_tech_ms_order_se.Billing.Payments.{get_payment_status}
use oficina_tech_ms_order_se.Billing.Retry.{retry_payment}
use oficina_tech_ms_order_se.Billing.Webhook.{handle_payment_webhook}
use oficina_tech_ms_order_se.Domain.Errors.{Error, Result, err, ok}
use oficina_tech_ms_order_se.Http.Failures.{Fails, map_domain_error-Fails, return_if-Fails}
use oficina_tech_ms_order_se.Http.Handlers.{bad_id}
use oficina_tech_ms_order_se.Http.Mapping.{ErrorMapping, map_domain_error}
use oficina_tech_ms_order_se.Http.Payments.{
  Notification, PaymentPayload, PaymentReply, handle_webhook, is_ignored, pay_reply_to, pay_success,
  pay_with, payment_of, PaymentRequest, get_service_order_payment, handle_payment, is_url_missing,
  map_payment_error, delivering, pay_error, paying, retry_payload, retry_payment_handler, retrying,
  status_payload, warn_unless, PaymentHandler, webhook_input, webhook_payload,
}
use oficina_tech_ms_order_se.Platform.Monad.{Action, World}
use oficina_tech_ms_order_se.Platform.Ports.{Env}

abbrev IsPaid : ℕ → PaymentReply → Type 0
IsPaid status reply =
    (reply.status ≡ status)
    × ((p : PaymentPayload) × (reply.payload ≡ some p))
    × (reply.errors ≡ [])

abbrev IsUnpaid : ℕ → PaymentReply → Type 0
IsUnpaid status reply =
    (reply.status ≡ status) × (400 ≤ status) × (reply.payload ≡ none) × (length reply.errors ≡ 1)

-- A use case has run, with its state: the status is the one of a success, or that of its error.
abbrev Pays :
    {A : Type 0} → Action A → (Error → ErrorMapping) → ℕ → World → PaymentReply → World → Type 0
Pays {A} m mapping status w reply final =
    (final ≡ (m w).1)
    × ((((output : A) × ((m w).0 ≡ ok output)) × IsPaid status reply)
        ⊎ ((failure : Error) × ((m w).0 ≡ err failure)
            × IsUnpaid (mapping failure).status_code reply))

abbrev IsTurnedDown : World → PaymentReply → World → Type 0
IsTurnedDown w reply final = (final ≡ w) × IsUnpaid 400 reply

-- The format that Mercado Pago no longer uses, and kinds of notifications that are not of payments.
abbrev IsOther : Notification → Type 0
IsOther n = (n.topic ≢ "") ⊎ ((n.kind ≢ "") × (n.kind ≢ "order") × (n.kind ≢ "payment"))

-- The id of the payment: that of the query, or else that of the body.
abbrev pub Names : Notification → String → Type 0
Names n id = (id ≢ "") × ((n.query_id ≡ id) ⊎ ((n.query_id ≡ "") × (n.body_id ≡ id)))

-- What the handler does with a notification, whether its signature is valid or not.
pub record IsHandled (env : Env) (n : Notification) (w : World) (reply : PaymentReply)
    (final : World) : Type 0 where
  pub other :
      IsOther n → (final ≡ w) × (reply.status ≡ 200) × (reply.payload ≡ none) × (reply.errors ≡ [])
  pub nameless : ¬ (IsOther n) → n.query_id ≡ "" → n.body_id ≡ "" → IsTurnedDown w reply final
  pub named :
      (id : String)
      → ¬ (IsOther n)
      → Names n id
      → Pays
          (handle_payment_webhook env (record { mp_order_id = id; reference = n.reference }))
          map_domain_error
          200
          w
          reply
          final

-- A request for the payment of one order.
abbrev IsAsked :
    {A : Type 0}
    → Bool
    → Action A
    → (Error → ErrorMapping)
    → ℕ
    → World
    → PaymentReply
    → World
    → Type 0
IsAsked true m mapping status w reply final = Pays m mapping status w reply final
IsAsked false m mapping status w reply final = IsTurnedDown w reply final

abbrev pub IsAnsweredBy :
    (String → Bool) → Env → PaymentRequest → World → PaymentReply → World → Type 0
IsAnsweredBy is_uuid env (paying id) w =
    IsAsked (is_uuid id) (get_payment_status env id) map_payment_error 200 w
IsAnsweredBy is_uuid env (retrying id) w =
    IsAsked (is_uuid id) (retry_payment env id) map_domain_error 202 w
IsAnsweredBy is_uuid env (delivering none) w = IsTurnedDown w
IsAnsweredBy is_uuid env (delivering (some n)) w = IsHandled env n w

module _ {A : Type 0} (mapping : Error → ErrorMapping) (fails : (e : Error) → Fails (mapping e))
    (status : ℕ) (payload : A → PaymentPayload) where
  paid :
      (m : Action A) (w : World) (r : Result A)
      → (m w).0 ≡ r
      → Pays m mapping status w
          (pay_reply_to r mapping (λ output. pay_success status (payload output)))
          (m w).1
  paid m w (ok output) e = (refl, inl ((output, e), (refl, (payload output, refl), refl)))
  paid m w (err failure) e = (refl, inr (failure, e, (refl, fails failure, refl, refl)))

is_ignored_iff : (n : Notification) → (is_ignored n ≡ true) ↔ IsOther n
is_ignored_iff n =
    ground
      (arith, eq_iff n.topic "", eq_iff n.kind "", eq_iff n.kind "order", eq_iff n.kind "payment")

payment_of-Names : (n : Notification) (id : String) → Names n id → payment_of n ≡ id
payment_of-Names n id (filled, inl asked) =
    let queried : is_empty n.query_id ≡ false = ground (arith, eq_iff n.query_id "", filled) in
    rw queried asked
payment_of-Names n id (filled, inr (unasked, sent)) = rw ((eq_iff n.query_id "").1 unasked) sent

payment_of_nameless :
    (n : Notification) → n.query_id ≡ "" → n.body_id ≡ "" → is_empty (payment_of n) ≡ true
payment_of_nameless n q b = rw ((eq_iff n.query_id "").1 q, (eq_iff n.body_id "").1 b) refl

warned : (signed : Bool) (next : PaymentHandler) (w : World) → warn_unless signed next w ≡ next w
warned true next w = refl
warned false next w = refl

is_ignored_off : (n : Notification) → ¬ (IsOther n) → is_ignored n ≡ false
is_ignored_off n own = elim (Bool-cases (is_ignored n)) [
  | inl on ↦ absurd (own ((is_ignored_iff n).0 on))
  | inr off ↦ off
]

filled_payment_of : (n : Notification) (id : String) → Names n id → is_empty (payment_of n) ≡ false
filled_payment_of n id names =
    let same = payment_of-Names n id names in
    ap is_empty same ∙ ground (arith, eq_iff id "", names.0)

handled :
    (env : Env) (n : Notification) (w : World)
    → is_ignored n ≡ false
    → is_empty (payment_of n) ≡ false
    → Pays
        (handle_payment_webhook env (webhook_input n))
        map_domain_error
        200
        w
        (handle_webhook env (some n) w).0
        (handle_webhook env (some n) w).1
unfolding handle_webhook pay_with
handled env n w heeded filled =
    rw (heeded, filled, warned n.is_signed _ w)
      (paid map_domain_error map_domain_error-Fails 200
        (λ output. webhook_payload output.processed output.status output.order_id)
        (handle_payment_webhook env (webhook_input n)) w _ refl)

webhook-IsHandled :
    (env : Env) (n : Notification) (w : World)
    → IsHandled env n w (handle_webhook env (some n) w).0 (handle_webhook env (some n) w).1
unfolding handle_webhook
webhook-IsHandled env n w = record {
  other = λ o. rw ((is_ignored_iff n).1 o) (refl, refl, refl, refl);
  nameless = λ own q b.
      rw (is_ignored_off n own, payment_of_nameless n q b) (refl, (refl, ground arith, refl, refl));
  named = λ id own names.
      subst
        (λ (p : String).
          Pays (handle_payment_webhook env (record { mp_order_id = p; reference = n.reference }))
            map_domain_error 200 w (handle_webhook env (some n) w).0
            (handle_webhook env (some n) w).1)
        (payment_of-Names n id names)
        (handled env n w (is_ignored_off n own) (filled_payment_of n id names));
}

by_id-IsAsked :
    {A : Type 0} (mapping : Error → ErrorMapping) (fails : (e : Error) → Fails (mapping e))
    (status : ℕ) (payload : A → PaymentPayload) (b : Bool) (m : Action A) (w : World)
    → let out : PaymentReply × World =
        if b
        then pay_with m mapping (λ output. pay_success status (payload output)) w
        else (pay_error 400 "INVALID_UUID" bad_id, w) in
      IsAsked b m mapping status w out.0 out.1
unfolding pay_with
by_id-IsAsked mapping fails status payload true m w = paid mapping fails status payload m w _ refl
by_id-IsAsked mapping fails status payload false m w = (refl, (refl, ground arith, refl, refl))

map_payment_error-Fails : (e : Error) → Fails (map_payment_error e)
unfolding map_payment_error
map_payment_error-Fails e =
    return_if-Fails (is_url_missing e) "NOT_FOUND" 404 (map_domain_error e) (ground arith)
      (map_domain_error-Fails e)

-- A notification of another kind than a payment or an order, or in the old format, gets 200 and
-- changes nothing; any other that cannot be decoded or lacks the id of a payment, and a request with
-- an id that is no UUID, get 400 and change nothing. The others, notifications with an invalid
-- signature among them, are answered after their use case has run, with its state: with data exactly
-- where it succeeded, and otherwise with one error and the status, 400 or above, of the error that it
-- failed with.
pub handle_payment-IsAnsweredBy :
    (is_uuid : String → Bool) (env : Env) (request : PaymentRequest) (w : World)
    → IsAnsweredBy is_uuid env request w
        (handle_payment is_uuid env request w).0
        (handle_payment is_uuid env request w).1
unfolding handle_payment get_service_order_payment retry_payment_handler handle_webhook
handle_payment-IsAnsweredBy is_uuid env (paying id) w =
    by_id-IsAsked map_payment_error map_payment_error-Fails 200
      (λ output. status_payload output.payment_url output.order_id output.status) (is_uuid id)
      (get_payment_status env id) w
handle_payment-IsAnsweredBy is_uuid env (retrying id) w =
    by_id-IsAsked map_domain_error map_domain_error-Fails 202
      (λ output. retry_payload output.payment_url output.mp_order_id) (is_uuid id)
      (retry_payment env id) w
handle_payment-IsAnsweredBy is_uuid env (delivering none) w =
    (refl, (refl, ground arith, refl, refl))
handle_payment-IsAnsweredBy is_uuid env (delivering (some n)) w = webhook-IsHandled env n w
