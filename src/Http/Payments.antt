-- ===== src/Http/Payments.antt =====
-- payment_handler.go and webhook_handler.go of billing/infra/http/handlers. The body of a
-- notification is decoded outside, the id in it made a text; whether its signature is valid is what
-- `SignatureValidator.Validate` says.
use oficina_tech_ms_order_se.Shared.{
  Bool, List, Option, String, [], false, if◌then◌else◌, is_empty, none, not, some, str_eq, true, ℕ,
  ◌&&◌, ◌||◌, ◌∷◌,
}
use oficina_tech_ms_order_se.Billing.Payments.{get_payment_status}
use oficina_tech_ms_order_se.Billing.Retry.{retry_payment}
use oficina_tech_ms_order_se.Billing.Webhook.{WebhookInput, handle_payment_webhook}
use oficina_tech_ms_order_se.Domain.Errors.{Error, Result, err, ok, payment_url_not_available}
use oficina_tech_ms_order_se.Http.Handlers.{ErrorDetail, bad_id}
use oficina_tech_ms_order_se.Http.Mapping.{ErrorMapping, map_domain_error, message, return_if}
use oficina_tech_ms_order_se.Platform.Monad.{Action, World}
use oficina_tech_ms_order_se.Platform.Ports.{Env}

pub data PaymentPayload : Type 0 where
  -- `payment_url`, `mp_order_id` and `status`.
  status_payload : String → String → String → PaymentPayload
  -- `payment_url` and `mp_order_id`.
  retry_payload : String → String → PaymentPayload
  -- `processed`, `status` and `order_id`.
  webhook_payload : Bool → String → String → PaymentPayload

pub record PaymentReply : Type 0 where
  pub status : ℕ
  pub payload : Option PaymentPayload
  pub errors : List ErrorDetail

abbrev pub PaymentHandler : Type 0
PaymentHandler = World → PaymentReply × World

abbrev pub pay_success : ℕ → PaymentPayload → PaymentReply
pay_success status payload = record { status = status; payload = some payload; errors = [] }

abbrev pub pay_error : ℕ → String → String → PaymentReply
pay_error status code message =
    let detail : ErrorDetail = record { code = code; message = message } in
    record { status = status; payload = none; errors = detail ∷ [] }

abbrev pay_mapped : ErrorMapping → Error → PaymentReply
pay_mapped mapped failure = pay_error mapped.status_code mapped.code (message failure)

-- The mapping of each handler's errors, and its reply to an output.
abbrev pub pay_reply_to :
    {A : Type 0} → Result A → (Error → ErrorMapping) → (A → PaymentReply) → PaymentReply
pay_reply_to (err failure) mapping reply = pay_mapped (mapping failure) failure
pay_reply_to (ok output) mapping reply = reply output

unfoldable pub pay_with :
    {A : Type 0} → Action A → (Error → ErrorMapping) → (A → PaymentReply) → PaymentHandler
unfolding message
pay_with use_case mapping reply w = (pay_reply_to (use_case w).0 mapping reply, (use_case w).1)

abbrev pub is_url_missing : Error → Bool
is_url_missing payment_url_not_available = true
is_url_missing _ = false

-- `if err == payment.ErrPaymentURLNotAvailable`.
unfoldable pub map_payment_error : Error → ErrorMapping
unfolding return_if map_domain_error
map_payment_error failure =
    return_if (is_url_missing failure) "NOT_FOUND" 404 (map_domain_error failure)

unfoldable pub get_service_order_payment : (String → Bool) → Env → String → PaymentHandler
unfolding pay_with get_payment_status map_payment_error
get_service_order_payment is_uuid env id w =
    if is_uuid id
    then pay_with (get_payment_status env id) map_payment_error
        (λ output.
          pay_success 200 (status_payload output.payment_url output.order_id output.status))
        w
    else (pay_error 400 "INVALID_UUID" bad_id, w)

-- For a handler that was given the use case, as main.go does.
unfoldable pub retry_payment_handler : (String → Bool) → Env → String → PaymentHandler
unfolding pay_with retry_payment map_domain_error
retry_payment_handler is_uuid env id w =
    if is_uuid id
    then pay_with (retry_payment env id) map_domain_error
        (λ output. pay_success 202 (retry_payload output.payment_url output.mp_order_id)) w
    else (pay_error 400 "INVALID_UUID" bad_id, w)

-- A notification: the type, the reference and the id of the body, of the query `data.id` and `topic`,
-- and whether the signature in the headers is valid.
pub record Notification : Type 0 where
  pub kind : String
  pub reference : String
  pub body_id : String
  pub query_id : String
  pub topic : String
  pub is_signed : Bool

abbrev pub payment_of : Notification → String
payment_of n = if is_empty n.query_id then n.body_id else n.query_id

-- Kinds that are not of a payment, and the old format.
abbrev pub is_ignored : Notification → Bool
is_ignored n =
    (not (is_empty n.kind) && not (str_eq n.kind "order") && not (str_eq n.kind "payment"))
    || not (is_empty n.topic)

abbrev pub webhook_input : Notification → WebhookInput
webhook_input n = record { mp_order_id = payment_of n; reference = n.reference }

abbrev malformed : PaymentReply
malformed = pay_error 400 "INVALID_REQUEST" "webhook do Mercado Pago malformado"

-- `if err := Validate(…); err != nil { log.Warn(…) }`: the handler goes on in both branches.
abbrev pub warn_unless : Bool → PaymentHandler → PaymentHandler
warn_unless true next = next
warn_unless false next = next

unfoldable pub handle_webhook : Env → Option Notification → PaymentHandler
unfolding pay_with handle_payment_webhook map_domain_error
handle_webhook env none w = (malformed, w)
handle_webhook env (some n) w =
    if is_ignored n
    then (record { status = 200; payload = none; errors = [] }, w)
    else if is_empty (payment_of n)
    then (malformed, w)
    else warn_unless n.is_signed
        (pay_with (handle_payment_webhook env (webhook_input n)) map_domain_error (λ output.
          pay_success 200 (webhook_payload output.processed output.status output.order_id)))
        w

-- The routes of billing/infra/http/routes.go, less the page after a payment.
pub data PaymentRequest : Type 0 where
  paying : String → PaymentRequest
  retrying : String → PaymentRequest
  -- `none` where the body cannot be decoded.
  delivering : Option Notification → PaymentRequest

unfoldable pub handle_payment : (String → Bool) → Env → PaymentRequest → PaymentHandler
unfolding get_service_order_payment retry_payment_handler handle_webhook
handle_payment is_uuid env (paying id) = get_service_order_payment is_uuid env id
handle_payment is_uuid env (retrying id) = retry_payment_handler is_uuid env id
handle_payment is_uuid env (delivering n) = handle_webhook env n
