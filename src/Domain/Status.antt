-- ===== src/Domain/Status.antt =====
-- order_status.go: the statuses of a service order and the transitions between them.
pub mod Names
pub mod Flow
use oficina_tech_ms_order_se.Shared.{
  ℕ, Bool, true, false, not, ◌&&◌, ◌||◌, Option, none, some, List, [], ◌∷◌, String, str_eq, ◌==◌,
  if◌then◌else◌,
}
use oficina_tech_ms_order_se.Domain.Errors.{Result, ok, err, invalid_status, no_next_status}

-- `OrderStatus` is a string; `unknown` is any text that is not one of the twelve constants.
pub data OrderStatus : Type 0 where
  received diagnosing pending_authorization authorized in_progress completed : OrderStatus
  awaiting_payment payment_rejected paid delivered canceled authorization_denied : OrderStatus
  unknown : String → OrderStatus

abbrev pub status_code : OrderStatus → ℕ
status_code received = 0
status_code diagnosing = 1
status_code pending_authorization = 2
status_code authorized = 3
status_code in_progress = 4
status_code completed = 5
status_code awaiting_payment = 6
status_code payment_rejected = 7
status_code paid = 8
status_code delivered = 9
status_code canceled = 10
status_code authorization_denied = 11
status_code (unknown _) = 12

-- `==` on `OrderStatus`.
abbrev pub status_eq : OrderStatus → OrderStatus → Bool
status_eq (unknown s) (unknown t) = str_eq s t
status_eq a b = status_code a == status_code b

unfoldable pub to_string : OrderStatus → String
to_string received = "RECEIVED"
to_string diagnosing = "DIAGNOSING"
to_string pending_authorization = "PENDING_AUTHORIZATION"
to_string authorized = "AUTHORIZED"
to_string in_progress = "IN_PROGRESS"
to_string completed = "COMPLETED"
to_string awaiting_payment = "AWAITING_PAYMENT"
to_string payment_rejected = "PAYMENT_REJECTED"
to_string paid = "PAID"
to_string delivered = "DELIVERED"
to_string canceled = "CANCELED"
to_string authorization_denied = "AUTHORIZATION_DENIED"
to_string (unknown s) = s

abbrev pub constants : List OrderStatus
constants =
    received ∷ diagnosing ∷ pending_authorization ∷ authorized ∷ in_progress ∷ completed
    ∷ awaiting_payment ∷ payment_rejected ∷ paid ∷ delivered ∷ canceled ∷ authorization_denied ∷ []

-- The conversion `OrderStatus(value)`: the constant that is spelled so, if there is one.
unfoldable pub of_spelling : List OrderStatus → String → OrderStatus
of_spelling [] value = unknown value
of_spelling (s ∷ rest) value =
    let other = of_spelling rest value in if str_eq (to_string s) value then s else other

unfoldable pub of_string : String → OrderStatus
unfolding of_spelling to_string
of_string value = of_spelling constants value

abbrev pub is_valid : OrderStatus → Bool
is_valid (unknown _) = false
is_valid _ = true

unfoldable pub new_order_status : String → Result OrderStatus
new_order_status value =
    let status = of_string value in if is_valid status then ok status else err invalid_status

-- The map `validTransitions`; `none` is a status that is no key of it.
abbrev valid_transitions : OrderStatus → Option (List OrderStatus)
valid_transitions received = some (diagnosing ∷ [])
valid_transitions diagnosing = some (pending_authorization ∷ [])
valid_transitions pending_authorization = some (authorized ∷ [])
valid_transitions authorized = some (in_progress ∷ [])
valid_transitions in_progress = some (completed ∷ [])
valid_transitions completed = some (awaiting_payment ∷ [])
valid_transitions awaiting_payment = some (paid ∷ payment_rejected ∷ [])
valid_transitions payment_rejected = some (awaiting_payment ∷ [])
valid_transitions paid = some (delivered ∷ [])
valid_transitions delivered = some []
valid_transitions _ = none

-- The loop over `allowedTransitions`.
abbrev allows : List OrderStatus → OrderStatus → Bool
allows [] new_status = false
allows (allowed ∷ rest) new_status = status_eq allowed new_status || allows rest new_status

unfoldable pub can_transition_to : OrderStatus → OrderStatus → Bool
can_transition_to s new_status =
    if status_eq new_status canceled
    then not (status_eq s delivered)
      && not (status_eq s canceled)
      && not (status_eq s authorization_denied)
    else if status_eq s delivered || status_eq s canceled || status_eq s authorization_denied
    then false
    else if status_eq new_status authorization_denied
    then status_eq s pending_authorization
    else elim (valid_transitions s) [ none ↦ false | some allowed ↦ allows allowed new_status ]

unfoldable pub next_status : OrderStatus → Result OrderStatus
next_status received = ok diagnosing
next_status diagnosing = ok pending_authorization
next_status pending_authorization = ok authorized
next_status authorized = ok in_progress
next_status in_progress = ok completed
next_status completed = ok awaiting_payment
next_status awaiting_payment = ok paid
next_status paid = ok delivered
next_status delivered = err no_next_status
next_status canceled = err no_next_status
next_status authorization_denied = err no_next_status
next_status payment_rejected = err no_next_status
next_status (unknown _) = err invalid_status
