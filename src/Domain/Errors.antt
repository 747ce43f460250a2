-- ===== src/Domain/Errors.antt =====
-- errors.go of the domain and of billing/domain/payment: the sentinel errors, and a result type for
-- Go's pair of a value and an `error`.
use oficina_tech_ms_order_se.Shared.{Bool, true, false, String, Option, none, some, ◌≡◌}

pub data Error : Type 0 where
  invalid_service_order_id invalid_customer_id invalid_vehicle_id : Error
  vehicle_does_not_belong_to_customer invalid_status invalid_status_transition : Error
  service_order_not_found service_order_deleted no_next_status : Error
  invalid_payment_preference invalid_payment_id invalid_payment_url : Error
  invalid_item_id invalid_item_type invalid_reference_id invalid_item_name : Error
  invalid_quantity invalid_unit_price item_not_found : Error
  cannot_modify_closed_order cannot_modify_items_after_pending : Error
  invalid_history_id forbidden_access : Error
  invalid_saga_id saga_already_in_progress : Error
  -- `fmt.Errorf("unsupported saga operation …")` and its like in the saga.
  unsupported_saga_operation awaiting_without_target cannot_infer_operation : Error
  malformed_webhook payment_url_not_available : Error
  -- An error that comes from outside: the database, the queue, another service.
  external : String → Error

pub data Result {ℓ} (A : Type ℓ) : Type ℓ where
  err : Error → Result A
  ok : A → Result A

abbrev pub is_ok {ℓ} : {A : Type ℓ} → Result A → Bool
is_ok (err _) = false
is_ok (ok _) = true

-- `if bad { return failure }`.
abbrev pub fail_if : Bool → Error → Result (Unit {0})
fail_if bad failure = elim bad [ true ↦ err failure | false ↦ ok tt ]

module _ {ℓ κ} {A : Type ℓ} {B : Type κ} where
  infixl 5 ◌>>=◌
  -- `if err != nil { return err }`, and the rest of the method.
  abbrev pub ◌>>=◌ : Result A → (A → Result B) → Result B
  r >>= rest = elim r [ err failure ↦ err failure | ok value ↦ rest value ]

infixl 5 ◌>>◌
-- The same, after a call that returns an error only.
abbrev pub ◌>>◌ {κ} : {B : Type κ} → Result (Unit {0}) → Result B → Result B
check >> rest = check >>= λ _. rest

-- The error of a call that returns nothing else.
abbrev pub of_error : Option Error → Result (Unit {0})
of_error none = ok tt
of_error (some e) = err e

pub ok_injective {ℓ} : {A : Type ℓ} {a b : A} → ok a ≡ ok b → a ≡ b
ok_injective h = cc
