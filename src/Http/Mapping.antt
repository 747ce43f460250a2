-- ===== src/Http/Mapping.antt =====
-- error_mapper.go, and the messages of the errors in errors.go.
use oficina_tech_ms_order_se.Shared.{Bool, List, String, [], false, str_eq, ℕ, ◌||◌, ◌∷◌, true}
use oficina_tech_ms_order_se.Domain.Errors.{
  Error, awaiting_without_target, cannot_infer_operation, cannot_modify_closed_order,
  cannot_modify_items_after_pending, external, forbidden_access, invalid_customer_id,
  invalid_history_id, invalid_item_id, invalid_item_name, invalid_item_type, invalid_payment_id,
  invalid_payment_preference, invalid_payment_url, invalid_quantity, invalid_reference_id,
  invalid_saga_id, invalid_service_order_id, invalid_status, invalid_status_transition,
  invalid_unit_price, invalid_vehicle_id, item_not_found, malformed_webhook, no_next_status,
  payment_url_not_available, saga_already_in_progress, service_order_deleted,
  service_order_not_found, unsupported_saga_operation, vehicle_does_not_belong_to_customer,
}
use oficina_tech_ms_order_se.Domain.Status.{status_code}
use oficina_tech_ms_order_se.Http.Keywords.{contains, contains_lower}

-- `err.Error()`. The errors of the saga that print an id or a status are written without it.
unfoldable pub message : Error → String
message invalid_service_order_id = "ID da ordem de serviço inválido"
message invalid_customer_id = "ID do cliente inválido"
message invalid_vehicle_id = "ID do veículo inválido"
message vehicle_does_not_belong_to_customer = "veículo não pertence ao cliente da ordem de serviço"
message invalid_status = "status inválido"
message invalid_status_transition = "transição de status inválida"
message service_order_not_found = "ordem de serviço não encontrada"
message service_order_deleted = "ordem de serviço foi deletada"
message no_next_status = "não há próximo status disponível"
message invalid_payment_preference = "preferência de pagamento inválida"
message invalid_payment_id = "ID de pagamento inválido"
message invalid_payment_url = "URL de pagamento inválida"
message invalid_item_id = "ID do item inválido"
message invalid_item_type = "tipo de item inválido"
message invalid_reference_id = "ID de referência inválido"
message invalid_item_name = "nome do item inválido"
message invalid_quantity = "quantidade deve ser maior que zero"
message invalid_unit_price = "preço unitário deve ser maior que zero"
message item_not_found = "item não encontrado na ordem"
message cannot_modify_closed_order = "não é possível modificar ordem fechada"
message cannot_modify_items_after_pending =
    "não é possível modificar itens após status PENDING_AUTHORIZATION"
message invalid_history_id = "ID de histórico inválido"
message forbidden_access = "acesso não autorizado a esta ordem de serviço"
message invalid_saga_id = "saga_id inválido"
message saga_already_in_progress = "já existe saga em andamento para esta ordem de serviço"
message unsupported_saga_operation = "unsupported saga operation"
message awaiting_without_target = "order awaiting inventory without target status"
message cannot_infer_operation = "cannot infer inventory operation for target"
message malformed_webhook = "webhook do Mercado Pago malformado"
message payment_url_not_available = "URL de pagamento não encontrada"
message (external words) = words

pub record ErrorMapping : Type 0 where
  pub code : String
  pub status_code : ℕ

-- `if … { return ErrorMapping{code, status} }`, and the rest of the function.
unfoldable pub return_if : Bool → String → ℕ → ErrorMapping → ErrorMapping
return_if true code status_code rest = record { code = code; status_code = status_code }
return_if false code status_code rest = rest

abbrev pub among : List String → String → Bool
among [] wanted = false
among (known ∷ rest) wanted = str_eq wanted known || among rest wanted

abbrev has_keyword : List String → String → Bool
has_keyword [] wanted = false
has_keyword (keyword ∷ rest) wanted = contains_lower wanted keyword || has_keyword rest wanted

abbrev not_found_messages : List String
not_found_messages =
    "customer not found" ∷ "vehicle not found" ∷ "service not found" ∷ "product not found"
    ∷ "user not found" ∷ "ordem de serviço não encontrada" ∷ "produto não encontrado"
    ∷ "serviço não encontrado" ∷ "item não encontrado na ordem"
    ∷ "inventário do produto não encontrado" ∷ "ID do cliente inválido" ∷ "ID do veículo inválido"
    ∷ []

abbrev validation_keywords : List String
validation_keywords =
    "invalid" ∷ "must be" ∷ "required" ∷ "format" ∷ "too short" ∷ "too long" ∷ "must have"
    ∷ "does not match" ∷ "cannot delete" ∷ []

-- The tests from "Validation errors" on.
unfoldable pub map_validation : String → ErrorMapping
unfolding contains_lower return_if
map_validation words =
    return_if (has_keyword validation_keywords words) "VALIDATION_FAILED" 400
      (record { code = "INTERNAL_ERROR"; status_code = 500 })

-- The tests after those for 404.
unfoldable pub map_refusal : String → ErrorMapping
unfolding contains map_validation return_if
map_refusal words =
    return_if (str_eq words "veículo não pertence ao cliente da ordem de serviço")
      "VALIDATION_FAILED" 400
      (return_if
        (str_eq words "não há próximo status disponível"
          || str_eq words "transição de status inválida")
        "VALIDATION_FAILED" 409
        (return_if (contains words "already exists") "DUPLICATE_RESOURCE" 409 (
          return_if (str_eq words "não é possível modificar ordem fechada") "VALIDATION_FAILED" 409
            (return_if
              (str_eq words "não é possível modificar itens após status PENDING_AUTHORIZATION")
              "VALIDATION_FAILED" 409
              (return_if
                (str_eq words "estoque reservado insuficiente"
                  || str_eq words "operação de estoque falhou")
                "VALIDATION_FAILED" 400
                (return_if
                  (str_eq words "invalid credentials" || str_eq words "credenciais inválidas")
                  "INVALID_CREDENTIALS" 401
                  (return_if (str_eq words "acesso não autorizado a esta ordem de serviço")
                    "UNAUTHORIZED" 403
                    (return_if (str_eq words "ordem de serviço não está aguardando autorização")
                      "VALIDATION_FAILED" 409 (map_validation words)))))))))

-- `MapDomainError` reads nothing of an error but its message.
unfoldable pub map_domain_error : Error → ErrorMapping
unfolding message map_refusal return_if
map_domain_error failure =
    let words = message failure in
    return_if (str_eq words "resource not found") "NOT_FOUND" 404 (
      return_if (str_eq words "unauthorized") "UNAUTHORIZED" 401 (
        return_if (str_eq words "saga de estoque ainda não implementada") "INTERNAL_ERROR" 501
          (return_if (among not_found_messages words) "NOT_FOUND" 404 (map_refusal words))))
