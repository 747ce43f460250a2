-- ===== src/UseCases/Authorization.antt =====
-- respond_to_authorization.go: the customer's answer to the estimate.
use oficina_tech_ms_order_se.Shared.{Bool, Option, String, if◌then◌else◌, not, str_eq, ◌&&◌}
use oficina_tech_ms_order_se.Domain.Errors.{
  forbidden_access, invalid_status_transition, service_order_deleted,
}
use oficina_tech_ms_order_se.Domain.Order.{ServiceOrder, order_is_deleted}
use oficina_tech_ms_order_se.Domain.Status.{
  OrderStatus, authorization_denied, authorized, pending_authorization, status_eq,
}
use oficina_tech_ms_order_se.Domain.Stock.{
  StockOperation, determine_inventory_operation, is_no_operation,
}
use oficina_tech_ms_order_se.Platform.Monad.{◌>>=◌, ◌>>◌, Action, raise_if}
use oficina_tech_ms_order_se.Platform.Ports.{Env, find_by_id}
use oficina_tech_ms_order_se.Saga.Values.{put_present}
use oficina_tech_ms_order_se.UseCases.Steps.{StepOutput, step_by_saga, step_locally}

-- `RespondToAuthorizationInput`.
pub record AuthorizationInput : Type 0 where
  pub service_order_id : String
  pub approved : Bool
  pub observation : Option String
  pub caller_id : String
  pub caller_role : String

abbrev pub is_stranger : AuthorizationInput → ServiceOrder → Bool
is_stranger input order =
    str_eq input.caller_role "CUSTOMER" && not (str_eq order.customer_id input.caller_id)

abbrev pub answered_status : Bool → OrderStatus
answered_status approved = if approved then authorized else authorization_denied

unfoldable pub answer_to :
    Env → ServiceOrder → StockOperation → OrderStatus → Option String → Action StepOutput
answer_to env order op target observation =
    if not (is_no_operation op)
    then step_by_saga env order.id op target observation
    else step_locally env order target (put_present "observation" observation)

unfoldable pub respond_to_authorization : Env → AuthorizationInput → Action StepOutput
respond_to_authorization env input = do
  order ← find_by_id env input.service_order_id
  raise_if (is_stranger input order) forbidden_access
  raise_if (order_is_deleted order) service_order_deleted
  raise_if (not (status_eq order.status pending_authorization)) invalid_status_transition
  let target = answered_status input.approved
  answer_to env order (determine_inventory_operation order.status target) target input.observation
