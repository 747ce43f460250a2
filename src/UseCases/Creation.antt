-- ===== src/UseCases/Creation.antt =====
-- create_service_order.go: a new order, with its customer, vehicle and items checked first.
use oficina_tech_ms_order_se.Shared.{List, String, if◌then◌else◌, is_empty, not, str_eq}
use oficina_tech_ms_order_se.Domain.Errors.{vehicle_does_not_belong_to_customer}
use oficina_tech_ms_order_se.Domain.Item.{ServiceOrderItem}
use oficina_tech_ms_order_se.Domain.Order.{ServiceOrder, new_service_order, set_customer_snapshot}
use oficina_tech_ms_order_se.Platform.Monad.{◌>>=◌, ◌>>◌, Action, lift, pure, raise_if, CustomerDto}
use oficina_tech_ms_order_se.Platform.Ports.{Env, get_customer_by_id, get_vehicle_by_id, read_clock}
use oficina_tech_ms_order_se.UseCases.ItemInputs.{ItemInput, add_items, validate_and_build_items}
use oficina_tech_ms_order_se.UseCases.Saving.{save_with_items}

pub record CreationInput : Type 0 where
  pub customer_id : String
  pub vehicle_id : String
  pub description : String
  pub items : List ItemInput

-- A vehicle that is named must be the customer's.
unfoldable pub check_vehicle : Env → String → String → Action (Unit {0})
check_vehicle env customer_id vehicle_id =
    if is_empty vehicle_id
    then pure tt
    else get_vehicle_by_id env vehicle_id >>= λ v.
        raise_if (not (str_eq v.customer_id customer_id)) vehicle_does_not_belong_to_customer

-- The order is made, filled and stored.
unfoldable pub fill_new :
    Env → CreationInput → CustomerDto → List ServiceOrderItem → Action ServiceOrder
unfolding new_service_order set_customer_snapshot add_items save_with_items
fill_new env input buyer items = do
  now ← read_clock env
  order ← lift (new_service_order input.customer_id input.vehicle_id input.description (now 0))
  filled ← add_items env (set_customer_snapshot order buyer.email buyer.name (now 1)) items
  save_with_items env filled

-- The result is the order that the output copies its fields from.
unfoldable pub create_service_order : Env → CreationInput → Action ServiceOrder
unfolding check_vehicle validate_and_build_items fill_new
create_service_order env input = do
  buyer ← get_customer_by_id env input.customer_id
  check_vehicle env input.customer_id input.vehicle_id
  items ← validate_and_build_items env "" input.items
  fill_new env input buyer items
