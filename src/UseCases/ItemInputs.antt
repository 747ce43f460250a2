-- ===== src/UseCases/ItemInputs.antt =====
-- The items that a caller of create_service_order.go and update_service_order.go names, checked
-- against the catalogue.
use oficina_tech_ms_order_se.Shared.{List, String, [], if◌then◌else◌, not, some, str_eq, ℕ, ◌∷◌}
use oficina_tech_ms_order_se.Domain.Errors.{invalid_item_type}
use oficina_tech_ms_order_se.Domain.Item.{
  ItemType, ServiceOrderItem, new_service_order_item, other_type, product, service, type_eq,
  type_is_valid,
}
use oficina_tech_ms_order_se.Domain.Order.{ServiceOrder}
use oficina_tech_ms_order_se.Domain.Order.Basket.{add_item}
use oficina_tech_ms_order_se.Platform.Monad.{◌>>=◌, ◌>>◌, Action, lift, pure, raise_if}
use oficina_tech_ms_order_se.Platform.Ports.{
  CatalogDto, Env, get_product_by_id, get_service_by_id, read_clock,
}

pub record ItemInput : Type 0 where
  pub item_type : String
  pub reference_id : String
  pub quantity : ℕ

-- The conversion of a text to `ItemType`.
abbrev pub item_type_of : String → ItemType
item_type_of t =
    if str_eq t "PRODUCT" then product else if str_eq t "SERVICE" then service else other_type t

unfoldable pub fetch_item_details : Env → ItemType → String → Action CatalogDto
fetch_item_details env item_type reference_id =
    if type_eq item_type product
    then get_product_by_id env reference_id
    else get_service_by_id env reference_id

unfoldable pub build_item : Env → String → ItemInput → Action ServiceOrderItem
unfolding fetch_item_details new_service_order_item
build_item env order_id input = do
  raise_if (not (type_is_valid (item_type_of input.item_type))) invalid_item_type
  details ← fetch_item_details env (item_type_of input.item_type) input.reference_id
  now ← read_clock env
  lift (
      new_service_order_item order_id (item_type_of input.item_type) input.reference_id details.name
        input.quantity details.price (now 0))

unfoldable pub validate_and_build_items :
    Env → String → List ItemInput → Action (List ServiceOrderItem)
unfolding build_item
validate_and_build_items env order_id [] = pure []
validate_and_build_items env order_id (input ∷ rest) = do
  item ← build_item env order_id input
  items ← validate_and_build_items env order_id rest
  pure (item ∷ items)

unfoldable pub add_items : Env → ServiceOrder → List ServiceOrderItem → Action ServiceOrder
unfolding add_item
add_items env s [] = pure s
add_items env s (item ∷ rest) = do
  now ← read_clock env
  t ← lift (add_item s (some item) now)
  add_items env t rest
