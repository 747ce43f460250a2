-- ===== src/Domain/Item.antt =====
-- service_order_item.go: one item of a service order. A method that changes the item returns the
-- new item; an error leaves the item as it was. `int` is a bit pattern (Shared/Int64), a time is a
-- number, and each reading of `time.Now` is an argument.
use oficina_tech_ms_order_se.Shared.{
  Bool, Option, String, int_le_zero, is_empty, is_some, mul_int, none, not, some, str_eq, ℕ, ◌||◌,
  ◌==◌,
}
use oficina_tech_ms_order_se.Domain.Errors.{
  Result, fail_if, invalid_history_id, invalid_item_id, invalid_item_name, invalid_item_type,
  invalid_quantity, invalid_reference_id, invalid_service_order_id, invalid_unit_price, ok, ◌>>◌,
}

abbrev pub Time : Type 0
Time = ℕ

-- The readings of `time.Now` that one call makes, by their place in the call.
abbrev pub Clock : Type 0
Clock = ℕ → Time

-- `ItemType` is a string.
pub data ItemType : Type 0 where
  product service : ItemType
  other_type : String → ItemType

abbrev type_code : ItemType → ℕ
type_code product = 0
type_code service = 1
type_code (other_type _) = 2

-- `==` on `ItemType`.
abbrev pub type_eq : ItemType → ItemType → Bool
type_eq (other_type s) (other_type t) = str_eq s t
type_eq a b = type_code a == type_code b

abbrev pub type_is_valid : ItemType → Bool
type_is_valid t = type_eq t product || type_eq t service

pub record ServiceOrderItem : Type 0 where
  pub id : String
  pub service_order_id : String
  pub history_id : Option String
  pub item_type : ItemType
  pub reference_id : String
  pub name : String
  pub quantity : ℕ
  pub unit_price : ℕ
  pub created_at : Time
  pub updated_at : Time
  pub deleted_at : Option Time

unfoldable pub new_service_order_item :
    String → ItemType → String → String → ℕ → ℕ → Time → Result ServiceOrderItem
new_service_order_item service_order_id item_type reference_id name quantity unit_price now = do
  fail_if (not (type_is_valid item_type)) invalid_item_type
  fail_if (is_empty reference_id) invalid_reference_id
  fail_if (is_empty name) invalid_item_name
  fail_if (int_le_zero quantity) invalid_quantity
  fail_if (int_le_zero unit_price) invalid_unit_price
  ok (record {
    id = "";
    service_order_id = service_order_id;
    history_id = none;
    item_type = item_type;
    reference_id = reference_id;
    name = name;
    quantity = quantity;
    unit_price = unit_price;
    created_at = now;
    updated_at = now;
    deleted_at = none;
  })

unfoldable pub update_quantity : ServiceOrderItem → ℕ → Time → Result ServiceOrderItem
update_quantity i quantity now = do
  fail_if (int_le_zero quantity) invalid_quantity
  ok (record i { quantity = quantity; updated_at = now })

abbrev pub subtotal : ServiceOrderItem → ℕ
subtotal i = mul_int i.quantity i.unit_price

unfoldable pub mark_as_deleted : ServiceOrderItem → Time → ServiceOrderItem
mark_as_deleted i now = record i { deleted_at = some now; updated_at = now }

abbrev pub is_deleted : ServiceOrderItem → Bool
is_deleted i = is_some i.deleted_at

unfoldable pub set_id : ServiceOrderItem → String → Result ServiceOrderItem
set_id i id = do fail_if (is_empty id) invalid_item_id; ok (record i { id = id })

unfoldable pub set_service_order_id : ServiceOrderItem → String → Result ServiceOrderItem
set_service_order_id i service_order_id = do
  fail_if (is_empty service_order_id) invalid_service_order_id
  ok (record i { service_order_id = service_order_id })

unfoldable pub set_history_id : ServiceOrderItem → String → Time → Result ServiceOrderItem
set_history_id i history_id now = do
  fail_if (is_empty history_id) invalid_history_id
  ok (record i { history_id = some history_id; updated_at = now })
