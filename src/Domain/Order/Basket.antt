-- ===== src/Domain/Order/Basket.antt =====
-- The item methods of service_order.go: adding, removing and updating items, and the total.
use mathlib.Core.Option
use oficina_tech_ms_order_se.Shared.{
  Bool, List, Option, String, [], add_int, if◌then◌else◌, is_empty, none, not, some, str_eq, ℕ,
  ◌&&◌, ◌++◌, ◌∷◌,
}
use oficina_tech_ms_order_se.Domain.Errors.{
  Result, cannot_modify_closed_order, cannot_modify_items_after_pending, err, fail_if,
  invalid_item_id, item_not_found, ok, ◌>>=◌, ◌>>◌,
}
use oficina_tech_ms_order_se.Domain.Item.{
  Clock, ServiceOrderItem, Time, is_deleted, mark_as_deleted, subtotal, type_eq, update_quantity,
}
use oficina_tech_ms_order_se.Domain.Order.{ServiceOrder, can_modify_items, is_closed}

-- The loop that treats the first item that passes a test and returns; `none` is the end of the
-- list.
unfoldable pub modify_first :
    (ServiceOrderItem → Bool)
    → (ServiceOrderItem → Result ServiceOrderItem)
    → List ServiceOrderItem
    → Option (Result (List ServiceOrderItem))
modify_first test change [] = none
modify_first test change (i ∷ rest) =
    let below = modify_first test change rest in
    if test i
    then some (change i >>= λ j. ok (j ∷ rest))
    else Option.map (λ r. r >>= λ js. ok (i ∷ js)) below

-- An item that `AddItem` merges another into.
abbrev pub same_item : ServiceOrderItem → ServiceOrderItem → Bool
same_item item i =
    not (is_deleted i)
    && str_eq i.reference_id item.reference_id
    && type_eq i.item_type item.item_type

-- The item of that id, unless it is deleted.
abbrev pub has_id : String → ServiceOrderItem → Bool
has_id item_id i = str_eq i.id item_id && not (is_deleted i)

-- The guards of the item methods.
abbrev pub check_open : ServiceOrder → Result (Unit {0})
check_open s = do
  fail_if (is_closed s) cannot_modify_closed_order
  fail_if (not (can_modify_items s)) cannot_modify_items_after_pending

abbrev pub put_items : ServiceOrder → List ServiceOrderItem → Time → ServiceOrder
put_items s items now = record s { items = items; updated_at = now }

-- `none` is a nil item.
unfoldable pub add_item : ServiceOrder → Option ServiceOrderItem → Clock → Result ServiceOrder
add_item s none now = err invalid_item_id
add_item s (some item) now = do
  check_open s
  elim (modify_first (same_item item)
      (λ i. update_quantity i (add_int i.quantity item.quantity) (now 0)) s.items) [
        | some merged ↦ merged >>= λ items. ok (put_items s items (now 1))
        | none ↦ ok (put_items s (s.items ++ item ∷ []) (now 1))
      ]

-- What `RemoveItem` and `UpdateItemQuantity` return from the loop, and behind it.
abbrev pub finish_change :
    ServiceOrder → Time → Option (Result (List ServiceOrderItem)) → Result ServiceOrder
finish_change s now none = err item_not_found
finish_change s now (some changed) = changed >>= λ items. ok (put_items s items now)

unfoldable pub remove_item : ServiceOrder → String → Clock → Result ServiceOrder
remove_item s item_id now = do
  fail_if (is_empty item_id) invalid_item_id
  check_open s
  finish_change s (now 1)
      (modify_first (has_id item_id) (λ i. ok (mark_as_deleted i (now 0))) s.items)

unfoldable pub update_item_quantity : ServiceOrder → String → ℕ → Clock → Result ServiceOrder
update_item_quantity s item_id quantity now = do
  fail_if (is_empty item_id) invalid_item_id
  check_open s
  finish_change s (now 1)
      (modify_first (has_id item_id) (λ i. update_quantity i quantity (now 0)) s.items)

-- The loop of `TotalAmount`.
unfoldable pub total_from : ℕ → List ServiceOrderItem → ℕ
total_from total [] = total
total_from total (i ∷ rest) =
    total_from (if is_deleted i then total else add_int total (subtotal i)) rest

unfoldable pub total_amount : ServiceOrder → ℕ
unfolding total_from
total_amount s = total_from 0 s.items

unfoldable pub clear_items : ServiceOrder → Time → ServiceOrder
clear_items s now = put_items s [] now
