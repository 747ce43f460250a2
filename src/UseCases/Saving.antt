-- ===== src/UseCases/Saving.antt =====
-- service_order_repository.go: `SaveWithItems` of an order that may be new, or have new items.
use oficina_tech_ms_order_se.Shared.{
  Bool, List, Option, if◌then◌else◌, is_empty, map, none, select, some, true, ◌++◌,
}
use oficina_tech_ms_order_se.Domain.Errors.{Error, external, of_error}
use oficina_tech_ms_order_se.Domain.History.{filter_active_items}
use oficina_tech_ms_order_se.Domain.Item.{ServiceOrderItem, is_deleted}
use oficina_tech_ms_order_se.Domain.Order.{ServiceOrder, set_order_id}
use oficina_tech_ms_order_se.Platform.Monad.{◌>>=◌, Action, World, lift, pure}
use oficina_tech_ms_order_se.Platform.Ports.{Env, generate_item_uuids, generate_uuid, step}
use oficina_tech_ms_order_se.Platform.Table.{find_row, save_row}
use oficina_tech_ms_order_se.UseCases.ItemLists.{identify_items, owned}

-- What the tables hold: each item names the order, and the deleted ones stand apart.
abbrev pub stored_order : ServiceOrder → ServiceOrder
stored_order s = record s { items = map (owned s.id) (filter_active_items s.items) }

abbrev pub deleted_rows : ServiceOrder → List ServiceOrderItem
deleted_rows s = map (owned s.id) (select is_deleted s.items)

-- The transaction with the order's row; the key of a new row is checked by the database.
abbrev insert_outcome : Bool → Option ServiceOrder → Option Error → Option Error
insert_outcome true (some _) none = some (external "duplicate key")
insert_outcome _ _ failure = failure

abbrev write_rows : Option Error → ServiceOrder → World → World
write_rows (some _) s w = w
write_rows none s w = record w {
  orders = save_row (stored_order s) w.orders;
  deleted_items = w.deleted_items ++ deleted_rows s;
}

abbrev pub save_rows : Env → Bool → ServiceOrder → Action (Unit {0})
save_rows env is_new s w =
    let failure = insert_outcome is_new (find_row s.id w.orders) (env.save_error w.tick s) in
    (of_error failure, step (write_rows failure s w))

-- A new order gets an id, and its items get it too.
unfoldable pub identify_new : Env → ServiceOrder → Action ServiceOrder
unfolding set_order_id
identify_new env s = do
  id ← generate_uuid env
  t ← lift (set_order_id s id)
  pure (record t { items = map (owned id) t.items })

unfoldable pub identify_order : Env → ServiceOrder → Action ServiceOrder
unfolding identify_new
identify_order env s = if is_empty s.id then identify_new env s else pure s

unfoldable pub save_with_items : Env → ServiceOrder → Action ServiceOrder
unfolding identify_order identify_items
save_with_items env s = do
  t ← identify_order env s
  ids ← generate_item_uuids env
  items ← lift (identify_items ids 0 t.items)
  save_rows env (is_empty s.id) (record t { items = items }) >>= λ _.
      pure (record t { items = items })
