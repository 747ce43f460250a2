-- ===== src/UseCases/Update.antt =====
-- update_service_order.go: the change of an order's customer, vehicle, description and items. The
-- field `Status` of the input is read nowhere in the code.
use oficina_tech_ms_order_se.Shared.{
  Bool, List, Option, String, [], false, if◌then◌else◌, is_empty, is_some, none, not, some, str_eq,
  suc, true, ℕ, ◌∷◌,
}
use oficina_tech_ms_order_se.Domain.Errors.{
  Result, cannot_modify_items_after_pending, err, external, ok, service_order_deleted,
  vehicle_does_not_belong_to_customer,
}
use oficina_tech_ms_order_se.Domain.History.{
  History, Metadata, build_history_metadata, build_history_metadata_with_items, capture_order_state,
  new_history,
}
use oficina_tech_ms_order_se.Domain.Item.{Clock, ServiceOrderItem, Time, is_deleted}
use oficina_tech_ms_order_se.Domain.Order.{
  ServiceOrder, can_modify_items, order_is_deleted, update_customer, update_description,
  update_vehicle,
}
use oficina_tech_ms_order_se.Domain.Order.Basket.{remove_item}
use oficina_tech_ms_order_se.Platform.Monad.{◌>>=◌, ◌>>◌, Action, lift, pure, raise_if}
use oficina_tech_ms_order_se.Platform.Ports.{
  Env, find_by_id, generate_uuid, get_customer_by_id, get_vehicle_by_id, read_clock,
  save_history_record, save_order,
}
use oficina_tech_ms_order_se.UseCases.ItemInputs.{ItemInput, add_items, validate_and_build_items}
use oficina_tech_ms_order_se.UseCases.ItemLists.{item_at, link_items}
use oficina_tech_ms_order_se.UseCases.Saving.{save_with_items}

pub record UpdateInput : Type 0 where
  pub id : String
  pub customer_id : Option String
  pub vehicle_id : Option String
  pub description : Option String
  -- `none` is the nil slice.
  pub items : Option (List ItemInput)

abbrev pub given_or : Option String → String → String
given_or none old = old
given_or (some new) old = new

abbrev pub check_customer : Env → Option String → Action (Unit {0})
check_customer env none = pure tt
check_customer env (some customer_id) = get_customer_by_id env customer_id >>= λ _. pure tt

abbrev pub check_given_vehicle : Env → Option String → Action (Unit {0})
check_given_vehicle env none = pure tt
check_given_vehicle env (some vehicle_id) =
    if is_empty vehicle_id then pure tt else (get_vehicle_by_id env vehicle_id >>= λ _. pure tt)

-- `ValidateVehicleOwnership`, and the error where the vehicle is another's.
unfoldable pub check_ownership : Env → String → String → Action (Unit {0})
check_ownership env vehicle_id customer_id =
    if is_empty vehicle_id
    then pure tt
    else (get_vehicle_by_id env vehicle_id >>= λ v.
        raise_if (not (str_eq v.customer_id customer_id)) vehicle_does_not_belong_to_customer)

abbrev pub change_customer : Option String → Time → ServiceOrder → Result ServiceOrder
change_customer none now s = ok s
change_customer (some customer_id) now s = update_customer s customer_id now

abbrev pub change_vehicle : Option String → Time → ServiceOrder → Result ServiceOrder
change_vehicle none now s = ok s
change_vehicle (some vehicle_id) now s = update_vehicle s vehicle_id now

abbrev pub change_description : Option String → Time → ServiceOrder → ServiceOrder
change_description none now s = s
change_description (some description) now s = update_description s description now

unfoldable pub validate_and_update_customer_vehicle :
    Env → ServiceOrder → UpdateInput → Action ServiceOrder
unfolding check_ownership update_customer update_vehicle update_description
validate_and_update_customer_vehicle env s input = do
  check_customer env input.customer_id
  check_given_vehicle env input.vehicle_id
  check_ownership env (given_or input.vehicle_id s.vehicle_id)
      (given_or input.customer_id s.customer_id)
  now ← read_clock env
  t ← lift (change_customer input.customer_id (now 0) s)
  u ← lift (change_vehicle input.vehicle_id (now 1) t)
  pure (change_description input.description (now 2) u)

-- One turn of the loop that removes the items: the item is read where it stands.
abbrev pub remove_at : Env → ServiceOrder → Option ServiceOrderItem → Action ServiceOrder
remove_at env s none = pure s
remove_at env s (some i) =
    if is_deleted i then pure s else (read_clock env >>= λ now. lift (remove_item s i.id now))

-- The loop over the items that the order had, which counts its turns.
unfoldable pub remove_items : Env → List ServiceOrderItem → ℕ → ServiceOrder → Action ServiceOrder
unfolding item_at remove_item
remove_items env [] place s = pure s
remove_items env (_ ∷ rest) place s = do
  t ← remove_at env s (item_at place s.items)
  remove_items env rest (suc place) t

unfoldable pub replace_items : Env → ServiceOrder → List ItemInput → Action ServiceOrder
unfolding validate_and_build_items remove_items add_items can_modify_items
replace_items env s inputs = do
  raise_if (not (can_modify_items s)) cannot_modify_items_after_pending
  items ← validate_and_build_items env s.id inputs
  emptied ← remove_items env s.items 0 s
  add_items env emptied items

abbrev pub update_items : Env → ServiceOrder → Option (List ItemInput) → Action ServiceOrder
update_items env s none = pure s
update_items env s (some inputs) = replace_items env s inputs

-- `Save` of the history repository gives the history an id.
unfoldable pub store_history : Env → History → Action String
store_history env history = do
  id ← generate_uuid env
  save_history_record env (record history { id = id })
  pure id

abbrev pub update_metadata : ServiceOrder → ServiceOrder → Bool → Metadata
update_metadata old s modified =
    if modified then build_history_metadata_with_items old s else build_history_metadata old s

-- Where `CaptureOrderState` has no copy, the metadata are read from a nil order: the handler panics.
abbrev pub captured : Option ServiceOrder → Result ServiceOrder
captured none = err (external "nil pointer dereference")
captured (some old) = ok old

abbrev pub link_deleted : Bool → ServiceOrder → String → Clock → Result (List ServiceOrderItem)
link_deleted false s history_id now = ok s.items
link_deleted true s history_id now = link_items history_id now 0 s.items

unfoldable pub save_history : Env → ServiceOrder → Option ServiceOrder → Bool → Action ServiceOrder
unfolding build_history_metadata_with_items build_history_metadata new_history store_history
    link_items
save_history env s old_order modified = do
  old ← lift (captured old_order)
  now ← read_clock env
  history ← lift (new_history s.id (update_metadata old s modified) s.status (now 0))
  history_id ← store_history env history
  later ← read_clock env
  items ← lift (link_deleted modified s history_id later)
  pure (record s { items = items })

abbrev pub save_updated : Env → ServiceOrder → Bool → Action ServiceOrder
save_updated env s true = save_with_items env s
save_updated env s false = save_order env s >>= λ _. pure s

-- The result is the order that the output copies its fields from.
unfoldable pub update_service_order : Env → UpdateInput → Action ServiceOrder
unfolding capture_order_state validate_and_update_customer_vehicle replace_items save_history
    save_with_items
update_service_order env input = do
  order ← find_by_id env input.id
  raise_if (order_is_deleted order) service_order_deleted
  changed ← validate_and_update_customer_vehicle env order input
  filled ← update_items env changed input.items
  linked ← save_history env filled (capture_order_state order) (is_some input.items)
  save_updated env linked (is_some input.items)
