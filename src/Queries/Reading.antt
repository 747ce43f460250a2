-- ===== src/Queries/Reading.antt =====
-- get_service_order.go, get_all_service_orders.go and get_service_order_history.go. An output copies
-- the fields of the order, which is the order here; its items are those that are not deleted.
use oficina_tech_ms_order_se.Shared.{
  Bool, List, Option, String, [], if◌then◌else◌, is_empty, ltb, none, select, some, str_eq, ℕ, ◌∷◌,
}
use oficina_tech_ms_order_se.Domain.Errors.{
  Result, err, invalid_service_order_id, ok, service_order_deleted,
}
use oficina_tech_ms_order_se.Domain.History.{History, filter_active_items}
use oficina_tech_ms_order_se.Domain.Item.{ServiceOrderItem}
use oficina_tech_ms_order_se.Domain.Order.{ServiceOrder, order_is_deleted}
use oficina_tech_ms_order_se.Domain.Order.Basket.{total_amount}
use oficina_tech_ms_order_se.Domain.Status.{OrderStatus, new_order_status}
use oficina_tech_ms_order_se.Platform.Monad.{◌>>=◌, ◌>>◌, Action, CustomerDto, lift, pure, raise_if}
use oficina_tech_ms_order_se.Platform.Ports.{
  Env, VehicleDto, find_by_id, get_customer_by_id, get_vehicle_by_id, step,
}
use oficina_tech_ms_order_se.Queries.Selection.{RepositoryFilters, find_all_with_filters}

pub record OrderView : Type 0 where
  pub order : ServiceOrder
  pub items : List ServiceOrderItem
  pub total : ℕ
  -- `nil` where the other service has no answer.
  pub customer : Option CustomerDto
  pub vehicle : Option VehicleDto

abbrev value_or_nil {ℓ} : {A : Type ℓ} → Result A → Option A
value_or_nil (ok a) = some a
value_or_nil (err e) = none

-- A call whose error is dropped.
unfoldable pub if_answered : {A : Type 0} → Action A → Action (Option A)
if_answered m w = (ok (value_or_nil (m w).0), (m w).1)

-- `sort.Slice` by the time of creation, which promises no order among items of the same time.
unfoldable pub insert_item : ServiceOrderItem → List ServiceOrderItem → List ServiceOrderItem
insert_item i [] = i ∷ []
insert_item i (j ∷ rest) =
    if ltb j.created_at i.created_at then j ∷ insert_item i rest else i ∷ j ∷ rest

unfoldable pub oldest_first : List ServiceOrderItem → List ServiceOrderItem
unfolding insert_item
oldest_first [] = []
oldest_first (i ∷ rest) = insert_item i (oldest_first rest)

-- The customer, the vehicle and the sum, for the items as they are listed.
unfoldable pub view_of : Env → List ServiceOrderItem → ServiceOrder → Action OrderView
unfolding if_answered total_amount
view_of env items order = do
  buyer ← if_answered (get_customer_by_id env order.customer_id)
  car ← if_answered (get_vehicle_by_id env order.vehicle_id)
  pure (record {
    order = order;
    items = filter_active_items items;
    total = total_amount order;
    customer = buyer;
    vehicle = car;
  })

unfoldable pub get_service_order : Env → String → Action OrderView
unfolding oldest_first view_of
get_service_order env id = do
  order ← find_by_id env id
  raise_if (order_is_deleted order) service_order_deleted
  view_of env (oldest_first order.items) order

pub record ListInput : Type 0 where
  pub customer_id : Option String
  pub status : Option String
  pub sort_by_status : Bool
  pub hide_completed : Bool

abbrev pub status_filter : Option String → Result (Option OrderStatus)
status_filter none = ok none
status_filter (some wanted) =
    if is_empty wanted
    then ok none
    else elim (new_order_status wanted) [ ok status ↦ ok (some status) | err e ↦ err e ]

abbrev pub filters_of : ListInput → Option OrderStatus → RepositoryFilters
filters_of input status = record {
  customer_id = input.customer_id;
  status = status;
  sort_by_status = input.sort_by_status;
  hide_completed = input.hide_completed;
}

-- The loop over the orders that were read.
unfoldable pub views_of : Env → List ServiceOrder → Action (List OrderView)
unfolding view_of
views_of env [] = pure []
views_of env (order ∷ rest) =
    if order_is_deleted order
    then views_of env rest
    else (view_of env order.items order >>= λ view.
        views_of env rest >>= λ views. pure (view ∷ views))

unfoldable pub get_all_service_orders : Env → ListInput → Action (List OrderView)
unfolding new_order_status find_all_with_filters views_of
get_all_service_orders env input = do
  status ← lift (status_filter input.status)
  orders ← find_all_with_filters env (filters_of input status)
  views_of env orders

-- `FindByServiceOrderID` returns the newest first; a history is appended when it is written.
unfoldable pub reversed : List History → List History → List History
reversed done [] = done
reversed done (h ∷ rest) = reversed (h ∷ done) rest

unfoldable pub histories_of : String → List History → List History
unfolding reversed
histories_of id histories = reversed [] (select (λ h. str_eq h.service_order_id id) histories)

abbrev find_histories : Env → String → Action (List History)
find_histories env id w = (
  elim (env.query_error w.tick) [ none ↦ ok (histories_of id w.histories) | some e ↦ err e ],
  step w,
)

unfoldable pub get_service_order_history : Env → String → Action (List History)
unfolding histories_of
get_service_order_history env id = do
  raise_if (is_empty id) invalid_service_order_id
  find_histories env id
