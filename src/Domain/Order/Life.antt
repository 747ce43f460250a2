-- ===== src/Domain/Order/Life.antt =====
-- The life of an order under any sequence of calls: the invariant of its status, its saga and its
-- time of closing.
use oficina_tech_ms_order_se.Shared.{
  List, Option, String, arith, false, is_some, none, some, true, ℕ, ◌≡◌, ◌⊎◌,
}
use oficina_tech_ms_order_se.Domain.Errors.{Result, err, ok}
use oficina_tech_ms_order_se.Domain.Item.{Clock, ServiceOrderItem, Time}
use oficina_tech_ms_order_se.Domain.Order.{
  ServiceOrder, closes, is_awaiting_inventory, update_status, await_payment, cancel_after_refund,
  complete_saga, confirm_payment, fail_saga, mark_order_deleted, new_service_order, reject_payment,
  set_customer_snapshot, set_order_id, start_saga, update_customer, update_description,
  update_vehicle,
}
use oficina_tech_ms_order_se.Domain.Order.Basket.{
  add_item, finish_change, remove_item, update_item_quantity, clear_items,
}
use oficina_tech_ms_order_se.Domain.Order.Calls.{
  Call, clear, identify, item_added, item_removed, item_updated, mark_deleted, payment_awaited,
  payment_confirmed, payment_rejection, perform, refund_cancellation, saga_completed, saga_failed,
  saga_started, snapshot_taken, to_status, customer_changed, described, vehicle_changed,
}
use oficina_tech_ms_order_se.Domain.Status.{OrderStatus, is_valid, can_transition_to}

-- What holds of an order between two calls.
pub record IsConsistent (s : ServiceOrder) : Type 0 where
  pub valid : is_valid s.status ≡ true
  pub closing : closes s.status ≡ true → is_some s.closed_at ≡ true
  pub busy :
      is_awaiting_inventory s.saga_status ≡ true
      → (is_some s.current_saga_id ≡ true) × (is_some s.saga_target_status ≡ true)
  pub at_rest :
      is_awaiting_inventory s.saga_status ≡ false
      → (s.current_saga_id ≡ none) × (s.saga_target_status ≡ none) × (s.saga_notes ≡ none)

-- The fields that the methods on items leave alone.
pub record SameFlow (s t : ServiceOrder) : Type 0 where
  pub status : t.status ≡ s.status
  pub saga_status : t.saga_status ≡ s.saga_status
  pub current_saga_id : t.current_saga_id ≡ s.current_saga_id
  pub saga_target_status : t.saga_target_status ≡ s.saga_target_status
  pub saga_notes : t.saga_notes ≡ s.saga_notes
  pub closed_at : t.closed_at ≡ s.closed_at

add_item-SameFlow :
    (s : ServiceOrder) (i : Option ServiceOrderItem) (now : Clock) {t : ServiceOrder}
    → add_item s i now ≡ ok t
    → SameFlow s t
unfolding add_item
add_item-SameFlow s none now h = cc
add_item-SameFlow s (some i) now h = ground arith

finish_change-SameFlow :
    (s : ServiceOrder) (now : Time) (o : Option (Result (List ServiceOrderItem))) {t : ServiceOrder}
    → finish_change s now o ≡ ok t
    → SameFlow s t
finish_change-SameFlow s now none h = cc
finish_change-SameFlow s now (some (ok items)) h = ground arith
finish_change-SameFlow s now (some (err e)) h = cc

remove_item-SameFlow :
    (s : ServiceOrder) (i : String) (now : Clock) {t : ServiceOrder}
    → remove_item s i now ≡ ok t
    → SameFlow s t
unfolding remove_item
remove_item-SameFlow s i now h = ground arith

update_item_quantity-SameFlow :
    (s : ServiceOrder) (i : String) (q : ℕ) (now : Clock) {t : ServiceOrder}
    → update_item_quantity s i q now ≡ ok t
    → SameFlow s t
unfolding update_item_quantity
update_item_quantity-SameFlow s i q now h = ground arith

update_status-IsConsistent :
    (s : ServiceOrder) (n : OrderStatus) (now : Clock) {t : ServiceOrder}
    → update_status s n now ≡ ok t
    → IsConsistent s
    → IsConsistent t
unfolding update_status
update_status-IsConsistent s n now h c = ground arith

-- A change of what is not the flow keeps the invariant.
SameFlow-IsConsistent : {s t : ServiceOrder} → SameFlow s t → IsConsistent s → IsConsistent t
SameFlow-IsConsistent f c = ground arith

-- A new order satisfies the invariant.
pub new_service_order-IsConsistent :
    (c v d : String) (now : Time) {t : ServiceOrder}
    → new_service_order c v d now ≡ ok t
    → IsConsistent t
unfolding new_service_order
new_service_order-IsConsistent c v d now h = ground arith

pub perform-IsConsistent :
    (c : Call) (now : Clock) (s : ServiceOrder) {t : ServiceOrder}
    → perform c now s ≡ ok t
    → IsConsistent s
    → IsConsistent t
unfolding perform
perform-IsConsistent (to_status n) now s h i = update_status-IsConsistent s n now h i
perform-IsConsistent (item_added o) now s h i =
    SameFlow-IsConsistent (add_item-SameFlow s o now h) i
perform-IsConsistent (item_removed k) now s h i =
    SameFlow-IsConsistent (remove_item-SameFlow s k now h) i
perform-IsConsistent (item_updated k q) now s h i =
    SameFlow-IsConsistent (update_item_quantity-SameFlow s k q now h) i
perform-IsConsistent (customer_changed c) now s h i = unfold update_customer in ground arith
perform-IsConsistent (vehicle_changed v) now s h i = unfold update_vehicle in ground arith
perform-IsConsistent (described d) now s h i = unfold update_description in ground arith
perform-IsConsistent mark_deleted now s h i = unfold mark_order_deleted in ground arith
perform-IsConsistent saga_completed now s h i = unfold complete_saga in ground arith
perform-IsConsistent saga_failed now s h i = unfold fail_saga in ground arith
perform-IsConsistent payment_rejection now s h i = unfold reject_payment in ground arith
perform-IsConsistent refund_cancellation now s h i = unfold cancel_after_refund in ground arith
perform-IsConsistent clear now s h i = unfold clear_items in ground arith
perform-IsConsistent (saga_started k t n) now s h i = unfold start_saga in ground arith
perform-IsConsistent (payment_awaited p u) now s h i = unfold await_payment in ground arith
perform-IsConsistent (payment_confirmed p) now s h i = unfold confirm_payment in ground arith
perform-IsConsistent (identify k) now s h i = unfold set_order_id in ground arith
perform-IsConsistent (snapshot_taken e n) now s h i = unfold set_customer_snapshot in ground arith

-- How the status and the time of closing move in one call.
pub record Advances (s t : ServiceOrder) : Type 0 where
  pub edge : (t.status ≡ s.status) ⊎ (can_transition_to s.status t.status ≡ true)
  pub closed_once : is_some s.closed_at ≡ true → t.closed_at ≡ s.closed_at

pub perform-Advances :
    (c : Call) (now : Clock) (s : ServiceOrder) {t : ServiceOrder}
    → perform c now s ≡ ok t
    → Advances s t
unfolding perform
perform-Advances (to_status n) now s h = unfold update_status in ground arith
perform-Advances (item_added o) now s h = ground (arith, add_item-SameFlow s o now h)
perform-Advances (item_removed k) now s h = ground (arith, remove_item-SameFlow s k now h)
perform-Advances (item_updated k q) now s h =
    ground (arith, update_item_quantity-SameFlow s k q now h)
perform-Advances (customer_changed c) now s h = unfold update_customer in ground arith
perform-Advances (vehicle_changed v) now s h = unfold update_vehicle in ground arith
perform-Advances (described d) now s h = unfold update_description in ground arith
perform-Advances mark_deleted now s h = unfold mark_order_deleted in ground arith
perform-Advances saga_completed now s h = unfold complete_saga in ground arith
perform-Advances saga_failed now s h = unfold fail_saga in ground arith
perform-Advances payment_rejection now s h = unfold reject_payment in ground arith
perform-Advances refund_cancellation now s h = unfold cancel_after_refund in ground arith
perform-Advances clear now s h = unfold clear_items in ground arith
perform-Advances (saga_started k t n) now s h = unfold start_saga in ground arith
perform-Advances (payment_awaited p u) now s h = unfold await_payment in ground arith
perform-Advances (payment_confirmed p) now s h = unfold confirm_payment in ground arith
perform-Advances (identify k) now s h = unfold set_order_id in ground arith
perform-Advances (snapshot_taken e n) now s h = unfold set_customer_snapshot in ground arith
