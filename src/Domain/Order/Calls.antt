-- ===== src/Domain/Order/Calls.antt =====
-- The methods of `ServiceOrder` that change it, as one type of calls: what any client of the domain
-- can do to an order.
use oficina_tech_ms_order_se.Shared.{List, Option, String, [], ℕ, ◌∷◌}
use oficina_tech_ms_order_se.Domain.Errors.{Result, err, ok}
use oficina_tech_ms_order_se.Domain.Item.{Clock, ServiceOrderItem}
use oficina_tech_ms_order_se.Domain.Order.{
  ServiceOrder, await_payment, cancel_after_refund, complete_saga, confirm_payment, fail_saga,
  mark_order_deleted, reject_payment, set_customer_snapshot, set_order_id, start_saga,
  update_customer, update_description, update_status, update_vehicle,
}
use oficina_tech_ms_order_se.Domain.Order.Basket.{
  add_item, clear_items, remove_item, update_item_quantity,
}
use oficina_tech_ms_order_se.Domain.Status.{OrderStatus}

pub data Call : Type 0 where
  to_status : OrderStatus → Call
  customer_changed vehicle_changed described : String → Call
  mark_deleted saga_completed saga_failed payment_rejection refund_cancellation clear : Call
  saga_started : String → OrderStatus → Option String → Call
  payment_awaited : String → String → Call
  payment_confirmed : String → Call
  identify : String → Call
  snapshot_taken : String → String → Call
  item_added : Option ServiceOrderItem → Call
  item_removed : String → Call
  item_updated : String → ℕ → Call

-- One call, with the readings of the clock that it makes.
unfoldable pub perform : Call → Clock → ServiceOrder → Result ServiceOrder
perform (to_status t) now s = update_status s t now
perform (customer_changed c) now s = update_customer s c (now 0)
perform (vehicle_changed v) now s = update_vehicle s v (now 0)
perform (described d) now s = ok (update_description s d (now 0))
perform mark_deleted now s = ok (mark_order_deleted s (now 0))
perform saga_completed now s = ok (complete_saga s (now 0))
perform saga_failed now s = ok (fail_saga s (now 0))
perform payment_rejection now s = reject_payment s now
perform refund_cancellation now s = cancel_after_refund s now
perform clear now s = ok (clear_items s (now 0))
perform (saga_started i t n) now s = start_saga s i t n (now 0)
perform (payment_awaited p u) now s = await_payment s p u now
perform (payment_confirmed p) now s = confirm_payment s p now
perform (identify i) now s = set_order_id s i
perform (snapshot_taken e n) now s = ok (set_customer_snapshot s e n (now 0))
perform (item_added i) now s = add_item s i now
perform (item_removed i) now s = remove_item s i now
perform (item_updated i q) now s = update_item_quantity s i q now

-- The order after a call: a call that fails leaves it alone.
abbrev pub after : Result ServiceOrder → ServiceOrder → ServiceOrder
after (ok t) s = t
after (err _) s = s

unfoldable pub perform_all : List (Call × Clock) → ServiceOrder → ServiceOrder
perform_all [] s = s
perform_all ((c, now) ∷ rest) s = perform_all rest (after (perform c now s) s)
