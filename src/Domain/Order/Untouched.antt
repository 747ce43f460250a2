-- ===== src/Domain/Order/Untouched.antt =====
-- service_order.go: the methods that leave the items of an order alone.
use oficina_tech_ms_order_se.Shared.{arith, ◌≡◌}
use oficina_tech_ms_order_se.Domain.Errors.{ok}
use oficina_tech_ms_order_se.Domain.Item.{Clock}
use oficina_tech_ms_order_se.Domain.Order.{
  ServiceOrder, await_payment, cancel_after_refund, complete_saga, confirm_payment, fail_saga,
  mark_order_deleted, reject_payment, set_customer_snapshot, set_order_id, start_saga,
  update_customer, update_description, update_status, update_vehicle,
}
use oficina_tech_ms_order_se.Domain.Order.Calls.{
  Call, clear, customer_changed, described, identify, item_added, item_removed, item_updated,
  mark_deleted, payment_awaited, payment_confirmed, payment_rejection, perform, refund_cancellation,
  saga_completed, saga_failed, saga_started, snapshot_taken, to_status, vehicle_changed,
}

-- The method is none of those on items.
abbrev LeavesItems : Call → Type 0
LeavesItems (item_added _) = ⊥
LeavesItems (item_removed _) = ⊥
LeavesItems (item_updated _ _) = ⊥
LeavesItems clear = ⊥
LeavesItems _ = Unit

pub perform_untouched :
    (c : Call) (now : Clock) (s : ServiceOrder) {t : ServiceOrder}
    → LeavesItems c
    → perform c now s ≡ ok t
    → t.items ≡ s.items
unfolding perform
perform_untouched (item_added _) now s l h = absurd l
perform_untouched (item_removed _) now s l h = absurd l
perform_untouched (item_updated _ _) now s l h = absurd l
perform_untouched clear now s l h = absurd l
perform_untouched (to_status n) now s l h = unfold update_status in ground arith
perform_untouched (customer_changed c) now s l h = unfold update_customer in ground arith
perform_untouched (vehicle_changed v) now s l h = unfold update_vehicle in ground arith
perform_untouched (described d) now s l h = unfold update_description in ground arith
perform_untouched mark_deleted now s l h = unfold mark_order_deleted in ground arith
perform_untouched saga_completed now s l h = unfold complete_saga in ground arith
perform_untouched saga_failed now s l h = unfold fail_saga in ground arith
perform_untouched payment_rejection now s l h = unfold reject_payment in ground arith
perform_untouched refund_cancellation now s l h = unfold cancel_after_refund in ground arith
perform_untouched (saga_started i n o) now s l h = unfold start_saga in ground arith
perform_untouched (payment_awaited p u) now s l h = unfold await_payment in ground arith
perform_untouched (payment_confirmed p) now s l h = unfold confirm_payment in ground arith
perform_untouched (identify i) now s l h = unfold set_order_id in ground arith
perform_untouched (snapshot_taken e n) now s l h = unfold set_customer_snapshot in ground arith
