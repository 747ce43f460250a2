-- ===== src/Examples/Orders.antt =====
-- The theorems on orders and statuses at concrete values.
use oficina_tech_ms_order_se.Shared.{
  List, [], arith, false, int_mod, none, refl, some, true, ◌%◌, ◌*◌, ◌+◌, ◌<◌, ◌↔◌, ◌∷◌, ◌≡◌, ◌⊎◌,
  All, Any, length, ◌≢◌,
}
use oficina_tech_ms_order_se.Domain.Errors.{ok}
use oficina_tech_ms_order_se.Domain.History.{has_items_changed}
use oficina_tech_ms_order_se.Domain.History.Changes.{
  IsAlike, has_items_changed_blind, has_items_changed_iff,
}
use oficina_tech_ms_order_se.Domain.Item.{Clock, ServiceOrderItem, mark_as_deleted, update_quantity}
use oficina_tech_ms_order_se.Domain.Order.{
  ServiceOrder, can_modify_items, idle, is_closed, new_service_order,
}
use oficina_tech_ms_order_se.Domain.Order.Basket.{add_item, modify_first, remove_item, total_amount}
use oficina_tech_ms_order_se.Domain.Order.Baskets.{created_IsStocked}
use oficina_tech_ms_order_se.Domain.Order.Calls.{
  Call, item_added, perform_all, saga_completed, saga_started, to_status,
}
use oficina_tech_ms_order_se.Domain.Order.Life.{IsConsistent}
use oficina_tech_ms_order_se.Domain.Order.Stocked.{IsSound, IsStocked}
use oficina_tech_ms_order_se.Domain.Order.Totals.{
  add_item-exact_total, exact_total, remove_item-exact_total, total_amount_lem, value_of,
}
use oficina_tech_ms_order_se.Domain.Order.Traces.{
  created_IsConsistent, perform_all-closed_at, perform_all-⟶*,
}
use oficina_tech_ms_order_se.Domain.Status.{
  awaiting_payment, can_transition_to, canceled, completed, delivered, diagnosing, paid,
  payment_rejected, pending_authorization, received, authorization_denied,
}
use oficina_tech_ms_order_se.Domain.Status.Flow.{
  CanReach, CanReach-delivered, can_transition_to-rank, can_transition_to_iff, rank, ◌⟶◌, ◌⟶*◌,
}
use oficina_tech_ms_order_se.Examples.Data.{brake_pads, diagnosed, noon}

abbrev fresh : ServiceOrder
fresh = record {
  id = "";
  customer_id = "customer-1";
  vehicle_id = "vehicle-1";
  description = "Squeaking brakes";
  status = received;
  saga_status = idle;
  current_saga_id = none;
  saga_target_status = none;
  saga_notes = none;
  mp_preference_id = none;
  mp_payment_id = none;
  payment_url = none;
  customer_email = "";
  customer_name = "";
  items = [];
  closed_at = none;
  created_at = 700;
  updated_at = 700;
  deleted_at = none;
}

fresh_created : new_service_order "customer-1" "vehicle-1" "Squeaking brakes" 700 ≡ ok fresh
unfolding new_service_order
fresh_created = refl

-- Two items of one product are added, a saga starts, ends and the order is refused.
abbrev calls : List (Call × Clock)
calls =
    (item_added (some brake_pads), noon)
    ∷ (item_added (some brake_pads), noon)
    ∷ (to_status diagnosing, noon)
    ∷ (saga_started "saga-1" pending_authorization none, noon)
    ∷ (saga_completed, noon)
    ∷ (to_status canceled, noon)
    ∷ []

brake_pads-IsSound : IsSound brake_pads
brake_pads-IsSound = record { some_quantity = omega arith; some_price = omega arith }

created_IsConsistent_example : IsConsistent (perform_all calls fresh)
created_IsConsistent_example =
    created_IsConsistent "customer-1" "vehicle-1" "Squeaking brakes" 700 fresh_created calls

perform_all-⟶*_example : received ⟶* (perform_all calls fresh).status
perform_all-⟶*_example = perform_all-⟶* calls fresh

abbrev closed : ServiceOrder
closed = record diagnosed { status = completed; closed_at = some 710 }

perform_all-closed_at_example : (perform_all calls closed).closed_at ≡ some 710
perform_all-closed_at_example = perform_all-closed_at calls closed refl

created_IsStocked_example : IsStocked (perform_all calls fresh).items
created_IsStocked_example =
    created_IsStocked "customer-1" "vehicle-1" "Squeaking brakes" 700 fresh_created calls
      (brake_pads-IsSound, (brake_pads-IsSound, (tt, (tt, (tt, (tt, tt))))))

abbrev more_pads : ServiceOrderItem
more_pads = record brake_pads { quantity = 3; unit_price = 5000 }

abbrev refilled : ServiceOrder
refilled = record diagnosed {
  items = record brake_pads { quantity = 5; updated_at = 720 } ∷ [];
  updated_at = 721;
}

refilled_added : add_item diagnosed (some more_pads) noon ≡ ok refilled
unfolding add_item modify_first can_modify_items update_quantity is_closed
refilled_added = refl

-- The merged item is billed at the price of the item that was there.
add_item-exact_total_example : 22950 ≡ 9180 + 3 * 4590
add_item-exact_total_example =
    add_item-exact_total diagnosed more_pads noon
      (record { some_quantity = omega arith; some_price = omega arith }) refl
      (brake_pads-IsSound, tt) refilled_added

abbrev emptied : ServiceOrder
emptied = record diagnosed {
  items = record brake_pads { deleted_at = some 720; updated_at = 720 } ∷ [];
  updated_at = 721;
}

emptied_removed : remove_item diagnosed "item-1" noon ≡ ok emptied
unfolding remove_item modify_first can_modify_items mark_as_deleted is_closed
emptied_removed = refl

remove_item-exact_total_example :
    exact_total emptied.items + value_of "item-1" diagnosed.items ≡ exact_total diagnosed.items
remove_item-exact_total_example = remove_item-exact_total diagnosed "item-1" noon emptied_removed

total_amount_lem_example : total_amount diagnosed ≡ exact_total diagnosed.items % int_mod
total_amount_lem_example = total_amount_lem diagnosed

can_transition_to_iff_example : (can_transition_to paid delivered ≡ true) ↔ (paid ⟶ delivered)
can_transition_to_iff_example = can_transition_to_iff paid delivered

CanReach-delivered_example :
    CanReach payment_rejected delivered
    ↔ ((payment_rejected ≢ canceled) × (payment_rejected ≢ authorization_denied))
CanReach-delivered_example = CanReach-delivered payment_rejected refl

bill_allowed : can_transition_to completed awaiting_payment ≡ true
unfolding can_transition_to
bill_allowed = refl

can_transition_to-rank_example :
    (rank completed < rank awaiting_payment)
    ⊎ ((completed ≡ awaiting_payment) × (awaiting_payment ≡ payment_rejected))
can_transition_to-rank_example = can_transition_to-rank completed awaiting_payment bill_allowed

has_items_changed_iff_example : (has_items_changed (brake_pads ∷ []) (more_pads ∷ []) ≡ false) ↔ (
    (length (brake_pads ∷ []) ≡ length (more_pads ∷ []))
    × All (λ i. Any (IsAlike i) (brake_pads ∷ [])) (more_pads ∷ []))
has_items_changed_iff_example = has_items_changed_iff (brake_pads ∷ []) (more_pads ∷ [])

-- From 560.00 to 570.00.
has_items_changed_blind_example :
    has_items_changed
      (record brake_pads { unit_price = 56000 } ∷ [])
      (record brake_pads { unit_price = 57000 } ∷ [])
    ≡ false
has_items_changed_blind_example =
    has_items_changed_blind brake_pads [] 56000 57000 refl (omega arith) (omega arith) (omega arith)
      (omega arith)
