-- ===== src/Domain/Order/Baskets.antt =====
-- The items of an order after any sequence of calls.
use mathlib.Core.Path.{subst}
use oficina_tech_ms_order_se.Shared.{All, List, String, [], arith, none, some, ◌∷◌, ◌≡◌}
use oficina_tech_ms_order_se.Domain.Errors.{ok, ok_injective}
use oficina_tech_ms_order_se.Domain.Item.{Clock, Time}
use oficina_tech_ms_order_se.Domain.Order.{ServiceOrder, new_service_order}
use oficina_tech_ms_order_se.Domain.Order.Basket.{add_item, clear_items}
use oficina_tech_ms_order_se.Domain.Order.Calls.{
  Call, after, clear, item_added, item_removed, item_updated, perform, perform_all,
}
use oficina_tech_ms_order_se.Domain.Order.Stocked.{IsSound, IsStocked}
use oficina_tech_ms_order_se.Domain.Order.Stocking.{
  Modified-IsStocked, add_item-IsStocked, update_item_quantity-Modified, update_quantity-IsSound,
  update_quantity-Keeps, remove_item-IsStocked,
}
use oficina_tech_ms_order_se.Domain.Order.Traces.{after_keeps}
use oficina_tech_ms_order_se.Domain.Order.Untouched.{perform_untouched}

-- The calls of a client that makes its items by `NewServiceOrderItem`.
abbrev AddsSound : Call → Type 0
AddsSound (item_added (some item)) = IsSound item
AddsSound _ = Unit

perform-IsStocked :
    (c : Call) (now : Clock) (s : ServiceOrder) {t : ServiceOrder}
    → AddsSound c
    → perform c now s ≡ ok t
    → IsStocked s.items
    → IsStocked t.items
unfolding perform
perform-IsStocked (item_added (some i)) now s a h st = add_item-IsStocked s i now h a st
perform-IsStocked (item_added none) now s a h st = unfold add_item in cc
perform-IsStocked (item_removed k) now s a h st = remove_item-IsStocked s k now h st
perform-IsStocked (item_updated k q) now s a h st =
    Modified-IsStocked (λ i j e. update_quantity-Keeps q (now 0) i j e)
      (λ i j sound e. update_quantity-IsSound q (now 0) i j e sound)
      (update_item_quantity-Modified s k q now h) st
perform-IsStocked clear now s a h st =
    unfold clear_items in
    subst (λ t. IsStocked t.items) (ok_injective h) (record { sound = tt; apart = tt })
perform-IsStocked c now s a h st = rw (perform_untouched c now s tt h) st

abbrev AllAddSound : List (Call × Clock) → Type 0
AllAddSound = All (λ c. AddsSound c.0)

perform_all-IsStocked :
    (calls : List (Call × Clock)) (s : ServiceOrder)
    → AllAddSound calls
    → IsStocked s.items
    → IsStocked (perform_all calls s).items
unfolding perform_all
perform_all-IsStocked [] s a st = st
perform_all-IsStocked ((c, now) ∷ rest) s a st =
    perform_all-IsStocked rest (after (perform c now s) s) a.1 (
      after_keeps (λ t. IsStocked t.items) (perform c now s) s
        (λ t h. perform-IsStocked c now s a.0 h st) st)

-- If only items with a positive quantity and price are added, then after any calls on an order that
-- `NewServiceOrder` made every item has a positive quantity and price, and no two items that are
-- not deleted have the same type and reference. A quantity that wraps around when items are merged
-- is refused.
pub created_IsStocked :
    (customer_id vehicle_id description : String) (now : Time) {s : ServiceOrder}
    → new_service_order customer_id vehicle_id description now ≡ ok s
    → (calls : List (Call × Clock)) → AllAddSound calls
    → IsStocked (perform_all calls s).items
unfolding new_service_order
created_IsStocked c v d now {s} h calls a =
    let empty : s.items ≡ [] = ground arith in
    perform_all-IsStocked calls s a (rw empty (record { sound = tt; apart = tt }))
