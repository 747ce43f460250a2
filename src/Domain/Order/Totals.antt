-- ===== src/Domain/Order/Totals.antt =====
-- The total of an order: the sum that it stands for, and how the item methods move it.
use oficina_tech_ms_order_se.Shared.{
  All, List, [], add_int, arith, false, if◌then◌else◌, int_mod, refl, ℕ, ◌%◌, ◌*◌, ◌++◌, ◌+◌, ◌<◌,
  ◌∷◌, ◌≡◌, Bool-cases, String, inl, inr, some, true,
}
use oficina_tech_ms_order_se.Domain.Errors.{ok}
use oficina_tech_ms_order_se.Domain.Item.{
  ServiceOrderItem, Time, is_deleted, update_quantity, Clock, mark_as_deleted, subtotal,
}
use oficina_tech_ms_order_se.Domain.Order.{ServiceOrder}
use oficina_tech_ms_order_se.Domain.Order.Basket.{
  same_item, total_amount, total_from, add_item, has_id, remove_item,
}
use oficina_tech_ms_order_se.Domain.Order.Stocked.{IsSound, Modified, found, skipped}
use oficina_tech_ms_order_se.Domain.Order.Stocking.{add_item_cases, remove_item-Modified}

-- The exact sum of quantity times price over the items that are not deleted.
abbrev pub exact_total : List ServiceOrderItem → ℕ
exact_total [] = 0
exact_total (i ∷ rest) = (if is_deleted i then 0 else i.quantity * i.unit_price) + exact_total rest

total_from_lem :
    (acc : ℕ) (items : List ServiceOrderItem)
    → acc < int_mod
    → total_from acc items ≡ (acc + exact_total items) % int_mod
unfolding total_from
total_from_lem acc [] h = omega arith
total_from_lem acc (i ∷ rest) h = elim (Bool-cases (is_deleted i)) [
  | inl gone ↦ rw gone (omega (arith, total_from_lem acc rest h))
  | inr active ↦
      rw active (omega (arith, total_from_lem (add_int acc (subtotal i)) rest (omega arith)))
]

-- `TotalAmount` is the exact sum over the items that are not deleted, but for wrapping at 64 bits.
pub total_amount_lem : (s : ServiceOrder) → total_amount s ≡ exact_total s.items % int_mod
unfolding total_amount
total_amount_lem s = omega (arith, total_from_lem 0 s.items (omega arith))

-- The price at which `AddItem` bills an item: that of the item it is merged into, or its own.
abbrev billed_price : ServiceOrderItem → List ServiceOrderItem → ℕ
billed_price item [] = item.unit_price
billed_price item (i ∷ rest) =
    let below = billed_price item rest in if same_item item i then i.unit_price else below

exact_total-append_one :
    (items : List ServiceOrderItem) (item : ServiceOrderItem)
    → exact_total (items ++ item ∷ []) ≡ exact_total items + exact_total (item ∷ [])
exact_total-append_one [] item = omega arith
exact_total-append_one (i ∷ rest) item = omega (arith, exact_total-append_one rest item)

billed_price_fresh :
    (item : ServiceOrderItem) (items : List ServiceOrderItem)
    → All (λ i. same_item item i ≡ false) items
    → billed_price item items ≡ item.unit_price
billed_price_fresh item [] a = refl
billed_price_fresh item (i ∷ rest) a = ground (arith, billed_price_fresh item rest a.1)

pub merged_quantity :
    (item i j : ServiceOrderItem) (now : Time)
    → IsSound item
    → IsSound i
    → update_quantity i (add_int i.quantity item.quantity) now ≡ ok j
    → (j.quantity ≡ i.quantity + item.quantity)
      × (j.unit_price ≡ i.unit_price)
      × (is_deleted j ≡ is_deleted i)
unfolding update_quantity
merged_quantity item i j now si sj h = ground arith

merged_total :
    (item i j : ServiceOrderItem) (rest : List ServiceOrderItem)
    → same_item item i ≡ true
    → j.quantity ≡ i.quantity + item.quantity
    → j.unit_price ≡ i.unit_price
    → is_deleted j ≡ is_deleted i
    → exact_total (j ∷ rest) ≡ exact_total (i ∷ rest) + item.quantity * billed_price item (i ∷ rest)
merged_total item i j rest t q p d =
    let active : is_deleted i ≡ false = ground arith in rw (t, d, active, q, p) (omega arith)

merge-exact_total :
    (item : ServiceOrderItem) (now : Time) {items changed : List ServiceOrderItem}
    → IsSound item
    → All IsSound items
    → Modified
        (same_item item)
        (λ i. update_quantity i (add_int i.quantity item.quantity) now)
        items
        changed
    → exact_total changed ≡ exact_total items + item.quantity * billed_price item items
merge-exact_total item now si a (found {i} {j} {rest} t e) =
    let merged = merged_quantity item i j now si a.0 e in
    merged_total item i j rest t merged.0 merged.1 merged.2
merge-exact_total item now si a (skipped t m) = ground (arith, merge-exact_total item now si a.1 m)

-- A successful `AddItem` of a sound item that is not deleted raises the exact total by the item's
-- quantity at the billed price: its own price, or that of the item it is merged into.
pub add_item-exact_total :
    (s : ServiceOrder) (item : ServiceOrderItem) (now : Clock) {t : ServiceOrder}
    → IsSound item
    → is_deleted item ≡ false
    → All IsSound s.items
    → add_item s (some item) now ≡ ok t
    → exact_total t.items ≡ exact_total s.items + item.quantity * billed_price item s.items
add_item-exact_total s item now si active a h = elim (add_item_cases s item now h) [
  | inl m ↦ merge-exact_total item (now 0) si a m
  | inr (fresh, e) ↦
      rw (e, exact_total-append_one, billed_price_fresh item s.items fresh, active) (omega arith)
]

-- The quantity times price of the first item of that id that is not deleted.
abbrev pub value_of : String → List ServiceOrderItem → ℕ
value_of item_id [] = 0
value_of item_id (i ∷ rest) =
    let below = value_of item_id rest in
    if has_id item_id i then i.quantity * i.unit_price else below

removed_total :
    (item_id : String) (now : Time) {items changed : List ServiceOrderItem}
    → Modified (has_id item_id) (λ i. ok (mark_as_deleted i now)) items changed
    → exact_total changed + value_of item_id items ≡ exact_total items
unfolding mark_as_deleted
removed_total item_id now (found {i} {j} {rest} t e) = ground arith
removed_total item_id now (skipped {i} t m) = ground (arith, removed_total item_id now m)

-- A successful `RemoveItem` lowers the exact total by the value of the item that it removes.
pub remove_item-exact_total :
    (s : ServiceOrder) (item_id : String) (now : Clock) {t : ServiceOrder}
    → remove_item s item_id now ≡ ok t
    → exact_total t.items + value_of item_id s.items ≡ exact_total s.items
remove_item-exact_total s item_id now h =
    removed_total item_id (now 0) (remove_item-Modified s item_id now h)
