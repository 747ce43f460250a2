-- ===== src/Domain/Order/Stocking.antt =====
-- Every item method keeps the items sound and apart, and so does any sequence of calls.
use mathlib.Core.Path.{subst}
use oficina_tech_ms_order_se.Shared.{
  All, Bool, List, String, [], add_int, arith, false, inl, inr, some, ℕ, ◌++◌, ◌∷◌, ◌≡◌, ◌⊎◌,
  Option, is_empty, none, refl,
}
use oficina_tech_ms_order_se.Domain.Errors.{
  Result, ok, err, fail_if, invalid_item_id, ◌>>=◌, ◌>>◌, ok_injective,
}
use oficina_tech_ms_order_se.Domain.Item.{
  Clock, ItemType, ServiceOrderItem, Time, mark_as_deleted, new_service_order_item, update_quantity,
}
use oficina_tech_ms_order_se.Domain.Order.{ServiceOrder}
use oficina_tech_ms_order_se.Domain.Order.Basket.{
  add_item, finish_change, modify_first, same_item, check_open, has_id, put_items, remove_item,
  update_item_quantity,
}
use oficina_tech_ms_order_se.Domain.Order.Stocked.{
  IsApart, IsSound, IsStocked, Keeps, KeepsAll, Modified, Modified-All, Modified-IsApart, clash,
  modify_first-Modified, modify_first-none,
}

-- An item that `NewServiceOrderItem` makes is sound.
pub new_service_order_item-IsSound :
    (service_order_id : String) (item_type : ItemType) (reference_id name : String)
    (quantity unit_price : ℕ) (now : Time) {i : ServiceOrderItem}
    → new_service_order_item service_order_id item_type reference_id name quantity unit_price now
      ≡ ok i
    → IsSound i
unfolding new_service_order_item
new_service_order_item-IsSound s t r n q p now h = ground arith

pub update_quantity-Keeps :
    (q : ℕ) (now : Time) (i j : ServiceOrderItem) → update_quantity i q now ≡ ok j → Keeps i j
unfolding update_quantity
update_quantity-Keeps q now i j h = ground arith

pub update_quantity-IsSound :
    (q : ℕ) (now : Time) (i j : ServiceOrderItem)
    → update_quantity i q now ≡ ok j
    → IsSound i
    → IsSound j
unfolding update_quantity
update_quantity-IsSound q now i j h s = ground arith

mark_as_deleted-Keeps : (now : Time) (i : ServiceOrderItem) → Keeps i (mark_as_deleted i now)
unfolding mark_as_deleted
mark_as_deleted-Keeps now i = ground arith

mark_as_deleted-IsSound :
    (now : Time) (i : ServiceOrderItem) → IsSound i → IsSound (mark_as_deleted i now)
unfolding mark_as_deleted
mark_as_deleted-IsSound now i s = ground arith

-- A changed list of items is as sound and as much apart as the list was.
pub Modified-IsStocked :
    {test : ServiceOrderItem → Bool} {change : ServiceOrderItem → Result ServiceOrderItem}
    {items changed : List ServiceOrderItem}
    → KeepsAll change
    → ((i j : ServiceOrderItem) → IsSound i → change i ≡ ok j → IsSound j)
    → Modified test change items changed
    → IsStocked items
    → IsStocked changed
Modified-IsStocked keep sound m s = record {
  sound = Modified-All IsSound sound m s.sound;
  apart = Modified-IsApart keep m s.apart;
}

pub All-append_one {ℓ κ} :
    {A : Type ℓ} (P : A → Type κ) (xs : List A) (x : A) → All P xs → P x → All P (xs ++ x ∷ [])
All-append_one P [] x a p = (p, tt)
All-append_one P (y ∷ xs) x a p = (a.0, All-append_one P xs x a.1 p)

clash_of_same_item : (i j : ServiceOrderItem) → same_item j i ≡ false → clash i j ≡ false
clash_of_same_item i j h = ground arith

IsApart-append_one :
    (items : List ServiceOrderItem) (item : ServiceOrderItem)
    → All (λ i. same_item item i ≡ false) items
    → IsApart items
    → IsApart (items ++ item ∷ [])
IsApart-append_one [] item n a = (tt, tt)
IsApart-append_one (i ∷ rest) item n a = (
  All-append_one (λ j. clash i j ≡ false) rest item a.0 (clash_of_same_item i item n.0),
  IsApart-append_one rest item n.1 a.1,
)

-- What `AddItem` makes of the result of its loop.
add_outcome :
    (s : ServiceOrder) (item : ServiceOrderItem) (now : Time)
    (o : Option (Result (List ServiceOrderItem))) {t : ServiceOrder}
    → (check_open s >> elim o [
      | some merged ↦ merged >>= λ items. ok (put_items s items now)
      | none ↦ ok (put_items s (s.items ++ item ∷ []) now)
    ])
      ≡ ok t
    → ((ys : List ServiceOrderItem) × (o ≡ some (ok ys)) × (t.items ≡ ys))
      ⊎ ((o ≡ none) × (t.items ≡ s.items ++ item ∷ []))
add_outcome s item now none h = ground arith
add_outcome s item now (some (ok ys)) h = inl (ys, refl, ground arith)
add_outcome s item now (some (err e)) h = ground arith

-- How `AddItem` succeeds: it merges the item into another, or finds none and appends it.
pub add_item_cases :
    (s : ServiceOrder) (item : ServiceOrderItem) (now : Clock) {t : ServiceOrder}
    → add_item s (some item) now ≡ ok t
    → Modified
        (same_item item)
        (λ i. update_quantity i (add_int i.quantity item.quantity) (now 0))
        s.items
        t.items
      ⊎ (All (λ i. same_item item i ≡ false) s.items × (t.items ≡ s.items ++ item ∷ []))
unfolding add_item
add_item_cases s item now h = elim (add_outcome s item (now 1) _ h) [
  | inl (ys, loop, e) ↦ inl (rw e (modify_first-Modified _ _ s.items loop))
  | inr (fresh, e) ↦ inr (modify_first-none item _ s.items fresh, e)
]

pub add_item-IsStocked :
    (s : ServiceOrder) (item : ServiceOrderItem) (now : Clock) {t : ServiceOrder}
    → add_item s (some item) now ≡ ok t
    → IsSound item
    → IsStocked s.items
    → IsStocked t.items
add_item-IsStocked s item now h sound st = elim (add_item_cases s item now h) [
  | inl m ↦
      Modified-IsStocked
        (λ i j e. update_quantity-Keeps (add_int i.quantity item.quantity) (now 0) i j e)
        (λ i j k e. update_quantity-IsSound (add_int i.quantity item.quantity) (now 0) i j e k) m st
  | inr (fresh, e) ↦ rw e (record {
    sound = All-append_one IsSound s.items item st.sound sound;
    apart = IsApart-append_one s.items item fresh st.apart;
  })
]

changed_outcome :
    (s : ServiceOrder) (now : Time) (o : Option (Result (List ServiceOrderItem))) {t : ServiceOrder}
    → finish_change s now o ≡ ok t
    → (ys : List ServiceOrderItem) × (o ≡ some (ok ys)) × (t.items ≡ ys)
changed_outcome s now none h = cc
changed_outcome s now (some (ok ys)) h = (ys, refl, ground arith)
changed_outcome s now (some (err e)) h = cc

-- How `RemoveItem` and `UpdateItemQuantity` succeed.
finish_change_cases :
    (test : ServiceOrderItem → Bool) (change : ServiceOrderItem → Result ServiceOrderItem)
    (s : ServiceOrder) (now : Time) {t : ServiceOrder}
    → finish_change s now (modify_first test change s.items) ≡ ok t
    → Modified test change s.items t.items
finish_change_cases test change s now h =
    let (ys, loop, e) = changed_outcome s now (modify_first test change s.items) h in
    rw e (modify_first-Modified test change s.items loop)

guarded_outcome :
    {t : ServiceOrder} (g : Result (Unit {0})) (r : Result ServiceOrder)
    → (g >> r) ≡ ok t
    → r ≡ ok t
guarded_outcome (ok _) r h = h
guarded_outcome (err e) r h = cc

pub remove_item-Modified :
    (s : ServiceOrder) (item_id : String) (now : Clock) {t : ServiceOrder}
    → remove_item s item_id now ≡ ok t
    → Modified (has_id item_id) (λ i. ok (mark_as_deleted i (now 0))) s.items t.items
unfolding remove_item
remove_item-Modified s item_id now h =
    finish_change_cases (has_id item_id) (λ i. ok (mark_as_deleted i (now 0))) s (now 1)
      (guarded_outcome (check_open s) _
        (guarded_outcome (fail_if (is_empty item_id) invalid_item_id) _ h))

pub update_item_quantity-Modified :
    (s : ServiceOrder) (item_id : String) (q : ℕ) (now : Clock) {t : ServiceOrder}
    → update_item_quantity s item_id q now ≡ ok t
    → Modified (has_id item_id) (λ i. update_quantity i q (now 0)) s.items t.items
unfolding update_item_quantity
update_item_quantity-Modified s item_id q now h =
    finish_change_cases (has_id item_id) (λ i. update_quantity i q (now 0)) s (now 1)
      (guarded_outcome (check_open s) _
        (guarded_outcome (fail_if (is_empty item_id) invalid_item_id) _ h))

pub remove_item-IsStocked :
    (s : ServiceOrder) (item_id : String) (now : Clock) {t : ServiceOrder}
    → remove_item s item_id now ≡ ok t
    → IsStocked s.items
    → IsStocked t.items
remove_item-IsStocked s item_id now h st =
    Modified-IsStocked (λ i j e. subst (Keeps i) (ok_injective e) (mark_as_deleted-Keeps (now 0) i))
      (λ i j sound e. subst IsSound (ok_injective e) (mark_as_deleted-IsSound (now 0) i sound))
      (remove_item-Modified s item_id now h) st
