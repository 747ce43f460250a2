-- ===== src/Domain/Order/Refinement.antt =====
-- service_order.go: the methods refine updates of the map from references and types to quantities.
use mathlib.Core.Path.{subst}
use oficina_tech_ms_order_se.Shared.{
  All, Bool-cases, List, String, ap, arith, false, if◌then◌else◌, inl, inr, none, refl, some, sym,
  true, ℕ, ◌+◌, ◌∙◌, ◌∷◌, ◌≡◌, ◌⊎◌,
}
use oficina_tech_ms_order_se.Domain.Errors.{Result, ok, ok_injective}
use oficina_tech_ms_order_se.Domain.Item.{
  Clock, ItemType, ServiceOrderItem, Time, is_deleted, mark_as_deleted, update_quantity,
}
use oficina_tech_ms_order_se.Domain.Order.{ServiceOrder}
use oficina_tech_ms_order_se.Domain.Order.Basket.{add_item, clear_items, has_id}
use oficina_tech_ms_order_se.Domain.Order.Calls.{
  Call, clear, item_added, item_removed, item_updated, perform,
}
use oficina_tech_ms_order_se.Domain.Order.Contents.{
  AddsLive, abstractly, contents, contents-append_one, contents_apart, counts_for, has_id_live,
  merge-contents, put_at, put_for, put_for_apart, put_for_local,
}
use oficina_tech_ms_order_se.Domain.Order.Stocked.{
  IsApart, IsStocked, Modified, clash, found, skipped,
}
use oficina_tech_ms_order_se.Domain.Order.Stocking.{
  add_item_cases, remove_item-Modified, update_item_quantity-Modified,
}
use oficina_tech_ms_order_se.Domain.Order.Untouched.{perform_untouched}

-- What a change leaves of an item: the quantity `q` at its place.
abbrev LeavesQuantity : ℕ → ServiceOrderItem → ServiceOrderItem → Type 0
LeavesQuantity q i j =
    (j.reference_id ≡ i.reference_id)
    × (j.item_type ≡ i.item_type)
    × (((is_deleted j ≡ false) × (j.quantity ≡ q)) ⊎ ((is_deleted j ≡ true) × (q ≡ 0)))

changed_at :
    (q : ℕ) (i j : ServiceOrderItem) (rest : List ServiceOrderItem) (r : String) (ty : ItemType)
    → is_deleted i ≡ false
    → All (λ k. clash i k ≡ false) rest
    → LeavesQuantity q i j
    → contents (j ∷ rest) r ty ≡ put_at i.reference_id i.item_type q (contents (i ∷ rest)) r ty
changed_at q i j rest r ty live a (refs, types, left) =
    let none_else : counts_for i r ty ≡ true → contents rest r ty ≡ 0 =
      λ h. contents_apart i rest r ty a h in
    ground arith

Modified-contents :
    (item_id : String) (alter : ServiceOrderItem → Result ServiceOrderItem) (q : ℕ) (r : String)
    (ty : ItemType) {items changed : List ServiceOrderItem}
    → ((i j : ServiceOrderItem) → has_id item_id i ≡ true → alter i ≡ ok j → LeavesQuantity q i j)
    → IsApart items
    → Modified (has_id item_id) alter items changed
    → contents changed r ty ≡ put_for item_id items q (contents items) r ty
Modified-contents item_id alter q r ty leaves a (found {i} {j} {rest} t e) =
    rw t (changed_at q i j rest r ty (has_id_live item_id i t) a.0 (leaves i j t e))
Modified-contents item_id alter q r ty leaves a (skipped {i} {rest} {changed} t m) =
    let below = Modified-contents item_id alter q r ty leaves a.1 m in
    elim (Bool-cases (counts_for i r ty)) [
      | inl counts ↦
          ap (λ n. if counts_for i r ty then i.quantity + n else n)
            (below ∙ put_for_apart i item_id rest q (contents rest) r ty a.0 counts)
          ∙ sym (rw t (put_for_apart i item_id rest q (contents (i ∷ rest)) r ty a.0 counts))
      | inr other ↦
          let head_off : contents (i ∷ changed) r ty ≡ contents changed r ty = rw other refl in
          let rest_off : contents rest r ty ≡ contents (i ∷ rest) r ty = rw other refl in
          head_off
          ∙ below
          ∙ rw t (put_for_local item_id rest q (contents rest) (contents (i ∷ rest)) r ty rest_off)
    ]

removal_leaves :
    (now : Time) (i j : ServiceOrderItem) → ok (mark_as_deleted i now) ≡ ok j → LeavesQuantity 0 i j
unfolding mark_as_deleted
removal_leaves now i j e =
    subst (LeavesQuantity 0 i) (ok_injective e) (refl, refl, inr (refl, refl))

update_leaves :
    (item_id : String) (q : ℕ) (now : Time) (i j : ServiceOrderItem)
    → has_id item_id i ≡ true
    → update_quantity i q now ≡ ok j
    → LeavesQuantity q i j
unfolding update_quantity
update_leaves item_id q now i j t e = ground arith

same_contents :
    (s t : ServiceOrder) (r : String) (ty : ItemType)
    → t.items ≡ s.items
    → contents t.items r ty ≡ contents s.items r ty
same_contents s t r ty e = ap (λ items. contents items r ty) e

-- Every method of an order whose items are sound and apart does to the quantities what its
-- abstract counterpart does: adding an item raises the quantity of its reference and type by its own,
-- removing one puts it to nothing, updating one puts it to the new quantity, clearing leaves none, and
-- no other method touches any.
pub perform-abstractly :
    (c : Call) (now : Clock) (s t : ServiceOrder) (r : String) (ty : ItemType)
    → AddsLive c
    → IsStocked s.items
    → perform c now s ≡ ok t
    → contents t.items r ty ≡ abstractly c s.items (contents s.items) r ty
unfolding perform abstractly
perform-abstractly (item_added (some i)) now s t r ty a st h = elim (add_item_cases s i now h) [
  | inl m ↦ merge-contents i (now 0) r ty a.0 st.sound m
  | inr (fresh, e) ↦ rw e (contents-append_one s.items i r ty a.1)
]
perform-abstractly (item_added none) now s t r ty a st h = unfold add_item in cc
perform-abstractly (item_removed k) now s t r ty a st h =
    Modified-contents k (λ i. ok (mark_as_deleted i (now 0))) 0 r ty
      (λ i j _ e. removal_leaves (now 0) i j e) st.apart (remove_item-Modified s k now h)
perform-abstractly (item_updated k q) now s t r ty a st h =
    Modified-contents k (λ i. update_quantity i q (now 0)) q r ty
      (λ i j on e. update_leaves k q (now 0) i j on e) st.apart
      (update_item_quantity-Modified s k q now h)
perform-abstractly clear now s t r ty a st h =
    unfold clear_items in ap (λ x. contents x.items r ty) (sym (ok_injective h))
perform-abstractly c now s t r ty a st h = same_contents s t r ty (perform_untouched c now s tt h)
