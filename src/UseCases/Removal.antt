-- ===== src/UseCases/Removal.antt =====
-- update_service_order.go: the loop that removes every item of an order, and what the items are
-- after the new ones are added.
use mathlib.Core.Path.{subst}
use oficina_tech_ms_order_se.Shared.{
  List, Option, [], arith, false, none, some, suc, true, zero, ℕ, ◌∷◌, ◌≡◌, All, Bool, Bool-cases,
  ap, eq_refl, inl, inr, length, refl, sym, ◌+◌, ◌∙◌,
}
use oficina_tech_ms_order_se.Domain.Errors.{ok, Result, ok_injective}
use oficina_tech_ms_order_se.Domain.Item.{ServiceOrderItem, Time, is_deleted, mark_as_deleted}
use oficina_tech_ms_order_se.Domain.Order.{ServiceOrder}
use oficina_tech_ms_order_se.Domain.Order.Basket.{has_id, remove_item}
use oficina_tech_ms_order_se.Domain.Order.Stocked.{Modified, found, skipped, IsStocked}
use oficina_tech_ms_order_se.Domain.Order.Stocking.{remove_item-Modified, remove_item-IsStocked}
use oficina_tech_ms_order_se.Platform.Monad.{World, lift}
use oficina_tech_ms_order_se.Platform.Outcomes.{>>=-ok}
use oficina_tech_ms_order_se.Platform.Ports.{Env, read_clock}
use oficina_tech_ms_order_se.Platform.Silent.{
  Silent, Silent-bind, Silent-if, Silent-lift, Silent-pure, Silent-read_clock,
}
use oficina_tech_ms_order_se.UseCases.ItemEffects.{
  Refilled, Refilled-refl, Refilled-trans, remove_item-Refilled,
}
use oficina_tech_ms_order_se.UseCases.ItemLists.{item_at}
use oficina_tech_ms_order_se.UseCases.Update.{remove_at, remove_items}

Silent-remove_at :
    (env : Env) (s : ServiceOrder) (o : Option ServiceOrderItem) → Silent (remove_at env s o)
Silent-remove_at env s none = Silent-pure
Silent-remove_at env s (some i) =
    Silent-if (is_deleted i) Silent-pure (Silent-bind (Silent-read_clock env) λ now. Silent-lift _)

pub Silent-remove_items :
    (env : Env) (olds : List ServiceOrderItem) (place : ℕ) (s : ServiceOrder)
    → Silent (remove_items env olds place s)
unfolding remove_items
Silent-remove_items env [] place s = Silent-pure
Silent-remove_items env (_ ∷ rest) place s =
    Silent-bind (Silent-remove_at env s _) λ t. Silent-remove_items env rest (suc place) t

-- The first `n` of the items are deleted.
abbrev DeletedTo : ℕ → List ServiceOrderItem → Type 0
DeletedTo n [] = Unit
DeletedTo zero (i ∷ rest) = Unit
DeletedTo (suc n) (i ∷ rest) = (is_deleted i ≡ true) × DeletedTo n rest

DeletedTo-zero : (items : List ServiceOrderItem) → DeletedTo 0 items
DeletedTo-zero [] = tt
DeletedTo-zero (i ∷ rest) = tt

-- Where the items up to a place are deleted, the item of that place is the first of its id that is
-- not: the change marks it, and the items up to the next place are deleted.
Modified-DeletedTo :
    (now : Time) (place : ℕ) (i : ServiceOrderItem) {items changed : List ServiceOrderItem}
    → Modified (has_id i.id) (λ j. ok (mark_as_deleted j now)) items changed
    → DeletedTo place items
    → item_at place items ≡ some i
    → is_deleted i ≡ false
    → DeletedTo (suc place) changed
unfolding item_at mark_as_deleted
Modified-DeletedTo now zero i (found {rest} t e) d at live = (ground arith, DeletedTo-zero rest)
Modified-DeletedTo now zero i (skipped {i = j} t m) d at live =
    let same : j ≡ i = cc in absurd (not_skipped i live (subst (λ k. has_id i.id k ≡ false) same t))
  where
    not_skipped : (i : ServiceOrderItem) → is_deleted i ≡ false → has_id i.id i ≡ false → ⊥
    not_skipped i live h = ground (arith, eq_refl i.id)
Modified-DeletedTo now (suc place) i (found t e) d at live = ground arith
Modified-DeletedTo now (suc place) i (skipped t m) d at live =
    (d.0, Modified-DeletedTo now place i m d.1 at live)

Modified-length :
    {test : ServiceOrderItem → Bool} {change : ServiceOrderItem → Result ServiceOrderItem}
    {items changed : List ServiceOrderItem}
    → Modified test change items changed
    → length changed ≡ length items
Modified-length (found t e) = refl
Modified-length (skipped t m) = ap suc (Modified-length m)

-- No item stands at the place, or a deleted one does.
DeletedTo-suc :
    (place : ℕ) (items : List ServiceOrderItem)
    → DeletedTo place items
    → ((i : ServiceOrderItem) → item_at place items ≡ some i → is_deleted i ≡ true)
    → DeletedTo (suc place) items
unfolding item_at
DeletedTo-suc place [] d h = tt
DeletedTo-suc zero (i ∷ rest) d h = (h i refl, DeletedTo-zero rest)
DeletedTo-suc (suc place) (i ∷ rest) d h = (d.0, DeletedTo-suc place rest d.1 h)

-- The loop's state before the turn for a place.
record Cleared (first : ServiceOrder) (place : ℕ) (s : ServiceOrder) : Type 0 where
  deleted : DeletedTo place s.items
  size : length s.items ≡ length first.items
  refilled : Refilled first s
  stocked : IsStocked first.items → IsStocked s.items

removed_at-Cleared :
    (env : Env) (first s : ServiceOrder) (place : ℕ) (o : Option ServiceOrderItem) (w : World)
    {t : ServiceOrder}
    → item_at place s.items ≡ o
    → (remove_at env s o w).0 ≡ ok t
    → Cleared first place s
    → Cleared first (suc place) t
removed_at-Cleared env first s place none w at h c =
    subst (Cleared first (suc place)) (ok_injective h) (record {
      deleted = DeletedTo-suc place s.items c.deleted λ i e. let clash' = sym at ∙ e in cc;
      size = c.size;
      refilled = c.refilled;
      stocked = c.stocked;
    })
removed_at-Cleared env first s place (some i) w at h c = elim (Bool-cases (is_deleted i)) [
  | inl gone ↦ subst (Cleared first (suc place)) (ok_injective (rw gone at h)) (record {
    deleted = DeletedTo-suc place s.items c.deleted λ j e. let both = sym at ∙ e in ground arith;
    size = c.size;
    refilled = c.refilled;
    stocked = c.stocked;
  })
  | inr live ↦
      let (now, _, removed, _) =
        >>=-ok (read_clock env) (λ now. lift (remove_item s i.id now)) w (rw live at h) in
      let m = remove_item-Modified s i.id now removed in
      record {
        deleted = Modified-DeletedTo (now 0) place i m c.deleted at live;
        size = Modified-length m ∙ c.size;
        refilled = Refilled-trans first s _ c.refilled (remove_item-Refilled s i.id now removed);
        stocked = λ st. remove_item-IsStocked s i.id now removed (c.stocked st);
      }
]

remove_items-Cleared :
    (env : Env) (first : ServiceOrder) (olds : List ServiceOrderItem) (place : ℕ) (s : ServiceOrder)
    (w : World) {t : ServiceOrder}
    → (remove_items env olds place s w).0 ≡ ok t
    → Cleared first place s
    → (n : ℕ) × (n ≡ place + length olds) × Cleared first n t
unfolding remove_items
remove_items-Cleared env first [] place s w h c =
    (place, omega arith, subst (Cleared first place) (ok_injective h) c)
remove_items-Cleared env first (_ ∷ rest) place s w h c =
    let (u, one, h1, _) = >>=-ok (remove_at env s (item_at place s.items)) _ w h in
    let (n, e, d) =
      remove_items-Cleared env first rest (suc place) u _ h1
        (removed_at-Cleared env first s place (item_at place s.items) w refl one c) in
    (n, omega arith, d)

DeletedTo-All :
    (n : ℕ) (items : List ServiceOrderItem)
    → DeletedTo n items
    → length items ≡ n
    → All (λ i. is_deleted i ≡ true) items
DeletedTo-All n [] d e = tt
DeletedTo-All zero (i ∷ rest) d e = ground arith
DeletedTo-All (suc n) (i ∷ rest) d e = (d.0, DeletedTo-All n rest d.1 (ground arith))

-- When the loop over the order's own items ends, every item is deleted; nothing but the items and
-- the time is changed.
pub remove_items-All :
    (env : Env) (s : ServiceOrder) (w : World) {t : ServiceOrder}
    → (remove_items env s.items 0 s w).0 ≡ ok t
    → All (λ i. is_deleted i ≡ true) t.items
      × Refilled s t
      × (IsStocked s.items → IsStocked t.items)
remove_items-All env s w {t} h =
    let (n, e, c) = remove_items-Cleared env s s.items 0 s w h (record {
      deleted = DeletedTo-zero s.items;
      size = refl;
      refilled = Refilled-refl s;
      stocked = λ st. st;
    }) in
    (DeletedTo-All n t.items c.deleted (c.size ∙ omega arith), c.refilled, c.stocked)
