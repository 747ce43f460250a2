-- ===== src/UseCases/Replacement.antt =====
-- update_service_order.go: what is known of an order whose items were replaced.
use mathlib.Core.Path.{subst}
use oficina_tech_ms_order_se.Shared.{
  All, Any, List, String, [], add_int, inl, inr, some, sym, true, ℕ, ◌∷◌, ◌≡◌, ◌⊎◌, arith,
}
use oficina_tech_ms_order_se.Domain.Errors.{ok, ok_injective}
use oficina_tech_ms_order_se.Domain.Item.{
  Clock, ServiceOrderItem, Time, is_deleted, new_service_order_item, ItemType,
}
use oficina_tech_ms_order_se.Domain.Order.{ServiceOrder, can_modify_items}
use oficina_tech_ms_order_se.Domain.Order.Basket.{add_item}
use oficina_tech_ms_order_se.Domain.Order.Stocked.{Keeps, Modified-All, All-map, IsSound, IsStocked}
use oficina_tech_ms_order_se.Domain.Order.Stocking.{
  All-append_one, add_item_cases, update_quantity-Keeps, add_item-IsStocked,
}
use oficina_tech_ms_order_se.Platform.Monad.{World, raise_if}
use oficina_tech_ms_order_se.Platform.Outcomes.{>>=-ok}
use oficina_tech_ms_order_se.Platform.Ports.{Env, read_clock}
use oficina_tech_ms_order_se.Platform.Silent.{Silent, Silent-bind, Silent-raise_if}
use oficina_tech_ms_order_se.UseCases.ItemEffects.{
  Refilled, Refilled-refl, Refilled-trans, Silent-add_items, Silent-validate_and_build_items,
  add_item-Refilled, add_items_keeps, validate_and_build_items-IsSound,
}
use oficina_tech_ms_order_se.UseCases.ItemInputs.{
  ItemInput, build_item, fetch_item_details, item_type_of, validate_and_build_items, add_items,
}
use oficina_tech_ms_order_se.UseCases.Removal.{Silent-remove_items, remove_items-All}
use oficina_tech_ms_order_se.UseCases.Update.{remove_items, replace_items}

-- The input names this reference and type.
abbrev IsRequested : List ItemInput → String → ItemType → Type 0
IsRequested inputs reference_id item_type =
    Any (λ k. (reference_id ≡ k.reference_id) × (item_type ≡ item_type_of k.item_type)) inputs

abbrev pub IsNamedBy : List ItemInput → ServiceOrderItem → Type 0
IsNamedBy inputs i = IsRequested inputs i.reference_id i.item_type

made_for :
    (id : String) (ty : ItemType) (r n : String) (q p : ℕ) (now : Time) {i : ServiceOrderItem}
    → new_service_order_item id ty r n q p now ≡ ok i
    → (i.reference_id ≡ r) × (i.item_type ≡ ty)
unfolding new_service_order_item
made_for id ty r n q p now h = ground arith

build_item-IsNamedBy :
    (env : Env) (id : String) (input : ItemInput) (w : World) {i : ServiceOrderItem}
    → (build_item env id input w).0 ≡ ok i
    → (i.reference_id ≡ input.reference_id) × (i.item_type ≡ item_type_of input.item_type)
unfolding build_item
build_item-IsNamedBy env id input w h =
    let (_, _, h1, _) = >>=-ok (raise_if _ _) _ w h in
    let (d, _, h2, _) = >>=-ok (fetch_item_details env _ _) _ _ h1 in
    let (now, _, h3, _) = >>=-ok (read_clock env) _ _ h2 in
    made_for id (item_type_of input.item_type) input.reference_id d.name input.quantity d.price
      (now 0) h3

more_named :
    (input : ItemInput) (rest : List ItemInput) (items : List ServiceOrderItem)
    → All (IsNamedBy rest) items
    → All (IsNamedBy (input ∷ rest)) items
more_named input rest [] a = tt
more_named input rest (i ∷ items) a = (inr a.0, more_named input rest items a.1)

validate_and_build_items-IsNamedBy :
    (env : Env) (id : String) (inputs : List ItemInput) (w : World) {items : List ServiceOrderItem}
    → (validate_and_build_items env id inputs w).0 ≡ ok items
    → All (IsNamedBy inputs) items
unfolding validate_and_build_items
validate_and_build_items-IsNamedBy env id [] w h = subst (All (IsNamedBy [])) (ok_injective h) tt
validate_and_build_items-IsNamedBy env id (input ∷ rest) w h =
    let (i, made, h1, _) = >>=-ok (build_item env id input) _ w h in
    let (below, others, h2, _) = >>=-ok (validate_and_build_items env id rest) _ _ h1 in
    subst (All (IsNamedBy (input ∷ rest))) (ok_injective h2) (
      inl (build_item-IsNamedBy env id input w made),
      more_named input rest below (validate_and_build_items-IsNamedBy env id rest _ others),
    )

-- An item that is deleted, or that the input names.
abbrev pub Accounted : List ItemInput → ServiceOrderItem → Type 0
Accounted inputs i = (is_deleted i ≡ true) ⊎ IsNamedBy inputs i

pub Keeps-Accounted :
    (inputs : List ItemInput) (i j : ServiceOrderItem)
    → Keeps i j
    → Accounted inputs i
    → Accounted inputs j
Keeps-Accounted inputs i j k (inl gone) = inl (k.stays_deleted gone)
Keeps-Accounted inputs i j k (inr known) = inr (
    subst (IsRequested inputs j.reference_id) (sym k.same_type)
      (subst (λ r. IsRequested inputs r i.item_type) (sym k.same_reference) known))

added-Accounted :
    (inputs : List ItemInput) (s : ServiceOrder) (i : ServiceOrderItem) (now : Clock)
    {t : ServiceOrder}
    → add_item s (some i) now ≡ ok t
    → IsNamedBy inputs i
    → All (Accounted inputs) s.items
    → All (Accounted inputs) t.items
added-Accounted inputs s i now h known a = elim (add_item_cases s i now h) [
  | inl m ↦
      Modified-All (Accounted inputs)
        (λ j k b e.
          Keeps-Accounted inputs j k
            (update_quantity-Keeps (add_int j.quantity i.quantity) (now 0) j k e) b)
        m a
  | inr (fresh, e) ↦ rw e (All-append_one (Accounted inputs) s.items i a (inr known))
]

pair_All :
    (P Q : ServiceOrderItem → Type 0) (items : List ServiceOrderItem)
    → All P items
    → All Q items
    → All (λ i. P i × Q i) items
pair_All P Q [] a b = tt
pair_All P Q (i ∷ rest) a b = ((a.0, b.0), pair_All P Q rest a.1 b.1)

-- What the items are when an update has replaced them.
pub record Replaced (inputs : List ItemInput) (s t : ServiceOrder) : Type 0 where
  pub refilled : Refilled s t
  pub modifiable : can_modify_items s ≡ true
  pub stocked : IsStocked s.items → IsStocked t.items
  pub accounted : All (Accounted inputs) t.items

add_items-Accounted :
    (env : Env) (inputs : List ItemInput) (s : ServiceOrder) (items : List ServiceOrderItem)
    (w : World) {t : ServiceOrder}
    → (add_items env s items w).0 ≡ ok t
    → All IsSound items
    → All (IsNamedBy inputs) items
    → All (Accounted inputs) s.items
    → Refilled s t × (IsStocked s.items → IsStocked t.items) × All (Accounted inputs) t.items
add_items-Accounted env inputs s items w h sound known a =
    add_items_keeps
      (λ t. Refilled s t × (IsStocked s.items → IsStocked t.items) × All (Accounted inputs) t.items)
      (λ i. IsSound i × IsNamedBy inputs i)
      (λ u v i now e (k, n) (r, st, p). (
        Refilled-trans s u v r (add_item-Refilled u (some i) now e),
        λ x. add_item-IsStocked u i now e k (st x),
        added-Accounted inputs u i now e n p,
      ))
      env s items w h (pair_All IsSound (IsNamedBy inputs) items sound known)
      (Refilled-refl s, λ x. x, a)

pub replace_items-Replaced :
    (env : Env) (s : ServiceOrder) (inputs : List ItemInput) (w : World) {t : ServiceOrder}
    → (replace_items env s inputs w).0 ≡ ok t
    → Replaced inputs s t
unfolding replace_items
replace_items-Replaced env s inputs w {t} h =
    let (_, allowed, h1, _) = >>=-ok (raise_if _ _) _ w h in
    let (items, built, h2, _) = >>=-ok (validate_and_build_items env s.id inputs) _ w h1 in
    let v = (validate_and_build_items env s.id inputs w).1 in
    let (u, removed, added, _) = >>=-ok (remove_items env s.items 0 s) _ v h2 in
    let (gone, emptied, kept) = remove_items-All env s v removed in
    let (filled, stocked, accounted) =
      add_items-Accounted env inputs u items (remove_items env s.items 0 s v).1 added
        (validate_and_build_items-IsSound env s.id inputs w built)
        (validate_and_build_items-IsNamedBy env s.id inputs w built)
        (All-map (λ i. is_deleted i ≡ true) (Accounted inputs) u.items (λ i e. inl e) gone) in
    record {
      refilled = Refilled-trans s u t emptied filled;
      modifiable = ground arith;
      stocked = λ st. stocked (kept st);
      accounted = accounted;
    }

pub Silent-replace_items :
    (env : Env) (s : ServiceOrder) (inputs : List ItemInput) → Silent (replace_items env s inputs)
unfolding replace_items
Silent-replace_items env s inputs = Silent-bind (Silent-raise_if _ _) λ _.
    Silent-bind (Silent-validate_and_build_items env s.id inputs)
      λ items. Silent-bind (Silent-remove_items env s.items 0 s) λ t. Silent-add_items env t items
