-- ===== src/Domain/Order/Contents.antt =====
-- The items of an order as what they stand for: a quantity for each reference of each type. The
-- methods of service_order.go that change the items refine updates of this map at one place.
use oficina_tech_ms_order_se.Shared.{
  All, Bool, List, String, [], add_int, ap, arith, eq_iff, false, if◌then◌else◌, not, refl, some,
  str_eq, true, ℕ, ◌&&◌, ◌++◌, ◌+◌, ◌∷◌, ◌≡◌, sym, Bool-cases, eq_refl, inl, inr, ◌∙◌,
}
use oficina_tech_ms_order_se.Domain.Item.{
  ItemType, ServiceOrderItem, Time, is_deleted, other_type, type_eq, update_quantity,
}
use oficina_tech_ms_order_se.Domain.Order.Basket.{has_id, same_item}
use oficina_tech_ms_order_se.Domain.Order.Calls.{
  Call, clear, item_added, item_removed, item_updated,
}
use oficina_tech_ms_order_se.Domain.Order.Stocked.{IsSound, Modified, found, skipped, clash}
use oficina_tech_ms_order_se.Domain.Order.Stocking.{update_quantity-Keeps}
use oficina_tech_ms_order_se.Domain.Order.Totals.{merged_quantity}

-- The quantity of a reference of a type.
abbrev pub Contents : Type 0
Contents = String → ItemType → ℕ

-- The item counts for this reference and type.
abbrev pub counts_for : ServiceOrderItem → String → ItemType → Bool
counts_for i r ty = not (is_deleted i) && (str_eq i.reference_id r && type_eq i.item_type ty)

abbrev pub contents : List ServiceOrderItem → Contents
contents [] r ty = 0
contents (i ∷ rest) r ty =
    let below = contents rest r ty in if counts_for i r ty then i.quantity + below else below

-- The map with a quantity added, or put, at one place.
abbrev raise_at : String → ItemType → ℕ → Contents → Contents
raise_at r ty q b r' ty' = if str_eq r r' && type_eq ty ty' then b r' ty' + q else b r' ty'

abbrev pub put_at : String → ItemType → ℕ → Contents → Contents
put_at r ty q b r' ty' = if str_eq r r' && type_eq ty ty' then q else b r' ty'

-- The same at the place of the item of an id; an id that no item has changes nothing.
abbrev pub put_for : String → List ServiceOrderItem → ℕ → Contents → Contents
put_for item_id [] q b = b
put_for item_id (i ∷ rest) q b =
    let below = put_for item_id rest q b in
    if has_id item_id i then put_at i.reference_id i.item_type q b else below

-- What a method does to the map.
unfoldable pub abstractly : Call → List ServiceOrderItem → Contents → Contents
abstractly (item_added (some i)) items b = raise_at i.reference_id i.item_type i.quantity b
abstractly (item_removed item_id) items b = put_for item_id items 0 b
abstractly (item_updated item_id q) items b = put_for item_id items q b
abstractly clear items b = λ r ty. 0
abstractly _ items b = b

-- A client adds items that `NewServiceOrderItem` accepts and that are not deleted.
abbrev pub AddsLive : Call → Type 0
AddsLive (item_added (some i)) = IsSound i × (is_deleted i ≡ false)
AddsLive _ = Unit

type_eq-eq : (a b : ItemType) → type_eq a b ≡ true → a ≡ b
type_eq-eq (other_type s) (other_type t) h = ap other_type ((eq_iff s t).0 h)
type_eq-eq _ b h = ground arith

-- Two items of one reference and type count alike.
counts_alike :
    (i j : ServiceOrderItem) (r : String) (ty : ItemType)
    → i.reference_id ≡ j.reference_id
    → i.item_type ≡ j.item_type
    → is_deleted i ≡ is_deleted j
    → counts_for i r ty ≡ counts_for j r ty
counts_alike i j r ty a b d = rw (a, b, d) refl

pub contents-append_one :
    (items : List ServiceOrderItem) (i : ServiceOrderItem) (r : String) (ty : ItemType)
    → is_deleted i ≡ false
    → contents (items ++ i ∷ []) r ty
      ≡ raise_at i.reference_id i.item_type i.quantity (contents items) r ty
contents-append_one [] i r ty live = ground arith
contents-append_one (j ∷ items) i r ty live = ground (arith, contents-append_one items i r ty live)

same_item_place :
    (item i : ServiceOrderItem)
    → same_item item i ≡ true
    → (is_deleted i ≡ false) × (i.reference_id ≡ item.reference_id) × (i.item_type ≡ item.item_type)
same_item_place item i h =
    ground (arith, eq_iff i.reference_id item.reference_id, type_eq-eq i.item_type item.item_type)

one_merged :
    (b : Bool) (x y z : ℕ)
    → (if b then x + y + z else z)
      ≡ (if b then (if b then x + z else z) + y else (if b then x + z else z))
one_merged b x y z = ground arith

pub merge-contents :
    (item : ServiceOrderItem) (now : Time) (r : String) (ty : ItemType)
    {items changed : List ServiceOrderItem}
    → IsSound item
    → All IsSound items
    → Modified
        (same_item item)
        (λ i. update_quantity i (add_int i.quantity item.quantity) now)
        items
        changed
    → contents changed r ty
      ≡ raise_at item.reference_id item.item_type item.quantity (contents items) r ty
merge-contents item now r ty si a (found {i} {j} {rest} t e) =
    let (q, _, d) = merged_quantity item i j now si a.0 e in
    let k = update_quantity-Keeps (add_int i.quantity item.quantity) now i j e in
    let (live, same_reference, same_type) = same_item_place item i t in
    rw (k.same_reference, k.same_type, same_reference, same_type, d, live, q)
      (one_merged (str_eq item.reference_id r && type_eq item.item_type ty) i.quantity item.quantity
        (contents rest r ty))
merge-contents item now r ty si a (skipped {i} {rest} {changed} t m) =
    ground (arith, merge-contents item now r ty si a.1 m)

type_eq_refl : (a : ItemType) → type_eq a a ≡ true
type_eq_refl (other_type s) = eq_refl s
type_eq_refl _ = refl

-- Two items that are not deleted and that are apart stand at two places.
other_place :
    (i j : ServiceOrderItem) (r : String) (ty : ItemType)
    → clash i j ≡ false
    → counts_for i r ty ≡ true
    → is_deleted j ≡ false
    → (str_eq j.reference_id r && type_eq j.item_type ty) ≡ false
other_place i j r ty apart h live =
    elim (Bool-cases (str_eq j.reference_id r && type_eq j.item_type ty)) [
      | inr differs ↦ differs
      | inl same ↦
          let (live_i, ref_i, type_i) = counted i r ty h in
          let (ref_j, type_j) = at_place (str_eq j.reference_id r) (type_eq j.item_type ty) same in
          let refs : i.reference_id ≡ j.reference_id =
            ref_i ∙ sym ((eq_iff j.reference_id r).0 ref_j) in
          let types : i.item_type ≡ j.item_type = type_i ∙ sym (type_eq-eq j.item_type ty type_j) in
          let clashes : clash i j ≡ true =
            rw (live, live_i, refs, types, eq_refl j.reference_id, type_eq_refl j.item_type) refl in
          let both : true ≡ false = sym clashes ∙ apart in cc
    ]
  where
    at_place : (x y : Bool) → (x && y) ≡ true → (x ≡ true) × (y ≡ true)
    at_place x y h = ground arith

    counted :
        (i : ServiceOrderItem) (r : String) (ty : ItemType)
        → counts_for i r ty ≡ true
        → (is_deleted i ≡ false) × (i.reference_id ≡ r) × (i.item_type ≡ ty)
    counted i r ty h = ground (arith, eq_iff i.reference_id r, type_eq-eq i.item_type ty)

pub has_id_live :
    (item_id : String) (j : ServiceOrderItem) → has_id item_id j ≡ true → is_deleted j ≡ false
has_id_live item_id j h = ground arith

-- Elsewhere than at the place of the item, the map stays.
pub put_for_apart :
    (i : ServiceOrderItem) (item_id : String) (rest : List ServiceOrderItem) (q : ℕ) (b : Contents)
    (r : String) (ty : ItemType)
    → All (λ j. clash i j ≡ false) rest
    → counts_for i r ty ≡ true
    → put_for item_id rest q b r ty ≡ b r ty
put_for_apart i item_id [] q b r ty a h = refl
put_for_apart i item_id (j ∷ rest) q b r ty a h = elim (Bool-cases (has_id item_id j)) [
  | inl it ↦ rw (it, other_place i j r ty a.0 h (has_id_live item_id j it)) refl
  | inr other ↦ rw other (put_for_apart i item_id rest q b r ty a.1 h)
]

pub put_for_local :
    (item_id : String) (rest : List ServiceOrderItem) (q : ℕ) (b b' : Contents) (r : String)
    (ty : ItemType)
    → b r ty ≡ b' r ty
    → put_for item_id rest q b r ty ≡ put_for item_id rest q b' r ty
put_for_local item_id [] q b b' r ty e = e
put_for_local item_id (j ∷ rest) q b b' r ty e =
    ground (arith, put_for_local item_id rest q b b' r ty e)

-- No item of the list stands at the place of one that it is apart from.
pub contents_apart :
    (i : ServiceOrderItem) (rest : List ServiceOrderItem) (r : String) (ty : ItemType)
    → All (λ j. clash i j ≡ false) rest
    → counts_for i r ty ≡ true
    → contents rest r ty ≡ 0
contents_apart i [] r ty a h = refl
contents_apart i (j ∷ rest) r ty a h = elim (Bool-cases (is_deleted j)) [
  | inl gone ↦ rw gone (contents_apart i rest r ty a.1 h)
  | inr live ↦ rw (live, other_place i j r ty a.0 h live) (contents_apart i rest r ty a.1 h)
]
