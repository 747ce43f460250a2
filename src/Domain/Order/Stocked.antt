-- ===== src/Domain/Order/Stocked.antt =====
-- The invariant of an order's items under the item methods.
use mathlib.Core.Option
use mathlib.Core.Path.{subst}
use oficina_tech_ms_order_se.Shared.{
  All, Bool, IsPositive, List, [], arith, false, none, not, some, true, ◌&&◌, ◌∷◌, ◌≡◌, Bool-cases,
  Option, inl, inr, refl,
}
use oficina_tech_ms_order_se.Domain.Errors.{Result, ok, err, ◌>>=◌}
use oficina_tech_ms_order_se.Domain.Item.{ServiceOrderItem, is_deleted}
use oficina_tech_ms_order_se.Domain.Order.Basket.{modify_first, same_item}

-- An item that `NewServiceOrderItem` accepts: its quantity and its price are positive.
pub record IsSound (i : ServiceOrderItem) : Type 0 where
  pub some_quantity : IsPositive i.quantity
  pub some_price : IsPositive i.unit_price

-- Two items that `AddItem` should have merged.
abbrev pub clash : ServiceOrderItem → ServiceOrderItem → Bool
clash i j = not (is_deleted j) && same_item j i

-- No two items of the list that are not deleted have the same type and reference.
abbrev pub IsApart : List ServiceOrderItem → Type 0
IsApart [] = Unit
IsApart (i ∷ rest) = All (λ j. clash i j ≡ false) rest × IsApart rest

pub record IsStocked (items : List ServiceOrderItem) : Type 0 where
  pub sound : All IsSound items
  pub apart : IsApart items

-- What the changes of the item methods keep of an item.
pub record Keeps (i j : ServiceOrderItem) : Type 0 where
  pub same_reference : j.reference_id ≡ i.reference_id
  pub same_type : j.item_type ≡ i.item_type
  pub stays_deleted : is_deleted i ≡ true → is_deleted j ≡ true

abbrev pub KeepsAll : (ServiceOrderItem → Result ServiceOrderItem) → Type 0
KeepsAll change = (i j : ServiceOrderItem) → change i ≡ ok j → Keeps i j

-- A pass of `modify_first` that changed an item: the first that passes the test.
pub data Modified (test : ServiceOrderItem → Bool)
    (change : ServiceOrderItem → Result ServiceOrderItem)
    : List ServiceOrderItem → List ServiceOrderItem → Type 0 where
  found :
      {i j : ServiceOrderItem} {rest : List ServiceOrderItem}
      → test i ≡ true
      → change i ≡ ok j
      → Modified test change (i ∷ rest) (j ∷ rest)
  skipped :
      {i : ServiceOrderItem} {rest changed : List ServiceOrderItem}
      → test i ≡ false
      → Modified test change rest changed
      → Modified test change (i ∷ rest) (i ∷ changed)

module _ {test : ServiceOrderItem → Bool}
    {change : ServiceOrderItem → Result ServiceOrderItem} where
  found_head :
      (i : ServiceOrderItem) (rest : List ServiceOrderItem) (c : Result ServiceOrderItem)
      → test i ≡ true
      → change i ≡ c
      → {changed : List ServiceOrderItem} → some (c >>= λ j. ok (j ∷ rest)) ≡ some (ok changed)
      → Modified test change (i ∷ rest) changed
  found_head i rest (ok j) t e h =
      let same : j ∷ rest ≡ _ = cc in subst (Modified test change (i ∷ rest)) same (found t e)
  found_head i rest (err x) t e h = cc

  skipped_head :
      (i : ServiceOrderItem) (rest : List ServiceOrderItem)
      (below : Option (Result (List ServiceOrderItem)))
      → test i ≡ false
      → ((ys : List ServiceOrderItem) → below ≡ some (ok ys) → Modified test change rest ys)
      → {changed : List ServiceOrderItem}
      → Option.map (λ r. r >>= λ js. ok (i ∷ js)) below ≡ some (ok changed)
      → Modified test change (i ∷ rest) changed
  skipped_head i rest none t later h = cc
  skipped_head i rest (some (err x)) t later h = cc
  skipped_head i rest (some (ok js)) t later h =
      let same : i ∷ js ≡ _ = cc in
      subst (Modified test change (i ∷ rest)) same (skipped t (later js refl))

pub modify_first-Modified :
    (test : ServiceOrderItem → Bool) (change : ServiceOrderItem → Result ServiceOrderItem)
    (items : List ServiceOrderItem) {changed : List ServiceOrderItem}
    → modify_first test change items ≡ some (ok changed)
    → Modified test change items changed
unfolding modify_first
modify_first-Modified test change [] h = cc
modify_first-Modified test change (i ∷ rest) {changed} h = elim (Bool-cases (test i)) [
  | inl t ↦ found_head i rest (change i) t refl (rw t at h)
  | inr t ↦
      skipped_head i rest (modify_first test change rest) t
        (λ ys e. modify_first-Modified test change rest e) (rw t at h)
]

pub Modified-All :
    (P : ServiceOrderItem → Type 0) {test : ServiceOrderItem → Bool}
    {change : ServiceOrderItem → Result ServiceOrderItem} {items changed : List ServiceOrderItem}
    → ((i j : ServiceOrderItem) → P i → change i ≡ ok j → P j)
    → Modified test change items changed
    → All P items
    → All P changed
Modified-All P keep (found {i} {j} t e) a = (keep i j a.0 e, a.1)
Modified-All P keep (skipped t m) a = (a.0, Modified-All P keep m a.1)

pub clash_right : (i j k : ServiceOrderItem) → Keeps j k → clash i j ≡ false → clash i k ≡ false
clash_right i j k s h = ground arith

pub clash_left : (i j k : ServiceOrderItem) → Keeps j k → clash j i ≡ false → clash k i ≡ false
clash_left i j k s h = ground arith

pub modify_first-none :
    (item : ServiceOrderItem) (change : ServiceOrderItem → Result ServiceOrderItem)
    (items : List ServiceOrderItem)
    → modify_first (same_item item) change items ≡ none
    → All (λ i. same_item item i ≡ false) items
unfolding modify_first
modify_first-none item change [] h = tt
modify_first-none item change (i ∷ rest) h = ground (arith, modify_first-none item change rest)

pub All-map :
    (P Q : ServiceOrderItem → Type 0) (items : List ServiceOrderItem)
    → ((i : ServiceOrderItem) → P i → Q i)
    → All P items
    → All Q items
All-map P Q [] f a = tt
All-map P Q (i ∷ rest) f a = (f i a.0, All-map P Q rest f a.1)

pub Modified-IsApart :
    {test : ServiceOrderItem → Bool} {change : ServiceOrderItem → Result ServiceOrderItem}
    {items changed : List ServiceOrderItem}
    → KeepsAll change
    → Modified test change items changed
    → IsApart items
    → IsApart changed
Modified-IsApart keep (found {i} {j} {rest} t e) a = (
  All-map (λ k. clash i k ≡ false) (λ k. clash j k ≡ false) rest
      (λ k. clash_left k i j (keep i j e)) a.0,
  a.1,
)
Modified-IsApart keep (skipped {i} t m) a = (
  Modified-All (λ k. clash i k ≡ false) (λ j k c e. clash_right i j k (keep j k e) c) m a.0,
  Modified-IsApart keep m a.1,
)
