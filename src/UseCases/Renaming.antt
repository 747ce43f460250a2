-- ===== src/UseCases/Renaming.antt =====
-- Items that get ids, an order and a history keep their type, reference, quantity and price.
use mathlib.Core.Path.{subst}
use oficina_tech_ms_order_se.Shared.{
  Bool, List, String, [], arith, if◌then◌else◌, map, refl, ◌∷◌, ◌≡◌, All, Bool-cases, false, inl,
  inr, is_empty, is_some, not, select, suc, ℕ, ◌&&◌, ◌∙◌,
}
use oficina_tech_ms_order_se.Domain.Errors.{Result, err, ok, ◌>>=◌, ok_injective}
use oficina_tech_ms_order_se.Domain.Item.{
  ServiceOrderItem, Time, set_history_id, set_id, Clock, is_deleted,
}
use oficina_tech_ms_order_se.Domain.Order.Stocked.{
  Keeps, All-map, IsApart, IsSound, IsStocked, clash, clash_left, clash_right,
}
use oficina_tech_ms_order_se.UseCases.ItemLists.{owned, identify_items, link_items}

-- What an id, an order and a history leave of an item.
pub record Same (i j : ServiceOrderItem) : Type 0 where
  pub keeps : Keeps i j
  pub quantity : j.quantity ≡ i.quantity
  pub unit_price : j.unit_price ≡ i.unit_price
  pub deleted_at : j.deleted_at ≡ i.deleted_at

pub data Renamed : List ServiceOrderItem → List ServiceOrderItem → Type 0 where
  no_items : Renamed [] []
  renamed_more :
      {i j : ServiceOrderItem} {items others : List ServiceOrderItem}
      → Same i j
      → Renamed items others
      → Renamed (i ∷ items) (j ∷ others)

pub Renamed-refl : (items : List ServiceOrderItem) → Renamed items items
Renamed-refl [] = no_items
Renamed-refl (i ∷ rest) =
    renamed_more
      (record {
        keeps = record { same_reference = refl; same_type = refl; stays_deleted = λ h. h };
        quantity = refl;
        unit_price = refl;
        deleted_at = refl;
      })
      (Renamed-refl rest)

pub Renamed-owned :
    (id : String) (items : List ServiceOrderItem) → Renamed items (map (owned id) items)
Renamed-owned id [] = no_items
Renamed-owned id (i ∷ rest) =
    renamed_more
      (record {
        keeps = record { same_reference = refl; same_type = refl; stays_deleted = λ h. h };
        quantity = refl;
        unit_price = refl;
        deleted_at = refl;
      })
      (Renamed-owned id rest)

pub Renamed-trans : {a b c : List ServiceOrderItem} → Renamed a b → Renamed b c → Renamed a c
Renamed-trans no_items no_items = no_items
Renamed-trans (renamed_more s r) (renamed_more t q) =
    renamed_more
      (record {
        keeps = record {
          same_reference = t.keeps.same_reference ∙ s.keeps.same_reference;
          same_type = t.keeps.same_type ∙ s.keeps.same_type;
          stays_deleted = λ h. t.keeps.stays_deleted (s.keeps.stays_deleted h);
        };
        quantity = t.quantity ∙ s.quantity;
        unit_price = t.unit_price ∙ s.unit_price;
        deleted_at = t.deleted_at ∙ s.deleted_at;
      })
      (Renamed-trans r q)

Same-set_id :
    (b : Bool) (i : ServiceOrderItem) (id : String) {j : ServiceOrderItem}
    → (if b then set_id i id else ok i) ≡ ok j
    → Same i j
unfolding set_id
Same-set_id b i id h = ground arith

Same-set_history_id :
    (b : Bool) (i : ServiceOrderItem) (id : String) (now : Time) {j : ServiceOrderItem}
    → (if b then set_history_id i id now else ok i) ≡ ok j
    → Same i j
unfolding set_history_id
Same-set_history_id b i id now h = ground arith

then_ok :
    {A B : Type 0} (r : Result A) (f : A → Result B) {b : B}
    → (r >>= f) ≡ ok b
    → (a : A) × (r ≡ ok a) × (f a ≡ ok b)
then_ok (ok a) f h = (a, refl, h)
then_ok (err e) f h = cc

pub identify_items-Renamed :
    (ids : ℕ → String) (place : ℕ) (items : List ServiceOrderItem) {others : List ServiceOrderItem}
    → identify_items ids place items ≡ ok others
    → Renamed items others
unfolding identify_items
identify_items-Renamed ids place [] h = subst (Renamed []) (ok_injective h) no_items
identify_items-Renamed ids place (i ∷ rest) h =
    let (j, one, h1) = then_ok (if is_empty i.id then set_id i (ids place) else ok i) _ h in
    let (below, more, h2) = then_ok (identify_items ids (suc place) rest) _ h1 in
    subst (Renamed (i ∷ rest)) (ok_injective h2) (
      renamed_more (Same-set_id (is_empty i.id) i (ids place) one)
        (identify_items-Renamed ids (suc place) rest more))

pub link_items-Renamed :
    (id : String) (now : Clock) (place : ℕ) (items : List ServiceOrderItem)
    {others : List ServiceOrderItem}
    → link_items id now place items ≡ ok others
    → Renamed items others
unfolding link_items
link_items-Renamed id now place [] h = subst (Renamed []) (ok_injective h) no_items
link_items-Renamed id now place (i ∷ rest) h =
    let b = is_deleted i && not (is_some i.history_id) in
    let (j, one, h1) = then_ok (if b then set_history_id i id (now place) else ok i) _ h in
    let (below, more, h2) = then_ok (link_items id now (suc place) rest) _ h1 in
    subst (Renamed (i ∷ rest)) (ok_injective h2) (
      renamed_more (Same-set_history_id b i id (now place) one)
        (link_items-Renamed id now (suc place) rest more))

Renamed-All :
    (P : ServiceOrderItem → Type 0) {items others : List ServiceOrderItem}
    → ((i j : ServiceOrderItem) → Same i j → P i → P j)
    → Renamed items others
    → All P items
    → All P others
Renamed-All P f no_items a = tt
Renamed-All P f (renamed_more {i} {j} s r) a = (f i j s a.0, Renamed-All P f r a.1)

Renamed-IsApart :
    {items others : List ServiceOrderItem} → Renamed items others → IsApart items → IsApart others
Renamed-IsApart no_items a = tt
Renamed-IsApart (renamed_more {i} {j} {items} s r) a = (
  Renamed-All (λ k. clash j k ≡ false) (λ k l t c. clash_right j k l t.keeps c) r
      (All-map (λ k. clash i k ≡ false) (λ k. clash j k ≡ false) items
        (λ k. clash_left k i j s.keeps) a.0),
  Renamed-IsApart r a.1,
)

pub Renamed-IsStocked :
    {items others : List ServiceOrderItem}
    → Renamed items others
    → IsStocked items
    → IsStocked others
Renamed-IsStocked r st = record {
  sound = Renamed-All IsSound (λ i j s k. ground arith) r st.sound;
  apart = Renamed-IsApart r st.apart;
}

select-All :
    (P : ServiceOrderItem → Type 0) (p : ServiceOrderItem → Bool) (items : List ServiceOrderItem)
    → All P items
    → All P (select p items)
select-All P p [] a = tt
select-All P p (i ∷ rest) a = elim (Bool-cases (p i)) [
  | inl on ↦ rw on (a.0, select-All P p rest a.1)
  | inr off ↦ rw off (select-All P p rest a.1)
]

select-IsApart :
    (p : ServiceOrderItem → Bool) (items : List ServiceOrderItem)
    → IsApart items
    → IsApart (select p items)
select-IsApart p [] a = tt
select-IsApart p (i ∷ rest) a = elim (Bool-cases (p i)) [
  | inl on ↦ rw on (select-All (λ j. clash i j ≡ false) p rest a.0, select-IsApart p rest a.1)
  | inr off ↦ rw off (select-IsApart p rest a.1)
]

pub select-IsStocked :
    (p : ServiceOrderItem → Bool) (items : List ServiceOrderItem)
    → IsStocked items
    → IsStocked (select p items)
select-IsStocked p items st = record {
  sound = select-All IsSound p items st.sound;
  apart = select-IsApart p items st.apart;
}
