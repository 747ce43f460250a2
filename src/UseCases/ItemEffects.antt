-- ===== src/UseCases/ItemEffects.antt =====
-- What the loops over items do to an order, and that they write nothing.
use mathlib.Core.Path.{subst}
use oficina_tech_ms_order_se.Shared.{
  All, List, Option, String, [], ap, arith, none, refl, some, ◌∙◌, ◌∷◌, ◌≡◌,
}
use oficina_tech_ms_order_se.Domain.Errors.{ok, ok_injective}
use oficina_tech_ms_order_se.Domain.Item.{Clock, ServiceOrderItem, Time, product, type_eq}
use oficina_tech_ms_order_se.Domain.Order.{ServiceOrder}
use oficina_tech_ms_order_se.Domain.Order.Basket.{add_item, put_items, remove_item}
use oficina_tech_ms_order_se.Domain.Order.Stocked.{IsSound, IsStocked}
use oficina_tech_ms_order_se.Domain.Order.Stocking.{
  add_item-IsStocked, new_service_order_item-IsSound,
}
use oficina_tech_ms_order_se.Platform.Monad.{World, lift, raise_if}
use oficina_tech_ms_order_se.Platform.Outcomes.{>>=-ok}
use oficina_tech_ms_order_se.Platform.Ports.{Env, read_clock}
use oficina_tech_ms_order_se.Platform.Silent.{
  Silent, Silent-bind, Silent-if, Silent-lift, Silent-pure, Silent-raise_if, Silent-read_clock,
}
use oficina_tech_ms_order_se.UseCases.ItemInputs.{
  ItemInput, add_items, build_item, fetch_item_details, item_type_of, validate_and_build_items,
}

-- The order with other items, at another time; nothing else differs.
abbrev pub Refilled : ServiceOrder → ServiceOrder → Type 0
Refilled s t = (items : List ServiceOrderItem) × (now : Time) × (t ≡ put_items s items now)

pub Refilled-refl : (s : ServiceOrder) → Refilled s s
Refilled-refl s = (s.items, s.updated_at, refl)

pub Refilled-trans : (s t u : ServiceOrder) → Refilled s t → Refilled t u → Refilled s u
Refilled-trans s t u (i, n, e) (j, m, f) = (j, m, f ∙ ap (λ x. put_items x j m) e)

pub add_item-Refilled :
    (s : ServiceOrder) (i : Option ServiceOrderItem) (now : Clock) {t : ServiceOrder}
    → add_item s i now ≡ ok t
    → Refilled s t
unfolding add_item
add_item-Refilled s none now h = cc
add_item-Refilled s (some i) now {t} h = (t.items, t.updated_at, ground arith)

pub remove_item-Refilled :
    (s : ServiceOrder) (id : String) (now : Clock) {t : ServiceOrder}
    → remove_item s id now ≡ ok t
    → Refilled s t
unfolding remove_item
remove_item-Refilled s id now {t} h = (t.items, t.updated_at, ground arith)

Silent-build_item : (env : Env) (id : String) (input : ItemInput) → Silent (build_item env id input)
unfolding build_item fetch_item_details
Silent-build_item env id input = Silent-bind (Silent-raise_if _ _) λ _.
    Silent-bind
      (Silent-if (type_eq (item_type_of input.item_type) product) (record { run = λ w. refl })
        (record { run = λ w. refl }))
      λ d. Silent-bind (Silent-read_clock env) λ now. Silent-lift _

pub Silent-validate_and_build_items :
    (env : Env) (id : String) (inputs : List ItemInput)
    → Silent (validate_and_build_items env id inputs)
unfolding validate_and_build_items
Silent-validate_and_build_items env id [] = Silent-pure
Silent-validate_and_build_items env id (input ∷ rest) =
    Silent-bind (Silent-build_item env id input)
      λ item. Silent-bind (Silent-validate_and_build_items env id rest) λ items. Silent-pure

pub Silent-add_items :
    (env : Env) (s : ServiceOrder) (items : List ServiceOrderItem) → Silent (add_items env s items)
unfolding add_items
Silent-add_items env s [] = Silent-pure
Silent-add_items env s (i ∷ rest) =
    Silent-bind (Silent-read_clock env)
      λ now. Silent-bind (Silent-lift _) λ t. Silent-add_items env t rest

build_item-IsSound :
    (env : Env) (id : String) (input : ItemInput) (w : World) {i : ServiceOrderItem}
    → (build_item env id input w).0 ≡ ok i
    → IsSound i
unfolding build_item
build_item-IsSound env id input w h =
    let (_, _, h1, _) = >>=-ok (raise_if _ _) _ w h in
    let (d, _, h2, _) = >>=-ok (fetch_item_details env _ _) _ _ h1 in
    let (now, _, h3, _) = >>=-ok (read_clock env) _ _ h2 in
    new_service_order_item-IsSound id _ input.reference_id d.name input.quantity d.price (now 0) h3

pub validate_and_build_items-IsSound :
    (env : Env) (id : String) (inputs : List ItemInput) (w : World) {items : List ServiceOrderItem}
    → (validate_and_build_items env id inputs w).0 ≡ ok items
    → All IsSound items
unfolding validate_and_build_items
validate_and_build_items-IsSound env id [] w h = subst (All IsSound) (ok_injective h) tt
validate_and_build_items-IsSound env id (input ∷ rest) w h =
    let (i, made, h1, _) = >>=-ok (build_item env id input) _ w h in
    let (below, others, h2, _) = >>=-ok (validate_and_build_items env id rest) _ _ h1 in
    subst (All IsSound) (ok_injective h2) (
      build_item-IsSound env id input w made,
      validate_and_build_items-IsSound env id rest _ others,
    )

-- What every added item keeps, the loop keeps.
pub add_items_keeps :
    (P : ServiceOrder → Type 0) (Q : ServiceOrderItem → Type 0)
    → ((s t : ServiceOrder) (i : ServiceOrderItem) (now : Clock)
        → add_item s (some i) now ≡ ok t
        → Q i
        → P s
        → P t)
    → (env : Env) (s : ServiceOrder) (items : List ServiceOrderItem) (w : World) {t : ServiceOrder}
    → (add_items env s items w).0 ≡ ok t
    → All Q items
    → P s
    → P t
unfolding add_items
add_items_keeps P Q keep env s [] w h sound p = subst P (ok_injective h) p
add_items_keeps P Q keep env s (i ∷ rest) w h sound p =
    let (now, _, h1, _) = >>=-ok (read_clock env) _ w h in
    let (u, added, h2, _) = >>=-ok (lift (add_item s (some i) now)) _ _ h1 in
    add_items_keeps P Q keep env u rest _ h2 sound.1 (keep s u i now added sound.0 p)

-- An order filled with sound items is the order with other items, and they are sound and apart.
pub add_items-IsStocked :
    (env : Env) (s : ServiceOrder) (items : List ServiceOrderItem) (w : World) {t : ServiceOrder}
    → (add_items env s items w).0 ≡ ok t
    → All IsSound items
    → IsStocked s.items
    → Refilled s t × IsStocked t.items
add_items-IsStocked env s items w h sound st =
    add_items_keeps (λ t. Refilled s t × IsStocked t.items) IsSound
      (λ u v i now e k (r, p). (
        Refilled-trans s u v r (add_item-Refilled u (some i) now e),
        add_item-IsStocked u i now e k p,
      ))
      env s items w h sound (Refilled-refl s, st)
