-- ===== src/UseCases/Updated.antt =====
-- What an update of an order stores when it succeeds.
use mathlib.Core.Path.{subst}
use oficina_tech_ms_order_se.Shared.{
  All, Bool, List, Option, [], ap, false, is_empty, none, some, sym, true, ◌++◌, ◌∷◌, ◌≡◌, String,
  arith, is_some, map, not, refl, ◌∙◌, Bool-cases, inl, inr, ◌||◌,
}
use oficina_tech_ms_order_se.Domain.Errors.{ok, ok_injective, service_order_deleted}
use oficina_tech_ms_order_se.Domain.History.{History, capture_order_state, filter_active_items}
use oficina_tech_ms_order_se.Domain.Item.{ServiceOrderItem, is_deleted}
use oficina_tech_ms_order_se.Domain.Order.{ServiceOrder, can_modify_items, order_is_deleted}
use oficina_tech_ms_order_se.Domain.Order.Stocked.{IsStocked}
use oficina_tech_ms_order_se.Domain.Status.{diagnosing, received, status_eq}
use oficina_tech_ms_order_se.Platform.Monad.{World, pure, raise_if}
use oficina_tech_ms_order_se.Platform.Outcomes.{>>=-ok, save_order-ok, find_by_id-ok}
use oficina_tech_ms_order_se.Platform.Ports.{Env, find_by_id, save_order, step}
use oficina_tech_ms_order_se.Platform.Silent.{Silent, Silent-pure}
use oficina_tech_ms_order_se.Platform.Table.{find_row, save_row}
use oficina_tech_ms_order_se.UseCases.Created.{IsOwned, raise_if-ok}
use oficina_tech_ms_order_se.UseCases.Details.{
  detailed, Silent-validate_and_update, validate_and_update-Detailed,
}
use oficina_tech_ms_order_se.UseCases.ItemEffects.{Refilled, Refilled-refl}
use oficina_tech_ms_order_se.UseCases.ItemInputs.{ItemInput}
use oficina_tech_ms_order_se.UseCases.ItemLists.{owned}
use oficina_tech_ms_order_se.UseCases.Noting.{save_history-Linked}
use oficina_tech_ms_order_se.UseCases.Renaming.{
  Renamed, Renamed-IsStocked, Renamed-owned, Renamed-refl, Renamed-trans, select-IsStocked, Same,
  no_items, renamed_more,
}
use oficina_tech_ms_order_se.UseCases.Replacement.{
  IsNamedBy, Replaced, Silent-replace_items, replace_items-Replaced, Accounted, Keeps-Accounted,
}
use oficina_tech_ms_order_se.UseCases.Saving.{stored_order}
use oficina_tech_ms_order_se.UseCases.SavingEffects.{Identified, save_with_items-Saved}
use oficina_tech_ms_order_se.UseCases.Update.{
  UpdateInput, save_updated, update_items, save_history, update_service_order,
  validate_and_update_customer_vehicle,
}

-- The items of the order as they are stored: untouched without new items; else only items that the
-- input names, while the order could still be modified.
abbrev ItemsOutcome :
    Option (List ItemInput) → ServiceOrder → List ServiceOrderItem → List ServiceOrderItem → Type 0
ItemsOutcome none s items rows = (items ≡ s.items) × (rows ≡ s.items)
ItemsOutcome (some inputs) s items rows =
    (can_modify_items s ≡ true) × All (IsNamedBy inputs) rows × (IsStocked s.items → IsStocked rows)

-- The update with `input` of the stored order `s` took `w` to `v`, answered with `t` and stored
-- `row`.
pub record Updated (env : Env) (input : UpdateInput) (s : ServiceOrder) (w : World)
    (t row : ServiceOrder) (v : World) : Type 0 where
  pub at_hand : find_row input.id w.orders ≡ some s
  pub kept : order_is_deleted s ≡ false
  pub frame : t ≡ record (detailed input s t.updated_at) { items = t.items }
  pub stored : row ≡ record t { items = row.items }
  pub written : v.orders ≡ save_row row w.orders
  pub owner : is_empty t.vehicle_id ≡ false → IsOwned env t.vehicle_id t.customer_id
  pub items : ItemsOutcome input.items s t.items row.items
  pub noted :
      (h : History) × (h.service_order_id ≡ s.id)
      × (h.status ≡ s.status)
      × (v.histories ≡ w.histories ++ h ∷ [])

-- The order between the items and the history.
abbrev Refitted : Option (List ItemInput) → ServiceOrder → ServiceOrder → Type 0
Refitted none s t = t ≡ s
Refitted (some inputs) s t = Replaced inputs s t

update_items-Refitted :
    (env : Env) (s : ServiceOrder) (o : Option (List ItemInput)) (w : World) {t : ServiceOrder}
    → (update_items env s o w).0 ≡ ok t
    → Refitted o s t
update_items-Refitted env s none w h = sym (ok_injective h)
update_items-Refitted env s (some inputs) w h = replace_items-Replaced env s inputs w h

pub Silent-update_items :
    (env : Env) (s : ServiceOrder) (o : Option (List ItemInput)) → Silent (update_items env s o)
Silent-update_items env s none = Silent-pure
Silent-update_items env s (some inputs) = Silent-replace_items env s inputs

-- The row that `Save` or `SaveWithItems` writes.
abbrev row_of : Bool → ServiceOrder → ServiceOrder
row_of true t = stored_order t
row_of false t = t

save_order_histories :
    (env : Env) (s : ServiceOrder) (w : World) → (save_order env s w).1.histories ≡ w.histories
save_order_histories env s w = ground arith

save_updated-ok :
    (env : Env) (s : ServiceOrder) (b : Bool) (w : World) {t : ServiceOrder}
    → (save_updated env s b w).0 ≡ ok t
    → Identified s t
      × (b ≡ false → t ≡ s)
      × ((save_updated env s b w).1.orders ≡ save_row (row_of b t) w.orders)
      × ((save_updated env s b w).1.histories ≡ w.histories)
save_updated-ok env s true w h =
    let saved = save_with_items-Saved env s w h in
    (saved.identified, λ e. cc, ap (λ u. u.orders) saved.world, ap (λ u. u.histories) saved.world)
save_updated-ok env s false w h =
    let (_, wrote, h1, e1) = >>=-ok (save_order env s) (λ _. pure s) w h in
    let same : s ≡ _ = ok_injective h1 in
    subst
      (λ t.
        Identified s t
        × (false ≡ false → t ≡ s)
        × ((save_updated env s false w).1.orders ≡ save_row (row_of false t) w.orders)
        × ((save_updated env s false w).1.histories ≡ w.histories))
      same
      (
        record { id = λ _. refl; rest = refl; items = Renamed-refl s.items },
        λ _. refl,
        ap (λ u. u.orders) e1 ∙ save_order-ok env s w wrote,
        ap (λ u. u.histories) e1 ∙ save_order_histories env s w,
      )

Accounted-stored :
    (inputs : List ItemInput) (id : String) {items others : List ServiceOrderItem}
    → Renamed items others
    → All (Accounted inputs) items
    → All (IsNamedBy inputs) (map (owned id) (filter_active_items others))
Accounted-stored inputs id no_items a = tt
Accounted-stored inputs id (renamed_more {i} {j} {items} {others} s r) a =
    elim (Bool-cases (is_deleted j)) [
      | inl gone ↦ rw gone (Accounted-stored inputs id r a.1)
      | inr live ↦ rw live (named_still i j s live a.0, Accounted-stored inputs id r a.1)
    ]
  where
    named_still :
        (i j : ServiceOrderItem)
        → Same i j
        → is_deleted j ≡ false
        → Accounted inputs i
        → IsNamedBy inputs j
    named_still i j s live a = elim (Keeps-Accounted inputs i j s.keeps a) [
      | inl gone ↦ let both : true ≡ false = sym gone ∙ live in cc
      | inr known ↦ known
    ]

-- The order's items after an update, from those between the items and the history.
outcome_of :
    (o : Option (List ItemInput)) (s u x y t : ServiceOrder)
    → s.items ≡ u.items
    → s.status ≡ u.status
    → Refitted o u x
    → Renamed x.items y.items
    → (is_some o ≡ false → y.items ≡ x.items)
    → Renamed y.items t.items
    → (is_some o ≡ false → t ≡ y)
    → ItemsOutcome o s t.items (row_of (is_some o) t).items
unfolding can_modify_items
outcome_of none s u x y t items status refitted r same q last = ground arith
outcome_of (some inputs) s u x y t items status refitted r same q last =
    let all = Renamed-trans r q in
    (
      ap (λ st. status_eq st received || status_eq st diagnosing) status ∙ refitted.modifiable,
      Accounted-stored inputs t.id all refitted.accounted,
      λ st. Renamed-IsStocked (Renamed-owned t.id _) (
          select-IsStocked (λ i. not (is_deleted i)) t.items
            (Renamed-IsStocked all (refitted.stocked (subst IsStocked items st)))),
    )

Refitted-Refilled :
    (o : Option (List ItemInput)) (u x : ServiceOrder) → Refitted o u x → Refilled u x
Refitted-Refilled none u x e = subst (Refilled u) (sym e) (Refilled-refl u)
Refitted-Refilled (some inputs) u x r = r.refilled

frame_of :
    (input : UpdateInput) (s u x y t : ServiceOrder)
    → u ≡ detailed input s u.updated_at
    → Refilled u x
    → y ≡ record x { items = y.items }
    → t ≡ record y { id = t.id; items = t.items }
    → t.id ≡ y.id
    → t ≡ record (detailed input s t.updated_at) { items = t.items }
frame_of input s u x y t d (items, now, e) l i same = ground arith

row_of_lem : (b : Bool) (t : ServiceOrder) → row_of b t ≡ record t { items = (row_of b t).items }
row_of_lem true t = refl
row_of_lem false t = refl

owner_of :
    (env : Env) (u t : ServiceOrder)
    → u.vehicle_id ≡ t.vehicle_id
    → u.customer_id ≡ t.customer_id
    → (is_empty u.vehicle_id ≡ false → IsOwned env u.vehicle_id u.customer_id)
    → is_empty t.vehicle_id ≡ false
    → IsOwned env t.vehicle_id t.customer_id
owner_of env u t v c own e =
    subst (λ k. IsOwned env k t.customer_id) v
      (subst (IsOwned env u.vehicle_id) c (own (ap is_empty v ∙ e)))

-- An update that succeeds: the order was stored and not deleted, and it is stored again with the
-- given customer, vehicle and description; but for these, its items and the time of the change, it is
-- the same order, with the same status and saga. A vehicle that it names is its customer's. Without
-- new items its items stay; with them the order was RECEIVED or DIAGNOSING, every item stored is one
-- that the input names, and if the items were sound and apart before, they are so again. One history
-- is added, of this order and with its status.
pub update_service_order-Updated :
    (env : Env) (input : UpdateInput) (w : World) (t : ServiceOrder)
    → (update_service_order env input w).0 ≡ ok t
    → (s row : ServiceOrder) × Updated env input s w t row (update_service_order env input w).1
unfolding update_service_order
update_service_order-Updated env input w t h =
    let (s, found_it, h1, e1) = >>=-ok (find_by_id env input.id) _ w h in
    let (_, alive, h2, e2) =
      >>=-ok (raise_if (order_is_deleted s) service_order_deleted) _ (step w) h1 in
    let (u, details, h3, e3) =
      >>=-ok (validate_and_update_customer_vehicle env s input) _ (step w) h2 in
    let v1 = (validate_and_update_customer_vehicle env s input (step w)).1 in
    let (x, refitted, h4, e4) = >>=-ok (update_items env u input.items) _ v1 h3 in
    let v2 = (update_items env u input.items v1).1 in
    let b = is_some input.items in
    let (y, linked, h5, e5) = >>=-ok (save_history env x (capture_order_state s) b) _ v2 h4 in
    let v3 = (save_history env x (capture_order_state s) b v2).1 in
    let quiet_1 = (Silent-validate_and_update env s input).run (step w) in
    let quiet_2 = (Silent-update_items env u input.items).run v1 in
    let d = validate_and_update-Detailed env s input (step w) details in
    let f = update_items-Refitted env u input.items v1 refitted in
    let (l, n) = save_history-Linked env x (capture_order_state s) b v2 linked in
    let (i, last, orders, histories) = save_updated-ok env y b v3 h5 in
    let refilled = Refitted-Refilled input.items u x f in
    let same_id : t.id ≡ y.id = i.id (ap (λ k. is_empty k.id) l.rest ∙ l.has_id) in
    let frame = frame_of input s u x y t d.frame refilled l.rest i.rest same_id in
    (
      s,
      row_of b t,
      record {
        at_hand = find_by_id-ok env input.id w found_it;
        kept = raise_if-ok (order_is_deleted s) service_order_deleted (step w) alive;
        frame = frame;
        stored = row_of_lem b t;
        written =
            ap (λ k. k.orders) (e1 ∙ e2 ∙ e3 ∙ e4 ∙ e5)
            ∙ orders
            ∙ ap (save_row (row_of b t)) (
                ap (λ k. k.orders) n.world
                ∙ ap (λ k. k.orders) quiet_2
                ∙ ap (λ k. k.orders) quiet_1);
        owner =
            owner_of env u t (ap (λ k. k.vehicle_id) d.frame ∙ sym (ap (λ k. k.vehicle_id) frame))
              (ap (λ k. k.customer_id) d.frame ∙ sym (ap (λ k. k.customer_id) frame)) d.owner;
        items =
            outcome_of input.items s u x y t (sym (ap (λ k. k.items) d.frame))
              (sym (ap (λ k. k.status) d.frame)) f l.items l.same_items i.items last;
        noted = (
          n.history,
          n.of_order ∙ ap (λ k. k.id) refilled.2 ∙ ap (λ k. k.id) d.frame,
          n.at_status ∙ ap (λ k. k.status) refilled.2 ∙ ap (λ k. k.status) d.frame,
          ap (λ k. k.histories) (e1 ∙ e2 ∙ e3 ∙ e4 ∙ e5)
              ∙ histories
              ∙ ap (λ k. k.histories) n.world
              ∙ ap (λ hs. hs ++ n.history ∷ [])
                  (ap (λ k. k.histories) quiet_2 ∙ ap (λ k. k.histories) quiet_1),
        );
      },
    )
