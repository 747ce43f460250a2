-- ===== src/UseCases/SavingEffects.antt =====
-- What `SaveWithItems` stores, and what it leaves alone.
use mathlib.Core.Path.{subst}
use oficina_tech_ms_order_se.Shared.{
  Bool, Bool-cases, arith, false, inl, inr, is_empty, none, refl, true, ◌++◌, ◌≡◌, List, String, ap,
  sym, ◌+◌, ◌∙◌,
}
use oficina_tech_ms_order_se.Domain.Errors.{Error, err, ok, ok_injective}
use oficina_tech_ms_order_se.Domain.Item.{ServiceOrderItem}
use oficina_tech_ms_order_se.Domain.Order.{ServiceOrder, set_order_id}
use oficina_tech_ms_order_se.Platform.Monad.{◌>>=◌, World, lift, pure}
use oficina_tech_ms_order_se.Platform.Outcomes.{>>=-ok}
use oficina_tech_ms_order_se.Platform.Ports.{Env, step, generate_item_uuids}
use oficina_tech_ms_order_se.Platform.Silent.{
  Silent, Silent-bind, Silent-generate_uuid, Silent-if, Silent-lift, Silent-pure, tick_to,
  Silent-then_err,
}
use oficina_tech_ms_order_se.Platform.Table.{find_row, save_row}
use oficina_tech_ms_order_se.UseCases.ItemLists.{identify_items}
use oficina_tech_ms_order_se.UseCases.Renaming.{
  Renamed, Renamed-owned, Renamed-refl, Renamed-trans, identify_items-Renamed,
}
use oficina_tech_ms_order_se.UseCases.Saving.{
  deleted_rows, identify_new, identify_order, save_rows, stored_order, save_with_items,
}

-- The order with an id and with renamed items.
pub record Identified (s t : ServiceOrder) : Type 0 where
  pub id : is_empty s.id ≡ false → t.id ≡ s.id
  pub rest : t ≡ record s { id = t.id; items = t.items }
  pub items : Renamed s.items t.items

identify_order-Identified :
    (env : Env) (s : ServiceOrder) (w : World) {t : ServiceOrder}
    → (identify_order env s w).0 ≡ ok t
    → Identified s t
unfolding identify_order identify_new set_order_id ◌>>=◌
identify_order-Identified env s w {t} h = elim (Bool-cases (is_empty s.id)) [
  | inl new ↦
      let made = identified_new (rw new at h) in
      record { id = λ old. cc; rest = made.0; items = made.1 }
  | inr old ↦
      let same : s ≡ t = ok_injective (rw old at h) in
      subst (Identified s) same
        (record { id = λ _. refl; rest = refl; items = Renamed-refl s.items })
]
  where
    identified_new :
        (identify_new env s w).0 ≡ ok t
        → (t ≡ record s { id = t.id; items = t.items }) × Renamed s.items t.items
    identified_new h = elim (Bool-cases (is_empty (env.new_uuid w.tick))) [
      | inl bad ↦ let e = rw bad at h in cc
      | inr good ↦
          let e = ok_injective (rw good at h) in
          subst (λ u. (u ≡ record s { id = u.id; items = u.items }) × Renamed s.items u.items) e
            (refl, Renamed-owned (env.new_uuid w.tick) s.items)
    ]

Silent-identify_order : (env : Env) (s : ServiceOrder) → Silent (identify_order env s)
unfolding identify_order identify_new
Silent-identify_order env s =
    Silent-if (is_empty s.id)
      (Silent-bind (Silent-generate_uuid env) λ id. Silent-bind (Silent-lift _) λ t. Silent-pure)
      Silent-pure

-- The tables after the transaction.
abbrev pub with_rows : ServiceOrder → World → World
with_rows s w = record w {
  orders = save_row (stored_order s) w.orders;
  deleted_items = w.deleted_items ++ deleted_rows s;
}

-- What holds when `SaveWithItems` of `s` has returned with `t`.
pub record Saved (s t : ServiceOrder) (w v : World) : Type 0 where
  pub identified : Identified s t
  pub world : v ≡ tick_to v.tick (with_rows t w)
  pub fresh : is_empty s.id ≡ true → find_row t.id w.orders ≡ none

save_rows-ok :
    (env : Env) (is_new : Bool) (t : ServiceOrder) (w : World) {u : Unit {0}}
    → (save_rows env is_new t w).0 ≡ ok u
    → ((save_rows env is_new t w).1 ≡ step (with_rows t w))
      × (is_new ≡ true → find_row t.id w.orders ≡ none)
save_rows-ok env is_new t w h = ground arith

Identified-Renamed :
    (s t : ServiceOrder) (items : List ServiceOrderItem)
    → Identified s t
    → Renamed t.items items
    → Identified s (record t { items = items })
Identified-Renamed s t items i r = record {
  id = i.id;
  rest = ap {A = ServiceOrder} (λ u. record u { items = items }) i.rest;
  items = Renamed-trans i.items r;
}

-- When `SaveWithItems` succeeds, the order is in the table with its items, under ids, and the row
-- of a new order is one that was not there.
pub save_with_items-Saved :
    (env : Env) (s : ServiceOrder) (w : World) {t : ServiceOrder}
    → (save_with_items env s w).0 ≡ ok t
    → Saved s t w (save_with_items env s w).1
unfolding save_with_items
save_with_items-Saved env s w {t} h =
    let (u, first, h1, e1) = >>=-ok (identify_order env s) _ w h in
    let (ids, _, h2, e2) = >>=-ok (generate_item_uuids env) _ _ h1 in
    let (items, given, h3, e3) = >>=-ok (lift (identify_items ids 0 u.items)) _ _ h2 in
    let full = record u { items = items } in
    let v = step (identify_order env s w).1 in
    let (_, wrote, h4, e4) = >>=-ok (save_rows env (is_empty s.id) full) _ v h3 in
    let (ends, fresh) = save_rows-ok env (is_empty s.id) full v wrote in
    let still = (Silent-identify_order env s).run w in
    subst (λ x. Saved s x w (save_with_items env s w).1) (ok_injective h4)
      (record {
        identified =
            Identified-Renamed s u items (identify_order-Identified env s w first)
              (identify_items-Renamed ids 0 u.items given);
        world =
            rewritten full (identify_order env s w).1 w (save_with_items env s w).1
              (e1 ∙ e2 ∙ e3 ∙ e4 ∙ ends) still;
        fresh = λ new. rows_same full.id (identify_order env s w).1 w still (fresh new);
      })
  where
    rewritten :
        (x : ServiceOrder) (v w end : World)
        → end ≡ step (with_rows x (step v))
        → v ≡ tick_to v.tick w
        → end ≡ tick_to end.tick (with_rows x w)
    rewritten x v w end e s =
        e
        ∙ ap (λ u. tick_to (v.tick + 1 + 1) (with_rows x u)) s
        ∙ ap (λ n. tick_to n (with_rows x w)) (sym (ap (λ u. u.tick) e))

    rows_same :
        (id : String) (v w : World)
        → v ≡ tick_to v.tick w
        → find_row id v.orders ≡ none
        → find_row id w.orders ≡ none
    rows_same id v w s h = ap (λ u. find_row id u.orders) (sym s) ∙ h

save_failed :
    (env : Env) (is_new : Bool) (t : ServiceOrder) (v : World) {e : Error}
    → ((save_rows env is_new t >>= λ _. pure t) v).0 ≡ err e
    → ((save_rows env is_new t >>= λ _. pure t) v).1
      ≡ tick_to ((save_rows env is_new t >>= λ _. pure t) v).1.tick v
unfolding ◌>>=◌
save_failed env is_new t v h = ground arith

-- When it fails, nothing is written.
pub save_with_items-err :
    (env : Env) (s : ServiceOrder) (w : World) {e : Error}
    → (save_with_items env s w).0 ≡ err e
    → (save_with_items env s w).1 ≡ tick_to (save_with_items env s w).1.tick w
unfolding save_with_items
save_with_items-err env s w h =
    Silent-then_err (identify_order env s) _ w (Silent-identify_order env s)
      (λ t v h1.
        Silent-then_err (generate_item_uuids env) _ v (record { run = λ w. refl })
          (λ ids v h2.
            Silent-then_err (lift (identify_items ids 0 t.items)) _ v (Silent-lift _)
              (λ items v h3. save_failed env (is_empty s.id) (record t { items = items }) v h3) h2)
          h1)
      h
