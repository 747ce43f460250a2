-- ===== src/UseCases/Noting.antt =====
-- update_service_order.go: the history of an update, and the deleted items that name it.
use mathlib.Core.Path.{subst}
use oficina_tech_ms_order_se.Shared.{
  Bool, List, Option, String, [], ap, arith, false, is_empty, refl, sym, true, ℕ, ◌++◌, ◌∙◌, ◌∷◌,
  ◌≡◌,
}
use oficina_tech_ms_order_se.Domain.Errors.{ok, ok_injective}
use oficina_tech_ms_order_se.Domain.History.{History, Metadata, new_history}
use oficina_tech_ms_order_se.Domain.Item.{Clock, ServiceOrderItem, Time}
use oficina_tech_ms_order_se.Domain.Order.{ServiceOrder}
use oficina_tech_ms_order_se.Domain.Status.{OrderStatus}
use oficina_tech_ms_order_se.Platform.Monad.{◌>>=◌, World, lift}
use oficina_tech_ms_order_se.Platform.Outcomes.{>>=-ok}
use oficina_tech_ms_order_se.Platform.Ports.{Env, read_clock, step}
use oficina_tech_ms_order_se.UseCases.Renaming.{Renamed, Renamed-refl, link_items-Renamed}
use oficina_tech_ms_order_se.UseCases.Update.{
  link_deleted, captured, save_history, store_history, update_metadata,
}

-- One history of the order was added, and nothing else.
pub record Noted (s : ServiceOrder) (w v : World) : Type 0 where
  pub history : History
  pub of_order : history.service_order_id ≡ s.id
  pub at_status : history.status ≡ s.status
  pub world : v ≡ record w { tick = v.tick; histories = w.histories ++ history ∷ [] }

store_history-ok :
    (env : Env) (h : History) (w : World) {id : String}
    → (store_history env h w).0 ≡ ok id
    → (store_history env h w).1 ≡ record w {
      tick = (store_history env h w).1.tick;
      histories = w.histories ++ record h { id = id } ∷ [];
    }
unfolding store_history ◌>>=◌
store_history-ok env h w e = ground arith

new_history_lem :
    (id : String) (m : Metadata) (st : OrderStatus) (now : Time) {h : History}
    → new_history id m st now ≡ ok h
    → (is_empty id ≡ false) × (h.service_order_id ≡ id) × (h.status ≡ st)
unfolding new_history
new_history_lem id m st now e = ground arith

link_deleted-Renamed :
    (b : Bool) (s : ServiceOrder) (id : String) (now : Clock) {items : List ServiceOrderItem}
    → link_deleted b s id now ≡ ok items
    → Renamed s.items items × (b ≡ false → items ≡ s.items)
link_deleted-Renamed true s id now h = (link_items-Renamed id now 0 s.items h, λ e. cc)
link_deleted-Renamed false s id now h =
    (subst (Renamed s.items) (ok_injective h) (Renamed-refl s.items), λ e. sym (ok_injective h))

-- The order after its history is written: deleted items may name the history.
pub record Linked (b : Bool) (s t : ServiceOrder) : Type 0 where
  pub has_id : is_empty s.id ≡ false
  pub rest : t ≡ record s { items = t.items }
  pub items : Renamed s.items t.items
  pub same_items : b ≡ false → t.items ≡ s.items

noted_world :
    (hs : List History) (v w end : World)
    → end ≡ step v
    → v ≡ record w { tick = v.tick; histories = hs }
    → end ≡ record w { tick = end.tick; histories = hs }
noted_world hs v w end e s =
    e
    ∙ ap step s
    ∙ ap {A = ℕ} {B = World} (λ n. record w { tick = n; histories = hs }) (sym (ap (λ u. u.tick) e))

pub save_history-Linked :
    (env : Env) (s : ServiceOrder) (old : Option ServiceOrder) (b : Bool) (w : World)
    {t : ServiceOrder}
    → (save_history env s old b w).0 ≡ ok t
    → Linked b s t × Noted s w (save_history env s old b w).1
unfolding save_history
save_history-Linked env s old b w h =
    let (first, _, h1, e1) = >>=-ok (lift (captured old)) _ w h in
    let (now, _, h2, e2) = >>=-ok (read_clock env) _ w h1 in
    let (history, made, h3, e3) =
      >>=-ok (lift (new_history s.id (update_metadata first s b) s.status (now 0))) _ (step w) h2 in
    let (id, kept, h4, e4) = >>=-ok (store_history env history) _ (step w) h3 in
    let v = (store_history env history (step w)).1 in
    let (later, _, h5, e5) = >>=-ok (read_clock env) _ v h4 in
    let (items, linked, h6, e6) = >>=-ok (lift (link_deleted b s id later)) _ (step v) h5 in
    let (full, of_order, at_status) = new_history_lem s.id _ s.status (now 0) made in
    let (renamed, same) = link_deleted-Renamed b s id later linked in
    subst (λ x. Linked b s x × Noted s w (save_history env s old b w).1) (ok_injective h6)
      (
        record { has_id = full; rest = refl; items = renamed; same_items = same },
        record {
          history = record history { id = id };
          of_order = of_order;
          at_status = at_status;
          world =
              noted_world (w.histories ++ record history { id = id } ∷ []) v w
                (save_history env s old b w).1 (e1 ∙ e2 ∙ e3 ∙ e4 ∙ e5 ∙ e6)
                (store_history-ok env history (step w) kept);
        },
      )
