-- ===== src/Service/Growth.antt =====
-- Whatever entry is served, and whatever fails on its way, orders are kept and only legitimate ones
-- are added.
use mathlib.Core.Path.{subst}
use oficina_tech_ms_order_se.Shared.{
  Bool, Bool-cases, List, [], ap, arith, eq_iff, false, if◌then◌else◌, inl, inr, none, refl, some,
  str_eq, sym, true, ◌∙◌, ◌∷◌, ◌≡◌,
}
use oficina_tech_ms_order_se.Domain.Errors.{Result, err, ok}
use oficina_tech_ms_order_se.Domain.Order.{ServiceOrder, is_awaiting_inventory}
use oficina_tech_ms_order_se.Domain.Order.Life.{IsConsistent}
use oficina_tech_ms_order_se.Domain.Status.{received}
use oficina_tech_ms_order_se.Domain.Status.Flow.{here}
use oficina_tech_ms_order_se.Messaging.Consumers.{delete_message}
use oficina_tech_ms_order_se.Messaging.CustomerDeleted.{
  delete_if_open, delete_open_orders, handle_customer_deleted, is_open_for_customer_deletion,
}
use oficina_tech_ms_order_se.Messaging.Decoding.{Message, Wire}
use oficina_tech_ms_order_se.Platform.Evolution.{Safe}
use oficina_tech_ms_order_se.Platform.Monad.{◌>>=◌, Action, World}
use oficina_tech_ms_order_se.Platform.Ports.{Env}
use oficina_tech_ms_order_se.Platform.Rules.{Quiet, Quiet-pure, resumed}
use oficina_tech_ms_order_se.Platform.Silent.{Quiet-of_Silent, Silent-lift}
use oficina_tech_ms_order_se.Platform.Table.{find_row, find_row-save_row, save_row}
use oficina_tech_ms_order_se.Queries.Selection.{find_by_customer_id}
use oficina_tech_ms_order_se.Service.Born.{
  Descends-refl, Grows, IsLegitimate, Grows-refl, Grows-trans, Rows-Grows,
}
use oficina_tech_ms_order_se.Service.Runs.{run-Rows}
use oficina_tech_ms_order_se.Service.Server.{
  Entry, called, created, customer_removed, serve, serve_all,
}
use oficina_tech_ms_order_se.UseCases.Created.{
  create_service_order-Created, create_service_order-err,
}
use oficina_tech_ms_order_se.UseCases.Creation.{CreationInput, create_service_order}
use oficina_tech_ms_order_se.UseCases.Effects.{delete_service_order-Safe}
use oficina_tech_ms_order_se.UseCases.Saving.{stored_order}

-- The action lets the table grow.
record Growing {A : Type 0} (m : Action A) : Type 0 where
  run : (w : World) → Grows w.orders (m w).1.orders

Growing-bind :
    {A B : Type 0} {m : Action A} {f : A → Action B}
    → Growing m
    → ((a : A) → Growing (f a))
    → Growing (m >>= f)
unfolding ◌>>=◌
Growing-bind {m} {f} g h = record {
  run = λ w.
      resumed (λ v. Grows w.orders v.orders) f (m w).0 (m w).1
        (λ a e. Grows-trans w.orders _ _ (g.run w) ((h a).run (m w).1)) (g.run w);
}

Growing-of_Quiet : {A : Type 0} {m : Action A} → Quiet m → Growing m
Growing-of_Quiet q = record { run = λ w. rw (q.run w) (Grows-refl w.orders) }

Growing-of_Safe : {A : Type 0} {m : Action A} → ((o : List ServiceOrder) → Safe o m) → Growing m
Growing-of_Safe s = record { run = λ w. Rows-Grows w.orders _ ((s w.orders).run w refl) }

Growing-if :
    {A : Type 0} (b : Bool) {m n : Action A} → Growing m → Growing n → Growing (if b then m else n)
Growing-if true m n = m
Growing-if false m n = n

Growing-delete_if_open : (env : Env) (s : ServiceOrder) → Growing (delete_if_open env s)
unfolding delete_if_open
Growing-delete_if_open env s =
    Growing-if (is_awaiting_inventory s.saga_status) (Growing-of_Quiet Quiet-pure) (
      Growing-if (is_open_for_customer_deletion s.status)
        (Growing-bind
          (Growing-of_Safe λ o. delete_service_order-Safe env s.id (some "Cliente removido") o)
          λ _. Growing-of_Quiet Quiet-pure)
        (Growing-of_Quiet Quiet-pure))

Growing-delete_open_orders :
    (env : Env) (orders : List ServiceOrder) → Growing (delete_open_orders env orders)
unfolding delete_open_orders
Growing-delete_open_orders env [] = Growing-of_Quiet Quiet-pure
Growing-delete_open_orders env (s ∷ rest) =
    Growing-bind (Growing-delete_if_open env s) λ _. Growing-delete_open_orders env rest

Quiet-delete_message : (wire : Wire) (message : Message) → Quiet (delete_message wire message)
Quiet-delete_message wire message = record { run = λ w. ground arith }

Growing-handle_customer_deleted :
    (wire : Wire) (env : Env) (message : Message)
    → Growing (handle_customer_deleted wire env message)
unfolding handle_customer_deleted find_by_customer_id
Growing-handle_customer_deleted wire env message =
    Growing-bind (Growing-of_Quiet (Quiet-of_Silent (Silent-lift _))) λ event.
      Growing-bind (Growing-of_Quiet (record { run = λ w. refl })) λ orders.
        Growing-bind (Growing-delete_open_orders env orders)
          λ _. Growing-of_Quiet (Quiet-delete_message wire message)

inserted_Grows :
    (s : ServiceOrder) (o : List ServiceOrder)
    → find_row s.id o ≡ none
    → IsLegitimate s
    → Grows o (save_row s o)
inserted_Grows s o fresh l = record {
  kept = λ id t h. elim (Bool-cases (str_eq s.id id)) [
    | inl same ↦
        let ids : s.id ≡ id = (eq_iff s.id id).0 same in
        let both : none ≡ some t = sym fresh ∙ ap (λ k. find_row k o) ids ∙ h in cc
    | inr other ↦ (t, rw (find_row-save_row, other) h, Descends-refl t)
  ];
  added = λ id t missing h. elim (Bool-cases (str_eq s.id id)) [
    | inl same ↦
        let row : some s ≡ some t = rw (find_row-save_row, same) at h in
        let both : s ≡ t = cc in subst IsLegitimate both l
    | inr other ↦
        let row : find_row id o ≡ some t = rw (find_row-save_row, other) at h in
        let both : none ≡ some t = sym missing ∙ row in cc
  ];
}

stored_order-IsLegitimate :
    (t : ServiceOrder) → IsConsistent t → t.status ≡ received → IsLegitimate (stored_order t)
stored_order-IsLegitimate t c status = record {
  consistent = record { valid = c.valid; closing = c.closing; busy = c.busy; at_rest = c.at_rest };
  reached = rw status here;
}

Growing-create_service_order :
    (env : Env) (input : CreationInput) → Growing (create_service_order env input)
Growing-create_service_order env input = record {
  run = λ w. by_result w (create_service_order env input w).0 refl;
}
  where
    by_result :
        (w : World) (r : Result ServiceOrder)
        → (create_service_order env input w).0 ≡ r
        → Grows w.orders (create_service_order env input w).1.orders
    by_result w (err e) h =
        rw (ap (λ v. v.orders) (create_service_order-err env input w e h)) (Grows-refl w.orders)
    by_result w (ok t) h =
        let c = create_service_order-Created env input w t h in
        rw (ap (λ v. v.orders) c.world) (
          inserted_Grows (stored_order t) w.orders c.fresh
            (stored_order-IsLegitimate t c.consistent c.status))

serve-Grows :
    (wire : Wire) (env : Env) (e : Entry) (w : World) → Grows w.orders (serve wire env e w).orders
unfolding serve
serve-Grows wire env (called c) w = Rows-Grows w.orders _ (run-Rows env c w)
serve-Grows wire env (created input) w = (Growing-create_service_order env input).run w
serve-Grows wire env (customer_removed message) w =
    (Growing-handle_customer_deleted wire env message).run w

-- Any run of the whole service, with any failures: no order is lost; each order's status only moves
-- along the workflow, its time of closing is written once and its invariant is kept; and an order that
-- was not there at the start satisfies the invariant at the end and has a status that the workflow
-- reaches from RECEIVED.
pub serve_all-Grows :
    (wire : Wire) (env : Env) (entries : List Entry) (w : World)
    → Grows w.orders (serve_all wire env entries w).orders
unfolding serve_all
serve_all-Grows wire env [] w = Grows-refl w.orders
serve_all-Grows wire env (e ∷ rest) w =
    Grows-trans w.orders (serve wire env e w).orders _ (serve-Grows wire env e w)
      (serve_all-Grows wire env rest (serve wire env e w))
