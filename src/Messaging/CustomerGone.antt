-- ===== src/Messaging/CustomerGone.antt =====
-- customer_deleted.go: the message of a deleted customer leaves the queue only when the customer's
-- open orders were deleted.
use mathlib.Core.Path.{subst}
use oficina_tech_ms_order_se.Shared.{
  All, Any, List, [], false, is_empty, select, some, str_eq, true, ◌∷◌, ◌≡◌, Bool-cases, ap, arith,
  eq_iff, inl, inr, ◌∙◌, String, refl, sym, ◌⊎◌,
}
use oficina_tech_ms_order_se.Domain.Errors.{ok}
use oficina_tech_ms_order_se.Domain.Order.{ServiceOrder, is_awaiting_inventory}
use oficina_tech_ms_order_se.Http.Mapping.{message}
use oficina_tech_ms_order_se.Messaging.Acknowledged.{Quiet-delete_receipt}
use oficina_tech_ms_order_se.Messaging.CustomerDeleted.{
  delete_if_open, delete_open_orders, handle_customer_deleted, is_open_for_customer_deletion,
}
use oficina_tech_ms_order_se.Messaging.Decoding.{
  CustomerDeleted, Message, Wire, decode_customer_deleted,
}
use oficina_tech_ms_order_se.Platform.Monad.{◌>>=◌, World, pure, lift}
use oficina_tech_ms_order_se.Platform.Outcomes.{>>=-ok}
use oficina_tech_ms_order_se.Platform.Ports.{Env, step}
use oficina_tech_ms_order_se.Platform.Table.{find_row, find_row-save_row}
use oficina_tech_ms_order_se.Queries.Members.{order_by-All, query-ok, selected-All}
use oficina_tech_ms_order_se.Queries.Selection.{find_by_customer_id, newest_first, order_by}
use oficina_tech_ms_order_se.UseCases.Deleted.{Cancels, IsCanceled, delete_service_order-Cancels}
use oficina_tech_ms_order_se.UseCases.Deletion.{delete_service_order}

-- In the table, the order of that id is canceled, or waits for the inventory to be.
abbrev IsGone : String → List ServiceOrder → Type 0
IsGone id rows = (t : ServiceOrder) × (find_row id rows ≡ some t) × IsCanceled t

-- What the handler owes an order.
abbrev pub IsSettledBy : List ServiceOrder → ServiceOrder → Type 0
IsSettledBy rows s =
    is_awaiting_inventory s.saga_status ≡ false
    → is_open_for_customer_deletion s.status ≡ true
    → IsGone s.id rows

Cancels-IsGone : (id : String) (w v : World) → Cancels id w v → IsGone id v.orders
Cancels-IsGone id w v (t, at, gone, table) =
    (t, ap (find_row id) table ∙ rw (find_row-save_row, (eq_iff t.id id).1 at) refl, gone)

-- The cancellation of one order leaves the others as they were.
IsGone-kept :
    (id other : String) (w v : World) → Cancels other w v → IsGone id w.orders → IsGone id v.orders
IsGone-kept id other w v (t, at, canceled_now, table) (o, row, gone) =
    elim (Bool-cases (str_eq t.id id)) [
      | inl same ↦ (t, ap (find_row id) table ∙ rw (find_row-save_row, same) refl, canceled_now)
      | inr apart ↦ (o, ap (find_row id) table ∙ rw (find_row-save_row, apart) row, gone)
    ]

-- One turn of the loop either leaves the state alone or cancels the order.
turn :
    (env : Env) (s : ServiceOrder) (w : World) {u : Unit {0}}
    → (delete_if_open env s w).0 ≡ ok u
    → ((is_awaiting_inventory s.saga_status ≡ false
          → is_open_for_customer_deletion s.status ≡ false)
        × ((delete_if_open env s w).1 ≡ w))
      ⊎ Cancels s.id w (delete_if_open env s w).1
unfolding delete_if_open
turn env s w h = elim (Bool-cases (is_awaiting_inventory s.saga_status)) [
  | inl busy ↦ rw busy (inl (λ free. cc, refl))
  | inr free ↦ elim (Bool-cases (is_open_for_customer_deletion s.status)) [
    | inl is_open ↦
        let deletion = delete_service_order env s.id (some "Cliente removido") in
        let ran : ((deletion >>= λ _. pure tt) w).0 ≡ ok _ = rw (free, is_open) at h in
        let (out, done, _, ends) = >>=-ok deletion (λ _. pure tt) w ran in
        let (t, at, gone, table) =
          delete_service_order-Cancels env s.id (some "Cliente removido") w done in
        rw (free, is_open) (inr (t, at, gone, ap (λ v. v.orders) ends ∙ table))
    | inr shut ↦ rw (free, shut) (inl (λ _. refl, refl))
  ]
]

turn-IsGone :
    (env : Env) (s : ServiceOrder) (w : World) (id : String) {u : Unit {0}}
    → (delete_if_open env s w).0 ≡ ok u
    → IsGone id w.orders
    → IsGone id (delete_if_open env s w).1.orders
turn-IsGone env s w id h gone = elim (turn env s w h) [
  | inl (_, same) ↦ subst (λ x. IsGone id x.orders) (sym same) gone
  | inr cancels ↦ IsGone-kept id s.id w (delete_if_open env s w).1 cancels gone
]

turn-IsSettledBy :
    (env : Env) (s : ServiceOrder) (w : World) {u : Unit {0}}
    → (delete_if_open env s w).0 ≡ ok u
    → IsSettledBy (delete_if_open env s w).1.orders s
turn-IsSettledBy env s w h free is_open = elim (turn env s w h) [
  | inl (shut, _) ↦ let off = shut free in cc
  | inr cancels ↦ Cancels-IsGone s.id w (delete_if_open env s w).1 cancels
]

loop-IsGone :
    (env : Env) (orders : List ServiceOrder) (w : World) (id : String) {u : Unit {0}}
    → (delete_open_orders env orders w).0 ≡ ok u
    → IsGone id w.orders
    → IsGone id (delete_open_orders env orders w).1.orders
unfolding delete_open_orders
loop-IsGone env [] w id h gone = gone
loop-IsGone env (s ∷ rest) w id h gone =
    let (_, one, h1, e) = >>=-ok (delete_if_open env s) _ w h in
    subst (λ x. IsGone id x.orders) (sym e)
      (loop-IsGone env rest (delete_if_open env s w).1 id h1 (turn-IsGone env s w id one gone))

loop-IsSettledBy :
    (env : Env) (orders : List ServiceOrder) (w : World) {u : Unit {0}}
    → (delete_open_orders env orders w).0 ≡ ok u
    → All (IsSettledBy (delete_open_orders env orders w).1.orders) orders
unfolding delete_open_orders
loop-IsSettledBy env [] w h = tt
loop-IsSettledBy env (s ∷ rest) w h =
    let (_, one, h1, e) = >>=-ok (delete_if_open env s) _ w h in
    let v = (delete_if_open env s w).1 in
    subst (λ x. All (IsSettledBy x.orders) (s ∷ rest)) (sym e)
      (
        λ free is_open. loop-IsGone env rest v s.id h1 (turn-IsSettledBy env s w one free is_open),
        loop-IsSettledBy env rest v h1,
      )

decoded_customer :
    (wire : Wire) (message : Message) {event : CustomerDeleted}
    → decode_customer_deleted wire message ≡ ok event
    → is_empty event.customer_id ≡ false
unfolding decode_customer_deleted
decoded_customer wire message h = ground arith

-- When the handler succeeds, the message was a deletion of a customer with an id, and every order of
-- that customer that was in the table, open and not waiting for the inventory, is now canceled in the
-- table, or waits for the inventory to be.
pub handle_customer_deleted-IsSettledBy :
    (wire : Wire) (env : Env) (message : Message) (w : World)
    → (handle_customer_deleted wire env message w).0 ≡ ok tt
    → (event : CustomerDeleted) × (decode_customer_deleted wire message ≡ ok event)
      × (is_empty event.customer_id ≡ false)
      × ((s : ServiceOrder)
          → Any (λ o. o ≡ s) w.orders
          → s.customer_id ≡ event.customer_id
          → IsSettledBy (handle_customer_deleted wire env message w).1.orders s)
unfolding handle_customer_deleted find_by_customer_id
handle_customer_deleted-IsSettledBy wire env message w h =
    let (event, decoded, h1, e1) = >>=-ok (lift (decode_customer_deleted wire message)) _ w h in
    let (orders, read, h2, e2) = >>=-ok (find_by_customer_id env event.customer_id) _ w h1 in
    let (_, looped, h3, e3) = >>=-ok (delete_open_orders env orders) _ (step w) h2 in
    let v = (delete_open_orders env orders (step w)).1 in
    let ends =
      ap (λ x. x.orders) (e1 ∙ e2 ∙ e3) ∙ (Quiet-delete_receipt wire message.receipt).run v in
    let mine = λ (s : ServiceOrder). str_eq s.customer_id event.customer_id in
    let all : All (IsSettledBy v.orders) (order_by newest_first (select mine w.orders)) =
      subst (All (IsSettledBy v.orders))
        (query-ok env (λ rows. order_by newest_first (select mine rows)) w read)
        (loop-IsSettledBy env orders (step w) looped) in
    (
      event,
      decoded,
      decoded_customer wire message decoded,
      λ s stands same.
          subst (λ x. IsSettledBy x s) (sym ends)
            (selected-All (IsSettledBy v.orders) mine w.orders s
              (order_by-All (IsSettledBy v.orders) newest_first (select mine w.orders) all) stands
              ((eq_iff s.customer_id event.customer_id).1 same)),
    )
