-- ===== src/Saga/Starting.antt =====
-- The start of a saga: what it stores, and what a message that is lost leaves behind.
use oficina_tech_ms_order_se.Shared.{
  Option, String, [], ap, arith, eq_iff, false, if◌then◌else◌, is_empty, none, refl, some, true, ℕ,
  ◌++◌, ◌+◌, ◌∙◌, ◌∷◌, ◌≡◌, ◌⊎◌,
}
use oficina_tech_ms_order_se.Domain.Errors.{is_ok, ok}
use oficina_tech_ms_order_se.Domain.Order.{
  ServiceOrder, awaiting_inventory, get_product_items, is_awaiting_inventory, order_is_deleted,
  start_saga,
}
use oficina_tech_ms_order_se.Domain.Status.{OrderStatus, is_valid}
use oficina_tech_ms_order_se.Domain.Stock.{StockOperation}
use oficina_tech_ms_order_se.Platform.Monad.{◌>>=◌, Action, InventoryRequest, World, lift, pure}
use oficina_tech_ms_order_se.Platform.Outcomes.{>>=_resumed, find_by_id_found, save_order_ran}
use oficina_tech_ms_order_se.Platform.Ports.{
  Env, find_by_id, generate_uuid, publish_request, read_clock, save_order, step,
}
use oficina_tech_ms_order_se.Platform.Table.{find_row, find_row-save_row, find_row_id, save_row}
use oficina_tech_ms_order_se.Saga.Orchestrator.{
  check_free, finish_local, has_no_items, send_request, start_async, start_order_saga,
}
use oficina_tech_ms_order_se.Saga.Values.{StartResult, inventory_items}

-- The request for an operation on the products of an order.
abbrev pub request_for : String → ServiceOrder → StockOperation → InventoryRequest
request_for saga_id s op = record {
  saga_id = saga_id;
  order_id = s.id;
  operation = op;
  items = inventory_items s;
}

-- What `StartSaga` needs to get as far as its message: the order is there, free, not deleted and has
-- products, the target is a status, the generator gives an id, and the database answers.
pub record CanStart (env : Env) (id : String) (target : OrderStatus) (w : World) (s : ServiceOrder)
    : Type 0 where
  pub row : find_row id w.orders ≡ some s
  pub answers : env.find_error w.tick id ≡ none
  pub kept : order_is_deleted s ≡ false
  pub free : is_awaiting_inventory s.saga_status ≡ false
  pub stocked : has_no_items (inventory_items s) ≡ false
  pub valid : is_valid target ≡ true
  pub identified : is_empty (env.new_uuid (w.tick + 1)) ≡ false
  pub saves : (tick : ℕ) (t : ServiceOrder) → env.save_error tick t ≡ none

-- The order that waits for the answer to a saga, and what it kept of the order before.
pub record Awaits (saga_id : String) (target : OrderStatus) (s t : ServiceOrder) : Type 0 where
  pub waits : t.saga_status ≡ awaiting_inventory
  pub current : t.current_saga_id ≡ some saga_id
  pub towards : t.saga_target_status ≡ some target
  pub same_id : t.id ≡ s.id
  pub same_status : t.status ≡ s.status
  pub same_products : inventory_items t ≡ inventory_items s

-- The order as `StartSaga` stores it.
abbrev pub as_started : Env → OrderStatus → Option String → World → ServiceOrder → ServiceOrder
as_started env target notes w s = record s {
  saga_status = awaiting_inventory;
  current_saga_id = some (env.new_uuid (w.tick + 1));
  saga_target_status = some target;
  saga_notes = notes;
  updated_at = env.now (w.tick + 1 + 1) 0;
}

-- The state in which it calls the publisher.
abbrev stored : Env → OrderStatus → Option String → World → ServiceOrder → World
stored env target notes w s =
    step (record (step (step (step w))) {
      orders = save_row (as_started env target notes w s) w.orders;
    })

abbrev publishing :
    Env → StockOperation → OrderStatus → Option String → World → ServiceOrder → Action StartResult
publishing env op target notes w s =
    publish_request env (request_for (env.new_uuid (w.tick + 1)) s op) >>= λ _. pure (record {
      order = as_started env target notes w s;
      saga_id = env.new_uuid (w.tick + 1);
      async = true;
    })

start_saga_ok :
    (env : Env) (id : String) (target : OrderStatus) (notes : Option String) (w : World)
    (s : ServiceOrder)
    → CanStart env id target w s
    → start_saga s (env.new_uuid (w.tick + 1)) target notes (env.now (w.tick + 1 + 1) 0)
      ≡ ok (as_started env target notes w s)
unfolding start_saga
start_saga_ok env id target notes w s c = rw (c.identified, c.valid) refl

pub check_free_ok :
    (s : ServiceOrder)
    → order_is_deleted s ≡ false
    → is_awaiting_inventory s.saga_status ≡ false
    → check_free s ≡ ok tt
check_free_ok s kept free = ground arith

saved :
    (env : Env) (target : OrderStatus) (notes : Option String) (w : World) (s : ServiceOrder)
    {id : String}
    → CanStart env id target w s
    → save_order env (as_started env target notes w s) (step (step (step w)))
      ≡ (ok tt, stored env target notes w s)
saved env target notes w s c = save_order_ran env _ (step (step (step w))) (c.saves _ _)

start_ran :
    (env : Env) (id : String) (op : StockOperation) (target : OrderStatus) (notes : Option String)
    (w : World) (s : ServiceOrder)
    → CanStart env id target w s
    → start_order_saga env id op target notes w
      ≡ publishing env op target notes w s (stored env target notes w s)
unfolding start_order_saga start_async send_request
start_ran env id op target notes w s c =
    >>=_resumed (find_by_id env id) _ w (find_by_id_found env id w c.answers c.row)
    ∙ >>=_resumed (lift (check_free s)) _ (step w) (check_free_ok s c.kept c.free)
    ∙ ap
        (λ b.
          (if b then finish_local env s target op notes else start_async env s op target notes)
            (step w))
        c.stocked
    ∙ >>=_resumed (generate_uuid env) _ (step w) refl
    ∙ >>=_resumed (read_clock env) _ (step (step w)) refl
    ∙ >>=_resumed (lift (start_saga s _ target notes _)) _ (step (step (step w)))
        (start_saga_ok env id target notes w s c)
    ∙ >>=_resumed (save_order env (as_started env target notes w s)) _ (step (step (step w)))
        (ap (λ r. r.0) (saved env target notes w s c))
    ∙ ap (λ r. publishing env op target notes w s r.1) (saved env target notes w s c)

-- What publishing ends with.
published :
    (env : Env) (op : StockOperation) (target : OrderStatus) (notes : Option String) (w : World)
    (s : ServiceOrder) (v : World)
    → ((publishing env op target notes w s v).1.orders ≡ v.orders)
      × (((is_ok (publishing env op target notes w s v).0 ≡ true)
            × ((publishing env op target notes w s v).1.requests
                ≡ v.requests ++ request_for (env.new_uuid (w.tick + 1)) s op ∷ []))
          ⊎ ((is_ok (publishing env op target notes w s v).0 ≡ false)
              × ((publishing env op target notes w s v).1.requests ≡ v.requests)))
unfolding ◌>>=◌
published env op target notes w s v = ground arith

-- `StartSaga` of an order that can start stores it waiting for a new saga whether or not the message
-- can be sent; the request is published once, or the call fails and nothing is published.
pub start_order_saga-Awaits :
    (env : Env) (id : String) (op : StockOperation) (target : OrderStatus) (notes : Option String)
    (w : World) (s : ServiceOrder)
    → CanStart env id target w s
    → (t : ServiceOrder) × Awaits (env.new_uuid (w.tick + 1)) target s t
      × (find_row id (start_order_saga env id op target notes w).1.orders ≡ some t)
      × (((is_ok (start_order_saga env id op target notes w).0 ≡ true)
            × ((start_order_saga env id op target notes w).1.requests
                ≡ w.requests ++ request_for (env.new_uuid (w.tick + 1)) s op ∷ []))
          ⊎ ((is_ok (start_order_saga env id op target notes w).0 ≡ false)
              × ((start_order_saga env id op target notes w).1.requests ≡ w.requests)))
unfolding inventory_items get_product_items
start_order_saga-Awaits env id op target notes w s c =
    let e = start_ran env id op target notes w s c in
    let (orders, outcome) = published env op target notes w s (stored env target notes w s) in
    let t = as_started env target notes w s in
    let row : find_row id (save_row t w.orders) ≡ some t =
      rw (find_row-save_row, (eq_iff s.id id).1 (find_row_id id w.orders c.row)) refl in
    (
      t,
      record {
        waits = refl;
        current = refl;
        towards = refl;
        same_id = refl;
        same_status = refl;
        same_products = refl;
      },
      ap (λ r. find_row id r.1.orders) e ∙ ap (find_row id) orders ∙ row,
      rw e outcome,
    )

-- The table after `StartSaga` of an order that can start, whatever becomes of the message.
pub start_order_saga-as_started :
    (env : Env) (id : String) (op : StockOperation) (target : OrderStatus) (notes : Option String)
    (w : World) (s : ServiceOrder)
    → CanStart env id target w s
    → (start_order_saga env id op target notes w).1.orders
      ≡ save_row (as_started env target notes w s) w.orders
start_order_saga-as_started env id op target notes w s c =
    ap (λ r. r.1.orders) (start_ran env id op target notes w s c)
    ∙ (published env op target notes w s (stored env target notes w s)).0
