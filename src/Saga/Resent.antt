-- ===== src/Saga/Resent.antt =====
-- `RecoverAwaitingSagas`: the requests that it publishes again.
use mathlib.Core.List.{append-nil, append_assoc}
use mathlib.Core.Path.{subst}
use oficina_tech_ms_order_se.Shared.{
  All, Any, List, Option-cases, String, [], ap, inl, inr, none, refl, select, some, sym, true, ℕ,
  ◌++◌, ◌∙◌, ◌∷◌, ◌≡◌, ◌⊎◌,
}
use oficina_tech_ms_order_se.Domain.Errors.{Result, ok, ok_injective}
use oficina_tech_ms_order_se.Domain.Order.{ServiceOrder, is_awaiting_inventory}
use oficina_tech_ms_order_se.Domain.Stock.{StockOperation}
use oficina_tech_ms_order_se.Platform.Monad.{InventoryRequest, World, lift}
use oficina_tech_ms_order_se.Platform.Outcomes.{>>=_resumed}
use oficina_tech_ms_order_se.Platform.Ports.{Env, publish_request, step}
use oficina_tech_ms_order_se.Platform.Table.{save_row}
use oficina_tech_ms_order_se.Queries.Members.{
  All-save_row, All-selected, order_by-All, save_row_stands, selected-All,
}
use oficina_tech_ms_order_se.Queries.Selection.{
  find_awaiting_inventory, order_by, longest_unchanged_first,
}
use oficina_tech_ms_order_se.Queries.Sorted.{All-order_by}
use oficina_tech_ms_order_se.Saga.Orchestrator.{
  recover_awaiting_sagas, republish, republish_all, republish_as,
}
use oficina_tech_ms_order_se.Saga.Starting.{request_for}
use oficina_tech_ms_order_se.Saga.Values.{infer_operation}

-- The loop does not stop at the order: it has no saga, or a request can be made for it.
abbrev IsRepublishable : ServiceOrder → Type 0
IsRepublishable s =
    (s.current_saga_id ≡ none) ⊎ ((op : StockOperation) × (infer_operation s ≡ ok op))

-- Among the requests is the one for each saga of the order.
abbrev IsResent : List InventoryRequest → ServiceOrder → Type 0
IsResent more s =
    (saga_id : String) (op : StockOperation)
    → s.current_saga_id ≡ some saga_id
    → infer_operation s ≡ ok op
    → Any (λ r. r ≡ request_for saga_id s op) more

-- The queue takes every message.
abbrev Takes : Env → Type 0
Takes env = (tick : ℕ) (r : InventoryRequest) → env.publish_error tick r ≡ none

republish_ran :
    (env : Env) (t : ServiceOrder) (v : World) {saga_id : String} {op : StockOperation}
    → t.current_saga_id ≡ some saga_id
    → infer_operation t ≡ ok op
    → republish env t v ≡ publish_request env (request_for saga_id t op) v
unfolding republish
republish_ran env t v {saga_id} k i =
    ap (λ x. republish_as env t x v) k ∙ >>=_resumed (lift (infer_operation t)) _ v i

publish_request_ran :
    (env : Env) (r : InventoryRequest) (v : World)
    → env.publish_error v.tick r ≡ none
    → publish_request env r v ≡ (ok tt, step (record v { requests = v.requests ++ r ∷ [] }))
publish_request_ran env r v h = rw h refl

-- A step of the recovery that succeeded and published `more`.
record Resends (v : World) (r : Result (Unit {0}) × World) (more : List InventoryRequest)
    : Type 0 where
  succeeds : r.0 ≡ ok tt
  appends : r.1.requests ≡ v.requests ++ more

Any-left :
    (r : InventoryRequest) (some_requests others : List InventoryRequest)
    → Any (λ q. q ≡ r) some_requests
    → Any (λ q. q ≡ r) (some_requests ++ others)
Any-left r [] others a = absurd a
Any-left r (q ∷ rest) others (inl same) = inl same
Any-left r (q ∷ rest) others (inr later) = inr (Any-left r rest others later)

Any-right :
    (r : InventoryRequest) (some_requests others : List InventoryRequest)
    → Any (λ q. q ≡ r) others
    → Any (λ q. q ≡ r) (some_requests ++ others)
Any-right r [] others a = a
Any-right r (q ∷ rest) others a = inr (Any-right r rest others a)

at_rest :
    (env : Env) (s : ServiceOrder) (v : World)
    → s.current_saga_id ≡ none
    → republish env s v ≡ (ok tt, v)
unfolding republish
at_rest env s v k = ap (λ x. republish_as env s x v) k

same_request :
    (s : ServiceOrder) (i j : String) (op o : StockOperation)
    → s.current_saga_id ≡ some i
    → s.current_saga_id ≡ some j
    → infer_operation s ≡ ok op
    → infer_operation s ≡ ok o
    → request_for i s op ≡ request_for j s o
same_request s i j op o k l f g =
    let ids : some i ≡ some j = sym k ∙ l in
    let ops : op ≡ o = ok_injective (sym f ∙ g) in let same : i ≡ j = cc in rw (same, ops) refl

republished_saga :
    (env : Env) (s : ServiceOrder) (v : World) (saga_id : String) (op : StockOperation)
    → Takes env
    → s.current_saga_id ≡ some saga_id
    → infer_operation s ≡ ok op
    → (more : List InventoryRequest) × Resends v (republish env s v) more × IsResent more s
republished_saga env s v saga_id op takes k i =
    let request = request_for saga_id s op in
    let ran =
      republish_ran env s v k i ∙ publish_request_ran env request v (takes v.tick request) in
    (
      request ∷ [],
      record { succeeds = ap (λ r. r.0) ran; appends = ap (λ r. r.1.requests) ran },
      λ j o l g. inl (same_request s saga_id j op o k l i g),
    )

republished_idle :
    (env : Env) (s : ServiceOrder) (v : World)
    → s.current_saga_id ≡ none
    → (more : List InventoryRequest) × Resends v (republish env s v) more × IsResent more s
republished_idle env s v k = (
  [],
  record {
    succeeds = ap (λ r. r.0) (at_rest env s v k);
    appends = ap (λ r. r.1.requests) (at_rest env s v k) ∙ sym (append-nil v.requests);
  },
  λ saga_id op c i. let apart : none ≡ some saga_id = sym k ∙ c in cc,
)

republished :
    (env : Env) (s : ServiceOrder) (v : World)
    → Takes env
    → IsRepublishable s
    → (more : List InventoryRequest) × Resends v (republish env s v) more × IsResent more s
republished env s v takes (inl k) = republished_idle env s v k
republished env s v takes (inr (op, i)) = elim (Option-cases s.current_saga_id) [
  | inl k ↦ republished_idle env s v k
  | inr (saga_id, k) ↦ republished_saga env s v saga_id op takes k i
]

All-IsResent :
    (fewer more : List InventoryRequest) (orders : List ServiceOrder)
    → ((r : InventoryRequest) → Any (λ q. q ≡ r) fewer → Any (λ q. q ≡ r) more)
    → All (IsResent fewer) orders
    → All (IsResent more) orders
All-IsResent fewer more [] f a = tt
All-IsResent fewer more (s ∷ rest) f (one, others) =
    (λ i op k g. f (request_for i s op) (one i op k g), All-IsResent fewer more rest f others)

republish_all-IsResent :
    (env : Env) (orders : List ServiceOrder) (v : World)
    → Takes env
    → All IsRepublishable orders
    → (more : List InventoryRequest) × Resends v (republish_all env orders v) more
      × All (IsResent more) orders
unfolding republish_all
republish_all-IsResent env [] v takes a =
    ([], record { succeeds = refl; appends = sym (append-nil v.requests) }, tt)
republish_all-IsResent env (s ∷ rest) v takes (ready, others) =
    let (first, one, sent) = republished env s v takes ready in
    let u = (republish env s v).1 in
    let (later, all, resent) = republish_all-IsResent env rest u takes others in
    let ran = >>=_resumed (republish env s) (λ _. republish_all env rest) v one.succeeds in
    (
      first ++ later,
      record {
        succeeds = ap (λ r. r.0) ran ∙ all.succeeds;
        appends =
            ap (λ r. r.1.requests) ran
            ∙ all.appends
            ∙ ap (λ l. l ++ later) one.appends
            ∙ append_assoc v.requests first later;
      },
      (
        λ i op k g. Any-left (request_for i s op) first later (sent i op k g),
        All-IsResent later (first ++ later) rest (λ r. Any-right r first later) resent,
      ),
    )

-- The recovery in the state `v` succeeds, and what it publishes has the request.
abbrev pub Recovers : Env → World → InventoryRequest → Type 0
Recovers env v request =
    (more : List InventoryRequest) × ((recover_awaiting_sagas env v).0 ≡ ok tt)
    × ((recover_awaiting_sagas env v).1.requests ≡ v.requests ++ more)
    × Any (λ r. r ≡ request) more

-- What the recovery needs: the database and the queue answer, and the loop stops at no waiting order.
pub record CanRecover (env : Env) (rows : List ServiceOrder) : Type 0 where
  pub answers : (tick : ℕ) → env.query_error tick ≡ none
  pub takes : Takes env
  pub others : All (λ s. is_awaiting_inventory s.saga_status ≡ true → IsRepublishable s) rows

read :
    (env : Env) (v : World)
    → env.query_error v.tick ≡ none
    → find_awaiting_inventory env v ≡ (
      ok (
          order_by longest_unchanged_first
            (select (λ s. is_awaiting_inventory s.saga_status) v.orders)),
      step v,
    )
unfolding find_awaiting_inventory
read env v h = rw h refl

-- An order that waits in the table gets its request again.
pub recover_awaiting_sagas-Recovers :
    (env : Env) (v : World) (rows : List ServiceOrder) (t : ServiceOrder) (saga_id : String)
    (op : StockOperation)
    → CanRecover env rows
    → v.orders ≡ save_row t rows
    → is_awaiting_inventory t.saga_status ≡ true
    → t.current_saga_id ≡ some saga_id
    → infer_operation t ≡ ok op
    → Recovers env v (request_for saga_id t op)
unfolding recover_awaiting_sagas
recover_awaiting_sagas-Recovers env v rows t saga_id op can table waits k i =
    let waiting = λ (s : ServiceOrder). is_awaiting_inventory s.saga_status in
    let queried = order_by longest_unchanged_first (select waiting v.orders) in
    let all : All (λ s. waiting s ≡ true → IsRepublishable s) v.orders =
      subst (All (λ s. waiting s ≡ true → IsRepublishable s)) (sym table) (
        All-save_row (λ s. waiting s ≡ true → IsRepublishable s) t rows (λ _. inr (op, i))
          can.others) in
    let ready : All IsRepublishable queried =
      All-order_by IsRepublishable longest_unchanged_first (select waiting v.orders)
        (All-selected IsRepublishable waiting v.orders all) in
    let (more, done, resent) = republish_all-IsResent env queried (step v) can.takes ready in
    let found_all = read env v (can.answers v.tick) in
    let ran =
      >>=_resumed (find_awaiting_inventory env) (republish_all env) v (ap (λ r. r.0) found_all)
      ∙ ap (λ r. republish_all env queried r.1) found_all in
    let stands : Any (λ o. o ≡ t) v.orders =
      subst (Any (λ o. o ≡ t)) (sym table) (save_row_stands t rows) in
    (
      more,
      ap (λ r. r.0) ran ∙ done.succeeds,
      ap (λ r. r.1.requests) ran ∙ done.appends,
      selected-All (IsResent more) waiting v.orders t
          (order_by-All (IsResent more) longest_unchanged_first (select waiting v.orders) resent)
          stands waits saga_id op k i,
    )
