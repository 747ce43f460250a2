-- ===== src/Queries/Selection.antt =====
-- service_order_repository.go: `FindAll`, `FindAllWithFilters`, `FindByCustomerID`, `FindByStatus` and
-- `FindBySagaStatus`. The database keeps no order among rows that its `ORDER BY` does not tell apart;
-- here they stand in the order of the table. PostgreSQL runs the query: `passes` and `ordering_of` are
-- the clauses the repository writes, `select` and the insertion do what SQL says of them.
use oficina_tech_ms_order_se.Shared.{
  Bool, List, Option, String, [], false, if◌then◌else◌, is_empty, leb, ltb, none, not, select, some,
  str_eq, true, ℕ, ◌&&◌, ◌==◌, ◌||◌, ◌∷◌,
}
use oficina_tech_ms_order_se.Domain.Errors.{err, ok}
use oficina_tech_ms_order_se.Domain.Order.{ServiceOrder, is_awaiting_inventory}
use oficina_tech_ms_order_se.Domain.Status.{
  OrderStatus, authorization_denied, authorized, awaiting_payment, canceled, completed, delivered,
  diagnosing, in_progress, paid, pending_authorization, received, status_eq,
}
use oficina_tech_ms_order_se.Platform.Monad.{Action}
use oficina_tech_ms_order_se.Platform.Ports.{Env, step}

pub record RepositoryFilters : Type 0 where
  pub customer_id : Option String
  pub status : Option OrderStatus
  pub sort_by_status : Bool
  pub hide_completed : Bool

-- The orders behind which a row is put: an `ORDER BY` as a test that one row may stand before another.
abbrev pub Ordering : Type 0
Ordering = ServiceOrder → ServiceOrder → Bool

abbrev pub newest_first : Ordering
newest_first a b = leb b.created_at a.created_at

abbrev pub longest_unchanged_first : Ordering
longest_unchanged_first a b = leb a.updated_at b.updated_at

-- The `CASE status`; PAYMENT_REJECTED is not in it.
unfoldable pub workflow_rank : OrderStatus → ℕ
workflow_rank received = 1
workflow_rank diagnosing = 2
workflow_rank pending_authorization = 3
workflow_rank authorized = 4
workflow_rank in_progress = 5
workflow_rank completed = 6
workflow_rank awaiting_payment = 7
workflow_rank paid = 8
workflow_rank delivered = 9
workflow_rank canceled = 10
workflow_rank authorization_denied = 11
workflow_rank _ = 12

unfoldable pub workflow_first : Ordering
unfolding workflow_rank
workflow_first a b =
    ltb (workflow_rank a.status) (workflow_rank b.status)
    || (workflow_rank a.status == workflow_rank b.status && leb a.created_at b.created_at)

unfoldable pub insert_by : Ordering → ServiceOrder → List ServiceOrder → List ServiceOrder
insert_by before s [] = s ∷ []
insert_by before s (o ∷ rest) = if before s o then s ∷ o ∷ rest else o ∷ insert_by before s rest

unfoldable pub order_by : Ordering → List ServiceOrder → List ServiceOrder
unfolding insert_by
order_by before [] = []
order_by before (o ∷ rest) = insert_by before o (order_by before rest)

-- The statuses of the `NOT IN`.
unfoldable pub is_hidden : OrderStatus → Bool
is_hidden completed = true
is_hidden awaiting_payment = true
is_hidden paid = true
is_hidden delivered = true
is_hidden authorization_denied = true
is_hidden _ = false

abbrev pub of_customer : Option String → ServiceOrder → Bool
of_customer none s = true
of_customer (some customer_id) s = is_empty customer_id || str_eq s.customer_id customer_id

abbrev pub at_status : Option OrderStatus → ServiceOrder → Bool
at_status none s = true
at_status (some status) s = status_eq s.status status

unfoldable pub passes : RepositoryFilters → ServiceOrder → Bool
unfolding is_hidden
passes filters s =
    of_customer filters.customer_id s
    && at_status filters.status s
    && not (filters.hide_completed && is_hidden s.status)

abbrev pub ordering_of : RepositoryFilters → Ordering
ordering_of filters = if filters.sort_by_status then workflow_first else newest_first

unfoldable pub filtered_rows : RepositoryFilters → List ServiceOrder → List ServiceOrder
unfolding order_by passes
filtered_rows filters rows = order_by (ordering_of filters) (select (passes filters) rows)

-- A query that fails, or reads the table.
abbrev pub query : Env → (List ServiceOrder → List ServiceOrder) → Action (List ServiceOrder)
query env rows w =
    (elim (env.query_error w.tick) [ none ↦ ok (rows w.orders) | some e ↦ err e ], step w)

abbrev find_all : Env → Action (List ServiceOrder)
find_all env = query env (order_by newest_first)

unfoldable pub find_all_with_filters : Env → RepositoryFilters → Action (List ServiceOrder)
unfolding filtered_rows
find_all_with_filters env filters = query env (filtered_rows filters)

unfoldable pub find_by_customer_id : Env → String → Action (List ServiceOrder)
unfolding order_by
find_by_customer_id env customer_id =
    query env λ rows. order_by newest_first (select (λ s. str_eq s.customer_id customer_id) rows)

unfoldable pub find_by_status : Env → OrderStatus → Action (List ServiceOrder)
unfolding order_by
find_by_status env status =
    query env λ rows. order_by newest_first (select (λ s. status_eq s.status status) rows)

-- `WHERE saga_status = ?`, for `AWAITING_INVENTORY`, the only status that the code asks for.
unfoldable pub find_awaiting_inventory : Env → Action (List ServiceOrder)
unfolding order_by
find_awaiting_inventory env = query env λ rows.
    order_by longest_unchanged_first (select (λ s. is_awaiting_inventory s.saga_status) rows)
