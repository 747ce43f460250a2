-- ===== src/Http/OwnOrders.antt =====
-- `GetAllServiceOrders` for a customer: only their own orders are listed.
use mathlib.Core.Path.{subst}
use oficina_tech_ms_order_se.Shared.{
  All, Bool, Bool-cases, List, Option, String, [], eq_iff, false, inl, inr, is_empty, none, not,
  refl, select, some, str_eq, sym, true, ◌∙◌, ◌∷◌, ◌≡◌, arith, ◌&&◌, if◌then◌else◌, ap,
}
use oficina_tech_ms_order_se.Domain.Errors.{Error, err, ok, ok_injective, Result}
use oficina_tech_ms_order_se.Domain.Order.{ServiceOrder, order_is_deleted}
use oficina_tech_ms_order_se.Http.Handlers.{
  Caller, ListQuery, answer_with, get_all_service_orders_handler, list_payload, asked_customer,
  respond_error_envelope, respond_mapped, respond_success, unless_blank, list_input, reply_to,
}
use oficina_tech_ms_order_se.Platform.Monad.{World, lift, Action}
use oficina_tech_ms_order_se.Platform.Outcomes.{>>=-ok}
use oficina_tech_ms_order_se.Platform.Ports.{Env}
use oficina_tech_ms_order_se.Queries.Listed.{Lists, get_all_service_orders-Lists}
use oficina_tech_ms_order_se.Queries.Reading.{
  ListInput, OrderView, filters_of, get_all_service_orders, status_filter,
}
use oficina_tech_ms_order_se.Queries.Selection.{
  RepositoryFilters, filtered_rows, find_all_with_filters, passes, of_customer, at_status,
  is_hidden,
}
use oficina_tech_ms_order_se.Queries.Sorted.{All-filtered_rows}

All-kept :
    (P : ServiceOrder → Type 0) (p : ServiceOrder → Bool) (rows : List ServiceOrder)
    → All P rows
    → All P (select p rows)
All-kept P p [] a = tt
All-kept P p (o ∷ rest) a = elim (Bool-cases (p o)) [
  | inl kept ↦ rw kept (a.0, All-kept P p rest a.1)
  | inr dropped ↦ rw dropped (All-kept P p rest a.1)
]

Lists-All :
    (P : ServiceOrder → Type 0) (rows : List ServiceOrder) (views : List OrderView)
    → Lists rows views
    → All P rows
    → All (λ v. P v.order) views
Lists-All P [] [] l a = tt
Lists-All P [] (v ∷ views) l a = absurd l
Lists-All P (s ∷ rest) [] l a = absurd l
Lists-All P (s ∷ rest) (v ∷ views) (same, _, _, others) a =
    (subst P (sym same) a.0, Lists-All P rest views others a.1)

answered :
    (failure : Option Error) (rows orders : List ServiceOrder)
    → (elim failure [ none ↦ ok rows | some e ↦ err e ]) ≡ ok orders
    → failure ≡ none
answered none rows orders h = refl
answered (some e) rows orders h = cc

query_answers :
    (env : Env) (filters : RepositoryFilters) (w : World) (orders : List ServiceOrder)
    → (find_all_with_filters env filters w).0 ≡ ok orders
    → env.query_error w.tick ≡ none
unfolding find_all_with_filters
query_answers env filters w orders h =
    answered (env.query_error w.tick) (filtered_rows filters w.orders) orders h

of_customer-own :
    (s : ServiceOrder) (customer_id : String) (at_stage shown : Bool)
    → is_empty customer_id ≡ false
    → (of_customer (some customer_id) s && at_stage && shown) ≡ true
    → s.customer_id ≡ customer_id
of_customer-own s customer_id at_stage shown filled h =
    let same : str_eq s.customer_id customer_id ≡ true = ground arith in
    (eq_iff s.customer_id customer_id).0 same

passes-own :
    (filters : RepositoryFilters) (customer_id : String) (s : ServiceOrder)
    → filters.customer_id ≡ some customer_id
    → is_empty customer_id ≡ false
    → passes filters s ≡ true
    → s.customer_id ≡ customer_id
unfolding passes
passes-own filters customer_id s wanted filled h =
    of_customer-own s customer_id (at_status filters.status s)
      (not (filters.hide_completed && is_hidden s.status)) filled (rw wanted at h)

views_own :
    (env : Env) (input : ListInput) (w : World) (views : List OrderView) (customer_id : String)
    → input.customer_id ≡ some customer_id
    → is_empty customer_id ≡ false
    → (get_all_service_orders env input w).0 ≡ ok views
    → All (λ v. v.order.customer_id ≡ customer_id) views
unfolding get_all_service_orders
views_own env input w views customer_id wanted filled h =
    let (status, known, read, _) = >>=-ok (lift (status_filter input.status)) _ w h in
    let f = filters_of input status in
    let (orders, ran, _, _) = >>=-ok (find_all_with_filters env f) _ w read in
    let (listed, done, all) =
      get_all_service_orders-Lists env input w status known (query_answers env f w orders ran) in
    let same : listed ≡ views = ok_injective (sym done ∙ h) in
    subst (All (λ v. v.order.customer_id ≡ customer_id)) same (
      Lists-All (λ s. s.customer_id ≡ customer_id) _ listed all
        (All-kept _ (λ s. not (order_is_deleted s)) (filtered_rows f w.orders)
          (All-filtered_rows (λ s. s.customer_id ≡ customer_id) f w.orders
            (λ s. passes-own f customer_id s wanted filled))))

given :
    (r : Result (List OrderView)) (views : List OrderView)
    → (reply_to r (λ output. respond_success 200 (list_payload output))).payload
      ≡ some (list_payload views)
    → r ≡ ok views
unfolding respond_mapped
given (ok output) views h = cc
given (err failure) views h = cc

given_unless :
    (refused : Bool) (m : Action (List OrderView)) (w : World) (views : List OrderView)
    → (if refused
        then (respond_error_envelope 400 "INVALID_UUID" "Invalid customer_id format", w)
        else answer_with m (λ output. respond_success 200 (list_payload output)) w).0.payload
      ≡ some (list_payload views)
    → (m w).0 ≡ ok views
unfolding answer_with
given_unless true m w views h = cc
given_unless false m w views h = given (m w).0 views h

asked_customer-own :
    (caller : Caller) (q : ListQuery)
    → caller.role ≡ "CUSTOMER"
    → asked_customer caller q ≡ caller.id
asked_customer-own caller q role =
    let is_customer : str_eq caller.role "CUSTOMER" ≡ true =
      (eq_iff caller.role "CUSTOMER").1 role in
    rw is_customer refl

unless_blank_filled : (s : String) → is_empty s ≡ false → unless_blank s ≡ some s
unless_blank_filled s filled = rw filled refl

-- The list that a caller with the role CUSTOMER and an id that is not empty gets holds orders of this
-- customer only, whatever the query asks for.
pub get_all_service_orders_handler-own :
    (is_uuid : String → Bool) (env : Env) (caller : Caller) (q : ListQuery) (w : World)
    (views : List OrderView)
    → caller.role ≡ "CUSTOMER"
    → is_empty caller.id ≡ false
    → (get_all_service_orders_handler is_uuid env caller q w).0.payload ≡ some (list_payload views)
    → All (λ v. v.order.customer_id ≡ caller.id) views
unfolding get_all_service_orders_handler
get_all_service_orders_handler-own is_uuid env caller q w views role filled h =
    let asks : (list_input caller q).customer_id ≡ some caller.id =
      ap unless_blank (asked_customer-own caller q role) ∙ unless_blank_filled caller.id filled in
    views_own env (list_input caller q) w views caller.id asks filled (
      given_unless
        (not (is_empty (asked_customer caller q)) && not (is_uuid (asked_customer caller q)))
        (get_all_service_orders env (list_input caller q)) w views h)
