-- ===== src/Queries/Listed.antt =====
-- get_all_service_orders.go: which orders are listed, and how.
use oficina_tech_ms_order_se.Shared.{
  Bool-cases, List, Option, [], inl, inr, none, not, refl, select, ◌∙◌, ◌∷◌, ◌≡◌, ap,
}
use oficina_tech_ms_order_se.Domain.Errors.{ok}
use oficina_tech_ms_order_se.Domain.History.{filter_active_items}
use oficina_tech_ms_order_se.Domain.Item.{ServiceOrderItem}
use oficina_tech_ms_order_se.Domain.Order.{ServiceOrder, order_is_deleted}
use oficina_tech_ms_order_se.Domain.Order.Basket.{total_amount}
use oficina_tech_ms_order_se.Domain.Status.{OrderStatus}
use oficina_tech_ms_order_se.Platform.Monad.{◌>>=◌, World, lift}
use oficina_tech_ms_order_se.Platform.Outcomes.{>>=_resumed}
use oficina_tech_ms_order_se.Platform.Ports.{Env, step}
use oficina_tech_ms_order_se.Queries.Reading.{
  ListInput, OrderView, filters_of, get_all_service_orders, if_answered, status_filter, view_of,
  views_of,
}
use oficina_tech_ms_order_se.Queries.Selection.{filtered_rows, find_all_with_filters}

-- The views stand for the orders, one for each: the order itself, its items that are not deleted and
-- their sum.
abbrev pub Lists : List ServiceOrder → List OrderView → Type 0
Lists [] [] = Unit
Lists [] (_ ∷ _) = ⊥
Lists (_ ∷ _) [] = ⊥
Lists (s ∷ rest) (v ∷ views) =
    (v.order ≡ s)
    × (v.items ≡ filter_active_items s.items)
    × (v.total ≡ total_amount s)
    × Lists rest views

view_of_ran :
    (env : Env) (items : List ServiceOrderItem) (s : ServiceOrder) (w : World)
    → (v : OrderView) × ((view_of env items s w).0 ≡ ok v)
      × (v.order ≡ s)
      × (v.items ≡ filter_active_items items)
      × (v.total ≡ total_amount s)
unfolding view_of if_answered ◌>>=◌
view_of_ran env items s w = (_, refl, refl, refl, refl)

views_of_ran :
    (env : Env) (orders : List ServiceOrder) (w : World)
    → (views : List OrderView) × ((views_of env orders w).0 ≡ ok views)
      × Lists (select (λ s. not (order_is_deleted s)) orders) views
unfolding views_of
views_of_ran env [] w = ([], refl, tt)
views_of_ran env (s ∷ rest) w = elim (Bool-cases (order_is_deleted s)) [
  | inl gone ↦ rw gone (views_of_ran env rest w)
  | inr live ↦
      let (v, ran, same, items, total) = view_of_ran env s.items s w in
      let (views, others, listed) = views_of_ran env rest (view_of env s.items s w).1 in
      rw live (
        v ∷ views,
        ap (λ r. r.0)
            (>>=_resumed (view_of env s.items s) _ w ran
              ∙ >>=_resumed (views_of env rest) _ (view_of env s.items s w).1 others),
        (same, items, total, listed),
      )
]

-- Where the query answers and the status that is asked for, if any, is one of the workflow, the list
-- has exactly one view for each order of the query that is not deleted, in its order, with the items
-- that are not deleted and their sum, whatever the services of customers and vehicles answer.
pub get_all_service_orders-Lists :
    (env : Env) (input : ListInput) (w : World) (status : Option OrderStatus)
    → status_filter input.status ≡ ok status
    → env.query_error w.tick ≡ none
    → (views : List OrderView) × ((get_all_service_orders env input w).0 ≡ ok views)
      × Lists
          (select
            (λ s. not (order_is_deleted s))
            (filtered_rows (filters_of input status) w.orders))
          views
unfolding get_all_service_orders find_all_with_filters
get_all_service_orders-Lists env input w status known answers =
    let f = filters_of input status in
    let rows = filtered_rows f w.orders in
    let read : (find_all_with_filters env f w).0 ≡ ok rows = rw answers refl in
    let (views, listed, all) = views_of_ran env rows (step w) in
    (
      views,
      ap (λ r. r.0)
            (>>=_resumed (lift (status_filter input.status)) _ w known
              ∙ >>=_resumed (find_all_with_filters env f) _ w read)
          ∙ listed,
      all,
    )
