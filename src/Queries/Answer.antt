-- ===== src/Queries/Answer.antt =====
-- service_order_repository.go: what `FindAllWithFilters` promises, apart from how it asks for it.
use oficina_tech_ms_order_se.Shared.{
  All, List, Option, String, [], arith, false, is_empty, none, refl, some, true, ◌↔◌, ◌∷◌, ◌≡◌, ◌≢◌,
  ◌≤◌, ◌⊎◌, Bool, Bool-cases, ap, eq_iff, inl, inr, ◌&&◌, ◌∙◌, not,
}
use oficina_tech_ms_order_se.Domain.Order.{ServiceOrder}
use oficina_tech_ms_order_se.Domain.Status.{
  OrderStatus, authorization_denied, awaiting_payment, completed, delivered, is_valid, paid,
  payment_rejected, status_eq,
}
use oficina_tech_ms_order_se.Domain.Status.Flow.{rank}
use oficina_tech_ms_order_se.Domain.Status.Names.{status_eq-eq, status_eq_refl}
use oficina_tech_ms_order_se.Queries.Selection.{
  RepositoryFilters, at_status, is_hidden, of_customer, workflow_first, workflow_rank,
  filtered_rows, newest_first, ordering_of, passes,
}
use oficina_tech_ms_order_se.Queries.Sorted.{
  All-filtered_rows, All-weaken, IsOrdered, count, count-filtered_rows, filtered_rows-IsOrdered,
}

-- The rows that are asked for: of the customer and in the status that are given, if any, and where
-- finished orders are to be hidden, in none of the five statuses of the `NOT IN`.
pub record Matches (filters : RepositoryFilters) (s : ServiceOrder) : Type 0 where
  pub customer :
      (id : String) → filters.customer_id ≡ some id → is_empty id ≡ false → s.customer_id ≡ id
  pub status : (asked : OrderStatus) → filters.status ≡ some asked → s.status ≡ asked
  pub shown :
      filters.hide_completed ≡ true
      → (s.status ≢ completed)
        × (s.status ≢ awaiting_payment)
        × (s.status ≢ paid)
        × (s.status ≢ delivered)
        × (s.status ≢ authorization_denied)

-- Which order may stand before which: the newer one, or, by status, one that is no further in the
-- workflow, the older one first in the same status. PAYMENT_REJECTED stands at the end.
pub record MayPrecede (filters : RepositoryFilters) (a b : ServiceOrder) : Type 0 where
  pub newest : filters.sort_by_status ≡ false → b.created_at ≤ a.created_at
  pub workflow :
      filters.sort_by_status ≡ true
      → is_valid b.status ≡ true
      → (rank a.status ≤ rank b.status) ⊎ (b.status ≡ payment_rejected)
  pub oldest : filters.sort_by_status ≡ true → a.status ≡ b.status → a.created_at ≤ b.created_at

abbrev IsArranged : (ServiceOrder → ServiceOrder → Type 0) → List ServiceOrder → Type 0
IsArranged R [] = Unit
IsArranged R (s ∷ rest) = All (R s) rest × IsArranged R rest

kept_of_customer :
    (wanted : Option String) (s : ServiceOrder)
    → (of_customer wanted s ≡ true)
      ↔ ((id : String) → wanted ≡ some id → is_empty id ≡ false → s.customer_id ≡ id)
kept_of_customer none s = (λ h id e f. cc, λ f. refl)
kept_of_customer (some id) s = (
  λ h j e f.
      let same : id ≡ j = cc in
      let named : is_empty id ≡ false = ap is_empty same ∙ f in
      let found_same : s.customer_id ≡ id = ground (arith, eq_iff s.customer_id id) in
      found_same ∙ same,
  λ f. elim (Bool-cases (is_empty id)) [
    | inl unnamed ↦ rw unnamed refl
    | inr named ↦ let same = (eq_iff s.customer_id id).1 (f id refl named) in ground (arith, same)
  ],
)

kept_at_status :
    (wanted : Option OrderStatus) (s : ServiceOrder)
    → (at_status wanted s ≡ true) ↔ ((asked : OrderStatus) → wanted ≡ some asked → s.status ≡ asked)
kept_at_status none s = (λ h a e. cc, λ f. refl)
kept_at_status (some a) s = (
  λ h b e. let same : a ≡ b = cc in status_eq-eq s.status a h ∙ same,
  λ f. ap (λ t. status_eq t a) (f a refl) ∙ status_eq_refl a,
)

kept_shown :
    (s : OrderStatus)
    → (is_hidden s ≡ false) ↔ (
        (s ≢ completed)
        × (s ≢ awaiting_payment)
        × (s ≢ paid)
        × (s ≢ delivered)
        × (s ≢ authorization_denied))
unfolding is_hidden
kept_shown s = ground arith

workflow_first-rank :
    (a b : ServiceOrder)
    → workflow_first a b ≡ true
    → is_valid b.status ≡ true
    → (rank a.status ≤ rank b.status) ⊎ (b.status ≡ payment_rejected)
unfolding workflow_first workflow_rank
workflow_first-rank a b h v = ground arith

workflow_first_oldest :
    (a b : ServiceOrder)
    → workflow_first a b ≡ true
    → a.status ≡ b.status
    → a.created_at ≤ b.created_at
unfolding workflow_first
workflow_first_oldest a b h e = let same = ap workflow_rank e in ground arith

all_three :
    (buyer stage hides hidden : Bool)
    → ((buyer && stage && not (hides && hidden)) ≡ true)
      ↔ ((buyer ≡ true) × (stage ≡ true) × (hides ≡ true → hidden ≡ false))
all_three true true true true = (λ h. cc, λ (_, _, f). let no = f refl in cc)
all_three true true true false = (λ h. (refl, refl, λ _. refl), λ _. refl)
all_three true true false hidden = (λ h. (refl, refl, λ e. cc), λ _. refl)
all_three true false hides hidden = (λ h. cc, λ (_, e, _). cc)
all_three false stage hides hidden = (λ h. cc, λ (e, _, _). cc)

passes_iff :
    (filters : RepositoryFilters) (s : ServiceOrder) → (passes filters s ≡ true) ↔ Matches filters s
unfolding passes
passes_iff filters s =
    let buyer = kept_of_customer filters.customer_id s in
    let stage = kept_at_status filters.status s in
    let visible = kept_shown s.status in
    let tests =
      all_three (of_customer filters.customer_id s) (at_status filters.status s)
        filters.hide_completed (is_hidden s.status) in
    (
      λ h.
          let (a, b, c) = tests.0 h in
          record { customer = buyer.0 a; status = stage.0 b; shown = λ e. visible.0 (c e) },
      λ m. tests.1 (buyer.1 m.customer, stage.1 m.status, λ e. visible.1 (m.shown e)),
    )

ordering_of-MayPrecede :
    (filters : RepositoryFilters) (a b : ServiceOrder)
    → ordering_of filters a b ≡ true
    → MayPrecede filters a b
ordering_of-MayPrecede filters a b h = elim (Bool-cases filters.sort_by_status) [
  | inl by_status ↦
      let g : workflow_first a b ≡ true = rw by_status at h in
      record {
        newest = λ e. cc;
        workflow = λ e v. workflow_first-rank a b g v;
        oldest = λ e same. workflow_first_oldest a b g same;
      }
  | inr by_time ↦
      let g : newest_first a b ≡ true = rw by_time at h in
      record { newest = λ e. ground arith; workflow = λ e. cc; oldest = λ e. cc }
]

IsOrdered-IsArranged :
    (filters : RepositoryFilters) (rows : List ServiceOrder)
    → IsOrdered (ordering_of filters) rows
    → IsArranged (MayPrecede filters) rows
IsOrdered-IsArranged filters [] o = tt
IsOrdered-IsArranged filters (s ∷ rest) (first, o) = (
  All-weaken (λ b. ordering_of filters s b ≡ true) (MayPrecede filters s) rest
      (ordering_of-MayPrecede filters s) first,
  IsOrdered-IsArranged filters rest o,
)

count_same :
    (p q : ServiceOrder → Bool) (rows : List ServiceOrder)
    → ((s : ServiceOrder) → p s ≡ q s)
    → count p rows ≡ count q rows
count_same p q [] e = refl
count_same p q (o ∷ rest) e = rw (e o) (ground (arith, count_same p q rest e))

-- What a filtered query returns: rows that all match the filters; each row of the table that does, as
-- often as it stands there; and no two of them in an order that is not the one asked for.
pub record IsAnswer (filters : RepositoryFilters) (rows result : List ServiceOrder) : Type 0 where
  pub matching : All (Matches filters) result
  pub complete :
      (p : ServiceOrder → Bool)
      → ((s : ServiceOrder) → p s ≡ true → Matches filters s)
      → count p result ≡ count p rows
  pub arranged : IsArranged (MayPrecede filters) result

-- Every row that `FindAllWithFilters` asks for is of the customer and in the status that are
-- given, if any, and, where finished orders are to be hidden, in none of COMPLETED,
-- AWAITING_PAYMENT, PAID, DELIVERED and AUTHORIZATION_DENIED; each row of the table that is so is
-- asked for as often as it stands there; and the rows stand from the newest to the oldest, or,
-- sorted by status, with none of a valid status but PAYMENT_REJECTED behind one that is further in
-- the workflow, and the older one first in the same status.
pub filtered_rows-IsAnswer :
    (filters : RepositoryFilters) (rows : List ServiceOrder)
    → IsAnswer filters rows (filtered_rows filters rows)
filtered_rows-IsAnswer filters rows = record {
  matching = All-filtered_rows (Matches filters) filters rows (λ s h. (passes_iff filters s).0 h);
  complete = λ p m.
      count-filtered_rows p filters rows
      ∙ count_same (λ s. passes filters s && p s) p rows
          (λ s. elim (Bool-cases (p s)) [
            | inl hit ↦ rw (hit, (passes_iff filters s).1 (m s hit)) refl
            | inr off ↦ rw off (ground arith)
          ]);
  arranged = IsOrdered-IsArranged filters _ (filtered_rows-IsOrdered filters rows);
}
