-- ===== src/Queries/Sorted.antt =====
-- service_order_repository.go: the rows of a filtered query are those that pass the filters, each as
-- often as in the table, in the order that was asked for.
use oficina_tech_ms_order_se.Shared.{
  All, Bool, Bool-cases, List, [], arith, false, inl, inr, length, refl, select, true, ℕ, ◌&&◌, ◌∙◌,
  ◌∷◌, ◌≡◌,
}
use oficina_tech_ms_order_se.Domain.Order.{ServiceOrder}
use oficina_tech_ms_order_se.Queries.Selection.{
  Ordering, RepositoryFilters, filtered_rows, insert_by, newest_first, order_by, ordering_of,
  passes, workflow_first,
}

-- Every row may stand before each of those behind it.
abbrev pub IsOrdered : Ordering → List ServiceOrder → Type 0
IsOrdered before [] = Unit
IsOrdered before (s ∷ rest) = All (λ o. before s o ≡ true) rest × IsOrdered before rest

-- An `ORDER BY` compares any two rows, and consistently.
pub record IsLinear (before : Ordering) : Type 0 where
  pub total : (a b : ServiceOrder) → before a b ≡ false → before b a ≡ true
  pub transitive :
      (a b c : ServiceOrder) → before a b ≡ true → before b c ≡ true → before a c ≡ true

newest_first-IsLinear : IsLinear newest_first
newest_first-IsLinear = record {
  total = λ a b h. ground arith;
  transitive = λ a b c h k. ground arith;
}

workflow_first_total : (a b : ServiceOrder) → workflow_first a b ≡ false → workflow_first b a ≡ true
unfolding workflow_first
workflow_first_total a b h = ground arith

workflow_first_transitive :
    (a b c : ServiceOrder)
    → workflow_first a b ≡ true
    → workflow_first b c ≡ true
    → workflow_first a c ≡ true
unfolding workflow_first
workflow_first_transitive a b c h k = ground arith

ordering_of-IsLinear : (f : RepositoryFilters) → IsLinear (ordering_of f)
ordering_of-IsLinear f = elim (Bool-cases f.sort_by_status) [
  | inl by_status ↦
      rw by_status (record { total = workflow_first_total; transitive = workflow_first_transitive })
  | inr newest ↦ rw newest newest_first-IsLinear
]

All-insert_by :
    (P : ServiceOrder → Type 0) (before : Ordering) (s : ServiceOrder) (rows : List ServiceOrder)
    → P s
    → All P rows
    → All P (insert_by before s rows)
unfolding insert_by
All-insert_by P before s [] p a = (p, tt)
All-insert_by P before s (o ∷ rest) p a = elim (Bool-cases (before s o)) [
  | inl first ↦ rw first (p, a)
  | inr behind ↦ rw behind (a.0, All-insert_by P before s rest p a.1)
]

pub All-weaken :
    (P Q : ServiceOrder → Type 0) (rows : List ServiceOrder)
    → ((o : ServiceOrder) → P o → Q o)
    → All P rows
    → All Q rows
All-weaken P Q [] f a = tt
All-weaken P Q (o ∷ rest) f a = (f o a.0, All-weaken P Q rest f a.1)

insert_by-IsOrdered :
    (before : Ordering) (s : ServiceOrder) (rows : List ServiceOrder)
    → IsLinear before
    → IsOrdered before rows
    → IsOrdered before (insert_by before s rows)
unfolding insert_by
insert_by-IsOrdered before s [] l i = (tt, tt)
insert_by-IsOrdered before s (o ∷ rest) l i = elim (Bool-cases (before s o)) [
  | inl first ↦ rw first (
    (
      first,
      All-weaken (λ k. before o k ≡ true) (λ k. before s k ≡ true) rest
          (λ k h. l.transitive s o k first h) i.0,
    ),
    i,
  )
  | inr behind ↦ rw behind (
    All-insert_by (λ k. before o k ≡ true) before s rest (l.total s o behind) i.0,
    insert_by-IsOrdered before s rest l i.1,
  )
]

order_by-IsOrdered :
    (before : Ordering) (rows : List ServiceOrder)
    → IsLinear before
    → IsOrdered before (order_by before rows)
unfolding order_by
order_by-IsOrdered before [] l = tt
order_by-IsOrdered before (o ∷ rest) l =
    insert_by-IsOrdered before o (order_by before rest) l (order_by-IsOrdered before rest l)

-- How many rows pass a test.
abbrev pub count : (ServiceOrder → Bool) → List ServiceOrder → ℕ
count p rows = length (select p rows)

count-insert_by :
    (p : ServiceOrder → Bool) (before : Ordering) (s : ServiceOrder) (rows : List ServiceOrder)
    → count p (insert_by before s rows) ≡ count p (s ∷ rows)
unfolding insert_by
count-insert_by p before s [] = refl
count-insert_by p before s (o ∷ rest) = ground (arith, count-insert_by p before s rest)

count-order_by :
    (p : ServiceOrder → Bool) (before : Ordering) (rows : List ServiceOrder)
    → count p (order_by before rows) ≡ count p rows
unfolding order_by
count-order_by p before [] = refl
count-order_by p before (o ∷ rest) =
    ground (arith, count-insert_by p before o (order_by before rest), count-order_by p before rest)

count-select :
    (p q : ServiceOrder → Bool) (rows : List ServiceOrder)
    → count p (select q rows) ≡ count (λ s. q s && p s) rows
count-select p q [] = refl
count-select p q (o ∷ rest) = ground (arith, count-select p q rest)

pub filtered_rows-IsOrdered :
    (filters : RepositoryFilters) (rows : List ServiceOrder)
    → IsOrdered (ordering_of filters) (filtered_rows filters rows)
unfolding filtered_rows
filtered_rows-IsOrdered filters rows =
    order_by-IsOrdered (ordering_of filters) (select (passes filters) rows)
      (ordering_of-IsLinear filters)

pub count-filtered_rows :
    (p : ServiceOrder → Bool) (filters : RepositoryFilters) (rows : List ServiceOrder)
    → count p (filtered_rows filters rows) ≡ count (λ s. passes filters s && p s) rows
unfolding filtered_rows
count-filtered_rows p filters rows =
    count-order_by p (ordering_of filters) (select (passes filters) rows)
    ∙ count-select p (passes filters) rows

All-passing :
    (P : ServiceOrder → Type 0) (p : ServiceOrder → Bool) (rows : List ServiceOrder)
    → ((s : ServiceOrder) → p s ≡ true → P s)
    → All P (select p rows)
All-passing P p [] f = tt
All-passing P p (o ∷ rest) f = elim (Bool-cases (p o)) [
  | inl kept ↦ rw kept (f o kept, All-passing P p rest f)
  | inr dropped ↦ rw dropped (All-passing P p rest f)
]

pub All-order_by :
    (P : ServiceOrder → Type 0) (before : Ordering) (rows : List ServiceOrder)
    → All P rows
    → All P (order_by before rows)
unfolding order_by
All-order_by P before [] a = tt
All-order_by P before (o ∷ rest) a =
    All-insert_by P before o (order_by before rest) a.0 (All-order_by P before rest a.1)

-- What the filters ask for holds of every row that the query returns.
pub All-filtered_rows :
    (P : ServiceOrder → Type 0) (filters : RepositoryFilters) (rows : List ServiceOrder)
    → ((s : ServiceOrder) → passes filters s ≡ true → P s)
    → All P (filtered_rows filters rows)
unfolding filtered_rows
All-filtered_rows P filters rows f =
    All-order_by P (ordering_of filters) (select (passes filters) rows)
      (All-passing P (passes filters) rows f)
