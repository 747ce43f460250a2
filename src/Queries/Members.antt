-- ===== src/Queries/Members.antt =====
-- The rows of a query among those of the table.
use mathlib.Core.Path.{subst}
use oficina_tech_ms_order_se.Shared.{
  All, Any, Bool, Bool-cases, List, [], ap, arith, inl, inr, refl, select, str_eq, true, ◌∙◌, ◌∷◌,
  ◌≡◌,
}
use oficina_tech_ms_order_se.Domain.Errors.{ok}
use oficina_tech_ms_order_se.Domain.Order.{ServiceOrder}
use oficina_tech_ms_order_se.Platform.Monad.{World}
use oficina_tech_ms_order_se.Platform.Ports.{Env}
use oficina_tech_ms_order_se.Platform.Table.{save_row}
use oficina_tech_ms_order_se.Queries.Selection.{Ordering, insert_by, order_by, query}

insert_by-All :
    (P : ServiceOrder → Type 0) (before : Ordering) (s : ServiceOrder) (rows : List ServiceOrder)
    → All P (insert_by before s rows)
    → P s × All P rows
unfolding insert_by
insert_by-All P before s [] a = a
insert_by-All P before s (o ∷ rest) a = elim (Bool-cases (before s o)) [
  | inl first ↦ rw first at a
  | inr behind ↦
      let b : P o × All P (insert_by before s rest) = rw behind at a in
      let (one, others) = insert_by-All P before s rest b.1 in (one, (b.0, others))
]

pub order_by-All :
    (P : ServiceOrder → Type 0) (before : Ordering) (rows : List ServiceOrder)
    → All P (order_by before rows)
    → All P rows
unfolding order_by
order_by-All P before [] a = tt
order_by-All P before (o ∷ rest) a =
    let (one, others) = insert_by-All P before o (order_by before rest) a in
    (one, order_by-All P before rest others)

pub selected-All :
    (P : ServiceOrder → Type 0) (p : ServiceOrder → Bool) (rows : List ServiceOrder)
    (s : ServiceOrder)
    → All P (select p rows)
    → Any (λ o. o ≡ s) rows
    → p s ≡ true
    → P s
selected-All P p [] s a x on = absurd x
selected-All P p (o ∷ rest) s a (inl same) on =
    let b : All P (o ∷ select p rest) = rw (ap p same ∙ on) at a in subst P same b.0
selected-All P p (o ∷ rest) s a (inr later) on = elim (Bool-cases (p o)) [
  | inl first ↦
      let b : All P (o ∷ select p rest) = rw first at a in selected-All P p rest s b.1 later on
  | inr off ↦ let b : All P (select p rest) = rw off at a in selected-All P p rest s b later on
]

pub query-ok :
    (env : Env) (f : List ServiceOrder → List ServiceOrder) (w : World) {rows : List ServiceOrder}
    → (query env f w).0 ≡ ok rows
    → rows ≡ f w.orders
query-ok env f w h = ground arith

pub All-selected :
    (P : ServiceOrder → Type 0) (p : ServiceOrder → Bool) (rows : List ServiceOrder)
    → All (λ s. p s ≡ true → P s) rows
    → All P (select p rows)
All-selected P p [] a = tt
All-selected P p (o ∷ rest) a = elim (Bool-cases (p o)) [
  | inl kept ↦ rw kept (a.0 kept, All-selected P p rest a.1)
  | inr dropped ↦ rw dropped (All-selected P p rest a.1)
]

pub All-save_row :
    (P : ServiceOrder → Type 0) (t : ServiceOrder) (rows : List ServiceOrder)
    → P t
    → All P rows
    → All P (save_row t rows)
unfolding save_row
All-save_row P t [] p a = (p, tt)
All-save_row P t (o ∷ rest) p a = elim (Bool-cases (str_eq o.id t.id)) [
  | inl same ↦ rw same (p, a.1)
  | inr other ↦ rw other (a.0, All-save_row P t rest p a.1)
]

pub save_row_stands :
    (t : ServiceOrder) (rows : List ServiceOrder) → Any (λ o. o ≡ t) (save_row t rows)
unfolding save_row
save_row_stands t [] = inl refl
save_row_stands t (o ∷ rest) = elim (Bool-cases (str_eq o.id t.id)) [
  | inl same ↦ rw same (inl refl)
  | inr other ↦ rw other (inr (save_row_stands t rest))
]
