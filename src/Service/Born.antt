-- ===== src/Service/Born.antt =====
-- What holds of every stored order, however it came to be stored.
use mathlib.Core.Path.{subst}
use oficina_tech_ms_order_se.Shared.{
  List, Option-cases, String, inl, inr, none, refl, some, sym, ◌∙◌, ◌≡◌,
}
use oficina_tech_ms_order_se.Domain.Order.{ServiceOrder}
use oficina_tech_ms_order_se.Domain.Order.Life.{IsConsistent}
use oficina_tech_ms_order_se.Domain.Order.Traces.{onward_status, ⟶*-trans}
use oficina_tech_ms_order_se.Domain.Status.{received}
use oficina_tech_ms_order_se.Domain.Status.Flow.{here, ◌⟶*◌}
use oficina_tech_ms_order_se.Platform.Evolution.{Evolves}
use oficina_tech_ms_order_se.Platform.Rules.{Rows}
use oficina_tech_ms_order_se.Platform.Table.{find_row}
use oficina_tech_ms_order_se.Service.Runs.{Descends}

pub Descends-refl : (s : ServiceOrder) → Descends s s
Descends-refl s = record { path = here; closed_once = λ _. refl; consistent = λ i. i }

Descends-trans : (s t u : ServiceOrder) → Descends s t → Descends t u → Descends s u
Descends-trans s t u d e = record {
  path = ⟶*-trans d.path e.path;
  closed_once = λ h. let kept = d.closed_once h in e.closed_once (rw kept h) ∙ kept;
  consistent = λ i. e.consistent (d.consistent i);
}

Evolves-Descends_one : (s t : ServiceOrder) → Evolves s t → Descends s t
Evolves-Descends_one s t e = record {
  path = onward_status s.status t.status e.advances.edge;
  closed_once = e.advances.closed_once;
  consistent = e.consistent;
}

-- An order as a creation makes it, after any steps: the invariant holds, and its status is one that
-- the workflow reaches from RECEIVED.
pub record IsLegitimate (s : ServiceOrder) : Type 0 where
  pub consistent : IsConsistent s
  pub reached : received ⟶* s.status

-- Every row of the first table is in the second and descends from itself, and the rows that are
-- only in the second are legitimate.
pub record Grows (o p : List ServiceOrder) : Type 0 where
  pub kept :
      (id : String) (s : ServiceOrder)
      → find_row id o ≡ some s
      → (t : ServiceOrder) × (find_row id p ≡ some t) × Descends s t
  pub added :
      (id : String) (t : ServiceOrder)
      → find_row id o ≡ none
      → find_row id p ≡ some t
      → IsLegitimate t

Descends-IsLegitimate : (s t : ServiceOrder) → Descends s t → IsLegitimate s → IsLegitimate t
Descends-IsLegitimate s t d l = record {
  consistent = d.consistent l.consistent;
  reached = ⟶*-trans l.reached d.path;
}

pub Grows-refl : (o : List ServiceOrder) → Grows o o
Grows-refl o = record {
  kept = λ id s h. (s, h, Descends-refl s);
  added = λ id t missing h. let both : none ≡ some t = sym missing ∙ h in cc;
}

-- The row of the second table, once it is known where the first had one.
row_again :
    (p : List ServiceOrder) (id : String) (t u : ServiceOrder)
    → find_row id p ≡ some t
    → find_row id p ≡ some u
    → t ≡ u
row_again p id t u a b = let both : some t ≡ some u = sym a ∙ b in cc

pub Grows-trans : (o p q : List ServiceOrder) → Grows o p → Grows p q → Grows o q
Grows-trans o p q a b = record {
  kept = λ id s h.
      let (t, row_t, d) = a.kept id s h in
      let (u, row_u, e) = b.kept id t row_t in (u, row_u, Descends-trans s t u d e);
  added = λ id u missing h. elim (Option-cases (find_row id p)) [
    | inl still ↦ b.added id u still h
    | inr (t, row) ↦
        let (x, row_x, d) = b.kept id t row in
        subst IsLegitimate (row_again q id x u row_x h)
          (Descends-IsLegitimate t x d (a.added id t missing row))
  ];
}

pub Rows-Grows : (o p : List ServiceOrder) → Rows Evolves o p → Grows o p
Rows-Grows o p r = record {
  kept = λ id s h. let (t, row, e) = r.kept id s h in (t, row, Evolves-Descends_one s t e);
  added = λ id t missing h. let both : none ≡ some t = sym (r.no_new id missing) ∙ h in cc;
}
