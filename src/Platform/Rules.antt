-- ===== src/Platform/Rules.antt =====
-- Rules for what an action does to the table of orders, in the shape of the code: one for each step
-- of a `do` block.
use mathlib.Core.Path.{subst}
use oficina_tech_ms_order_se.Shared.{
  List, Option-cases, String, arith, inl, inr, none, refl, some, ◌∙◌, ◌≡◌, Bool-cases, ap, eq_iff,
  str_eq, sym, true, Option, Bool, false, if◌then◌else◌,
}
use oficina_tech_ms_order_se.Domain.Errors.{Result, err, ok, Error}
use oficina_tech_ms_order_se.Domain.History.{History}
use oficina_tech_ms_order_se.Domain.Order.{ServiceOrder}
use oficina_tech_ms_order_se.Platform.Monad.{
  ◌>>=◌, Action, InventoryRequest, World, lift, pure, raise,
}
use oficina_tech_ms_order_se.Platform.Ports.{
  Env, find_by_id, publish_request, save_history_record, save_order, find_outcome, generate_uuid,
  read_clock,
}
use oficina_tech_ms_order_se.Platform.Table.{find_row, save_row, find_row-save_row, find_row_id}

-- The action leaves the table alone.
pub record Quiet {A : Type 0} (m : Action A) : Type 0 where
  pub run : (w : World) → (m w).1.orders ≡ w.orders

-- An action that answers with the result and goes on from the state.
abbrev pub pair : {A : Type 0} → Result A → World → Action A
pair r v w = (r, v)

module _ {A B : Type 0} where
  -- What follows a step with the result `r` and the state `v`.
  pub resumed :
      (P : World → Type 0) (f : A → Action B) (r : Result A) (v : World)
      → ((a : A) → r ≡ ok a → P (f a v).1)
      → P v
      → P ((pair r v >>= f) v).1
  unfolding ◌>>=◌
  resumed P f (ok a) v go stop = go a refl
  resumed P f (err e) v go stop = stop

  pub Quiet-bind :
      {m : Action A} {f : A → Action B} → Quiet m → ((a : A) → Quiet (f a)) → Quiet (m >>= f)
  unfolding ◌>>=◌
  Quiet-bind {m} {f} qm qf = record {
    run = λ w.
        resumed (λ v. v.orders ≡ w.orders) f (m w).0 (m w).1 (λ a e. (qf a).run (m w).1 ∙ qm.run w)
          (qm.run w);
  }

pub Quiet-pure : {A : Type 0} {a : A} → Quiet (pure a)
Quiet-pure = record { run = λ w. refl }

pub Quiet-raise : {A : Type 0} {e : Error} → Quiet {A = A} (raise e)
Quiet-raise = record { run = λ w. refl }

pub Quiet-read_clock : (env : Env) → Quiet (read_clock env)
Quiet-read_clock env = record { run = λ w. refl }

pub Quiet-generate_uuid : (env : Env) → Quiet (generate_uuid env)
Quiet-generate_uuid env = record { run = λ w. refl }

pub Quiet-save_history_record : (env : Env) (h : History) → Quiet (save_history_record env h)
Quiet-save_history_record env h = record { run = λ w. ground arith }

pub Quiet-publish_request : (env : Env) (r : InventoryRequest) → Quiet (publish_request env r)
Quiet-publish_request env r = record { run = λ w. ground arith }

pub find_outcome_ok :
    (failure : Option Error) (row : Option ServiceOrder) {s : ServiceOrder}
    → find_outcome failure row ≡ ok s
    → row ≡ some s
find_outcome_ok none (some s) h = ground arith
find_outcome_ok none none h = cc
find_outcome_ok (some e) row h = cc

-- Every row of the first table has a row of its id in the second that it stands in `R` with, and the
-- second has no other ids.
pub record Rows (R : ServiceOrder → ServiceOrder → Type 0) (o p : List ServiceOrder) : Type 0 where
  pub kept :
      (id : String) (s : ServiceOrder)
      → find_row id o ≡ some s
      → (t : ServiceOrder) × (find_row id p ≡ some t) × R s t
  pub no_new : (id : String) → find_row id o ≡ none → find_row id p ≡ none

-- Run from the table `o`, the action ends in a table that stands in `Rows` with it.
pub record SafeFor (R : ServiceOrder → ServiceOrder → Type 0) (o : List ServiceOrder) {A : Type 0}
    (m : Action A) : Type 0 where
  pub run : (w : World) → w.orders ≡ o → Rows R o (m w).1.orders

module _ {R : ServiceOrder → ServiceOrder → Type 0} (reflexive : (s : ServiceOrder) → R s s) where
  pub Rows-same : (o : List ServiceOrder) → Rows R o o
  Rows-same o = record { kept = λ id s h. (s, h, reflexive s); no_new = λ id h. h }

  pub Rows-save_row :
      (old s : ServiceOrder) (o : List ServiceOrder)
      → find_row s.id o ≡ some old
      → R old s
      → Rows R o (save_row s o)
  Rows-save_row old s o h r = record {
    kept = λ id t row. elim (Bool-cases (str_eq s.id id)) [
      | inl same ↦ (s, rw (find_row-save_row, same), overwritten id t row same)
      | inr other ↦ (t, rw (find_row-save_row, other) row, reflexive t)
    ];
    no_new = λ id missing. elim (Bool-cases (str_eq s.id id)) [
      | inl same ↦ absurd (no_row id missing same)
      | inr other ↦ rw (find_row-save_row, other) missing
    ];
  }
    where
      overwritten :
          (id : String) (t : ServiceOrder) → find_row id o ≡ some t → str_eq s.id id ≡ true → R t s
      overwritten id t row same =
          let ids : s.id ≡ id = (eq_iff s.id id).0 same in
          let rows : some old ≡ some t = sym h ∙ ap (λ k. find_row k o) ids ∙ row in
          let both : old ≡ t = cc in subst (λ u. R u s) both r

      no_row : (id : String) → find_row id o ≡ none → str_eq s.id id ≡ true → ⊥
      no_row id missing same =
          let ids : s.id ≡ id = (eq_iff s.id id).0 same in
          let both : some old ≡ none = sym h ∙ ap (λ k. find_row k o) ids ∙ missing in cc

  module _ {o : List ServiceOrder} where
    pub Safe-save_order :
        (env : Env) (old s : ServiceOrder)
        → find_row s.id o ≡ some old
        → R old s
        → SafeFor R o (save_order env s)
    Safe-save_order env old s h r = record {
      run = λ w e. elim (Option-cases (env.save_error w.tick s)) [
        | inl fine ↦ rw (fine, e) (Rows-save_row old s o h r)
        | inr (x, fails) ↦ rw (fails, e) (Rows-same o)
      ];
    }

    pub Safe-of_Quiet : {A : Type 0} {m : Action A} → Quiet m → SafeFor R o m
    Safe-of_Quiet q = record { run = λ w e. rw (q.run w ∙ e) (Rows-same o) }

    pub Safe-Quiet_then :
        {A B : Type 0} {m : Action A} {f : A → Action B}
        → Quiet m
        → ((a : A) → SafeFor R o (f a))
        → SafeFor R o (m >>= f)
    unfolding ◌>>=◌
    Safe-Quiet_then {m} {f} q s = record {
      run = λ w e.
          resumed (λ v. Rows R o v.orders) f (m w).0 (m w).1
            (λ a x. (s a).run (m w).1 (q.run w ∙ e)) (rw (q.run w ∙ e) (Rows-same o));
    }

    pub Safe-then-Quiet :
        {A B : Type 0} {m : Action A} {f : A → Action B}
        → SafeFor R o m
        → ((a : A) → Quiet (f a))
        → SafeFor R o (m >>= f)
    unfolding ◌>>=◌
    Safe-then-Quiet {m} {f} s q = record {
      run = λ w e.
          resumed (λ v. Rows R o v.orders) f (m w).0 (m w).1
            (λ a x. rw ((q a).run (m w).1) (s.run w e)) (s.run w e);
    }

    pub Safe-lift_then :
        {A B : Type 0} {r : Result A} {f : A → Action B}
        → ((a : A) → r ≡ ok a → SafeFor R o (f a))
        → SafeFor R o (lift r >>= f)
    unfolding ◌>>=◌
    Safe-lift_then {r} {f} s = record {
      run = λ w e.
          resumed (λ v. Rows R o v.orders) f r w (λ a x. (s a x).run w e) (rw e (Rows-same o));
    }

    pub Safe-if :
        {A : Type 0} {b : Bool} {m n : Action A}
        → (b ≡ true → SafeFor R o m)
        → (b ≡ false → SafeFor R o n)
        → SafeFor R o (if b then m else n)
    Safe-if {b = true} yes_case no_case = yes_case refl
    Safe-if {b = false} yes_case no_case = no_case refl

    pub Safe-find_then :
        {B : Type 0} (env : Env) (id : String) {f : ServiceOrder → Action B}
        → ((s : ServiceOrder) → find_row s.id o ≡ some s → SafeFor R o (f s))
        → SafeFor R o (find_by_id env id >>= f)
    unfolding ◌>>=◌
    Safe-find_then env id {f} s = record {
      run = λ w e.
          resumed (λ v. Rows R o v.orders) f (find_by_id env id w).0 (find_by_id env id w).1
            (λ a x.
              let row : find_row id o ≡ some a =
                ap (find_row id) (sym e)
                ∙ find_outcome_ok (env.find_error w.tick id) (find_row id w.orders) x in
              (s a (ap (λ k. find_row k o) (find_row_id id o row) ∙ row)).run
                (find_by_id env id w).1 e)
            (rw e (Rows-same o));
    }
