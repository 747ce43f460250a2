-- ===== src/Platform/Outcomes.antt =====
-- How a chain of actions succeeds and fails: what its steps did when it is over, and how it runs when
-- they are known.
use oficina_tech_ms_order_se.Shared.{
  Bool, List, Option, String, ap, arith, false, if◌then◌else◌, none, refl, some, true, ◌≡◌,
}
use oficina_tech_ms_order_se.Domain.Errors.{Error, Result, err, ok, ok_injective}
use oficina_tech_ms_order_se.Domain.Order.{ServiceOrder}
use oficina_tech_ms_order_se.Platform.Monad.{◌>>=◌, Action, World}
use oficina_tech_ms_order_se.Platform.Ports.{Env, find_by_id, find_outcome, save_order, step}
use oficina_tech_ms_order_se.Platform.Rules.{find_outcome_ok, pair}
use oficina_tech_ms_order_se.Platform.Table.{find_row, save_row}

continued :
    {A B : Type 0} (f : A → Action B) (r : Result A) (v : World) {b : B}
    → ((pair r v >>= f) v).0 ≡ ok b
    → (a : A) × (r ≡ ok a) × ((f a v).0 ≡ ok b) × (((pair r v >>= f) v).1 ≡ (f a v).1)
unfolding ◌>>=◌
continued f (ok a) v h = (a, refl, h, refl)
continued f (err e) v h = cc

pub save_order-ok :
    (env : Env) (s : ServiceOrder) (w : World) {u : Unit {0}}
    → (save_order env s w).0 ≡ ok u
    → (save_order env s w).1.orders ≡ save_row s w.orders
save_order-ok env s w h = ground arith

-- A chain of two actions that succeeds: both do, and the end is that of the second.
pub >>=-ok :
    {A B : Type 0} (m : Action A) (f : A → Action B) (w : World) {b : B}
    → ((m >>= f) w).0 ≡ ok b
    → (a : A) × ((m w).0 ≡ ok a) × ((f a (m w).1).0 ≡ ok b) × (((m >>= f) w).1 ≡ (f a (m w).1).1)
unfolding ◌>>=◌
>>=-ok m f w h = continued f (m w).0 (m w).1 h

-- What `FindByID` hands on, when it succeeds.
pub find_by_id-ok :
    (env : Env) (id : String) (w : World) {s : ServiceOrder}
    → (find_by_id env id w).0 ≡ ok s
    → find_row id w.orders ≡ some s
find_by_id-ok env id w h = find_outcome_ok (env.find_error w.tick id) (find_row id w.orders) h

module _ {A : Type 0} (P : List ServiceOrder → Type 0) where
  -- What holds of the table after both branches of a step that succeeds holds after the step.
  pub if_ends :
      (b : Bool) (m n : Action A) (v : World) {a : A}
      → (b ≡ true → (m v).0 ≡ ok a → P (m v).1.orders)
      → (b ≡ false → (n v).0 ≡ ok a → P (n v).1.orders)
      → ((if b then m else n) v).0 ≡ ok a
      → P ((if b then m else n) v).1.orders
  if_ends true m n v yes_case no_case h = yes_case refl h
  if_ends false m n v yes_case no_case h = no_case refl h

resume :
    {A B : Type 0} (f : A → Action B) (r : Result A) (v : World) {a : A}
    → r ≡ ok a
    → (pair r v >>= f) v ≡ f a v
unfolding ◌>>=◌
resume f (ok b) v h = ap (λ x. f x v) (ok_injective h)
resume f (err e) v h = cc

-- A chain whose first action succeeds goes on with the second.
pub >>=_resumed :
    {A B : Type 0} (m : Action A) (f : A → Action B) (w : World) {a : A}
    → (m w).0 ≡ ok a
    → (m >>= f) w ≡ f a (m w).1
unfolding ◌>>=◌
>>=_resumed m f w h = resume f (m w).0 (m w).1 h

outcome_found :
    (failure : Option Error) (row : Option ServiceOrder) {s : ServiceOrder}
    → failure ≡ none
    → row ≡ some s
    → find_outcome failure row ≡ ok s
outcome_found none (some s) n h = ground arith
outcome_found none none n h = cc
outcome_found (some e) row n h = cc

-- A table that answers and has the row hands it on.
pub find_by_id_found :
    (env : Env) (id : String) (w : World) {s : ServiceOrder}
    → env.find_error w.tick id ≡ none
    → find_row id w.orders ≡ some s
    → (find_by_id env id w).0 ≡ ok s
find_by_id_found env id w n h = outcome_found (env.find_error w.tick id) (find_row id w.orders) n h

-- A database that takes the order stores it.
pub save_order_ran :
    (env : Env) (s : ServiceOrder) (w : World)
    → env.save_error w.tick s ≡ none
    → save_order env s w ≡ (ok tt, step (record w { orders = save_row s w.orders }))
save_order_ran env s w h = rw h refl

halt :
    {A B : Type 0} (f : A → Action B) (r : Result A) (v : World) {e : Error}
    → r ≡ err e
    → (pair r v >>= f) v ≡ (err e, v)
unfolding ◌>>=◌
halt f (ok b) v h = cc
halt f (err e) v h = ground arith

-- A chain whose first action fails ends there.
pub >>=_halted :
    {A B : Type 0} (m : Action A) (f : A → Action B) (w : World) {e : Error}
    → (m w).0 ≡ err e
    → (m >>= f) w ≡ (err e, (m w).1)
unfolding ◌>>=◌
>>=_halted m f w h = halt f (m w).0 (m w).1 h
