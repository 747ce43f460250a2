-- ===== src/Platform/Silent.antt =====
-- Actions that write nothing: they call out, and leave every table, queue and mailbox as it was.
use oficina_tech_ms_order_se.Shared.{Bool, ap, false, if◌then◌else◌, refl, true, ℕ, ◌∙◌, ◌≡◌}
use oficina_tech_ms_order_se.Domain.Errors.{Error, Result, err, ok}
use oficina_tech_ms_order_se.Platform.Monad.{◌>>=◌, Action, World, lift, pure, raise_if}
use oficina_tech_ms_order_se.Platform.Ports.{Env, generate_uuid, read_clock}
use oficina_tech_ms_order_se.Platform.Rules.{Quiet, pair, resumed}

abbrev pub tick_to : ℕ → World → World
tick_to n w = record w { tick = n }

-- Only the count of calls moves.
pub record Silent {A : Type 0} (m : Action A) : Type 0 where
  pub run : (w : World) → (m w).1 ≡ tick_to (m w).1.tick w

-- Where the world after an action stands, when all but its count of calls is known.
ticked : (u v w : World) → u ≡ tick_to u.tick v → v ≡ tick_to v.tick w → u ≡ tick_to u.tick w
ticked u v w a b = a ∙ ap (tick_to u.tick) b

module _ {A B : Type 0} where
  pub Silent-bind :
      {m : Action A} {f : A → Action B} → Silent m → ((a : A) → Silent (f a)) → Silent (m >>= f)
  unfolding ◌>>=◌
  Silent-bind {m} {f} qm qf = record {
    run = λ w.
        resumed (λ v. v ≡ tick_to v.tick w) f (m w).0 (m w).1
          (λ a e. ticked (f a (m w).1).1 (m w).1 w ((qf a).run (m w).1) (qm.run w)) (qm.run w);
  }

  -- A chain that fails after silent steps only.
  pub Silent-then_err :
      (m : Action A) (f : A → Action B) (w : World) {e : Error}
      → Silent m
      → ((a : A) (v : World) → (f a v).0 ≡ err e → (f a v).1 ≡ tick_to (f a v).1.tick v)
      → ((m >>= f) w).0 ≡ err e
      → ((m >>= f) w).1 ≡ tick_to ((m >>= f) w).1.tick w
  unfolding ◌>>=◌
  Silent-then_err m f w {e} q go h = failed_chain (m w).0 (m w).1 (q.run w) h
    where
      failed_chain :
          (r : Result A) (v : World)
          → v ≡ tick_to v.tick w
          → ((pair r v >>= f) v).0 ≡ err e
          → ((pair r v >>= f) v).1 ≡ tick_to ((pair r v >>= f) v).1.tick w
      failed_chain (ok a) v s h = ticked (f a v).1 v w (go a v h) s
      failed_chain (err x) v s h = s

pub Silent-pure : {A : Type 0} {a : A} → Silent (pure a)
Silent-pure = record { run = λ w. refl }

pub Silent-lift : {A : Type 0} (r : Result A) → Silent (lift r)
Silent-lift r = record { run = λ w. refl }

pub Silent-raise_if : (b : Bool) (e : Error) → Silent (raise_if b e)
Silent-raise_if b e = record { run = λ w. refl }

pub Silent-read_clock : (env : Env) → Silent (read_clock env)
Silent-read_clock env = record { run = λ w. refl }

pub Silent-generate_uuid : (env : Env) → Silent (generate_uuid env)
Silent-generate_uuid env = record { run = λ w. refl }

pub Silent-if :
    {A : Type 0} (b : Bool) {m n : Action A} → Silent m → Silent n → Silent (if b then m else n)
Silent-if true m n = m
Silent-if false m n = n

pub Quiet-of_Silent : {A : Type 0} {m : Action A} → Silent m → Quiet m
Quiet-of_Silent q = record { run = λ w. ap (λ v. v.orders) (q.run w) }

-- A chain that fails after steps that leave the table of orders alone.
pub Quiet-then_err :
    {A B : Type 0} (m : Action A) (f : A → Action B) (w : World) {e : Error}
    → Quiet m
    → ((a : A) (v : World) → (m w).0 ≡ ok a → (f a v).0 ≡ err e → (f a v).1.orders ≡ v.orders)
    → ((m >>= f) w).0 ≡ err e
    → ((m >>= f) w).1.orders ≡ w.orders
unfolding ◌>>=◌
Quiet-then_err {A = A} m f w {e} q go h = failed_chain (m w).0 (m w).1 refl (q.run w) h
  where
    failed_chain :
        (r : Result A) (v : World)
        → (m w).0 ≡ r
        → v.orders ≡ w.orders
        → ((pair r v >>= f) v).0 ≡ err e
        → ((pair r v >>= f) v).1.orders ≡ w.orders
    failed_chain (ok a) v r s h = go a v r h ∙ s
    failed_chain (err x) v r s h = s
