-- ===== src/Http/Failures.antt =====
-- error_mapper.go: the status of an error.
use oficina_tech_ms_order_se.Shared.{Bool, String, arith, false, true, ℕ, ◌≤◌}
use oficina_tech_ms_order_se.Domain.Errors.{Error}
use oficina_tech_ms_order_se.Domain.Status.{status_code}
use oficina_tech_ms_order_se.Http.Mapping.{
  ErrorMapping, map_domain_error, map_refusal, map_validation, return_if,
}

abbrev pub Fails : ErrorMapping → Type 0
Fails m = 400 ≤ m.status_code

pub return_if-Fails :
    (b : Bool) (code : String) (status_code : ℕ) (rest : ErrorMapping)
    → 400 ≤ status_code
    → Fails rest
    → Fails (return_if b code status_code rest)
unfolding return_if
return_if-Fails true code status_code rest f g = f
return_if-Fails false code status_code rest f g = g

-- The status codes of failures.
codes :
    (400 ≤ 400) × (400 ≤ 401) × (400 ≤ 403) × (400 ≤ 404) × (400 ≤ 409) × (400 ≤ 500) × (400 ≤ 501)
codes = ground arith

map_validation-Fails : (words : String) → Fails (map_validation words)
unfolding map_validation
map_validation-Fails words = let known = codes in search (return_if-Fails)

map_refusal-Fails : (words : String) → Fails (map_refusal words)
unfolding map_refusal
map_refusal-Fails words =
    let known = codes in search (return_if-Fails, map_validation-Fails) depth 14

-- No error is answered as a success.
pub map_domain_error-Fails : (failure : Error) → Fails (map_domain_error failure)
unfolding map_domain_error
map_domain_error-Fails failure =
    let known = codes in search (return_if-Fails, map_refusal-Fails) depth 8
