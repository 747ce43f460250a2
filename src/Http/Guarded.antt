-- ===== src/Http/Guarded.antt =====
-- routes.go: a request reaches its handler exactly where the role of the caller is high enough.
use oficina_tech_ms_order_se.Shared.{
  Bool, Option, String, arith, false, leb, none, refl, some, true, ℕ, ◌↔◌, ◌≡◌, ap, sym, ◌∙◌,
}
use oficina_tech_ms_order_se.Access.{
  Decision, admitted, forbidden, has_required_role, level_suffices, require_role, role_level,
  served,
}
use oficina_tech_ms_order_se.Access.Roles.{require_role_iff}
use oficina_tech_ms_order_se.Http.Handlers.{Caller, Handler, Reply}
use oficina_tech_ms_order_se.Http.Replies.{IsFailure}
use oficina_tech_ms_order_se.Http.Routes.{
  Request, advancing, allowed_roles, authorizing, deleting, handle, listing, protect, reading,
  route, tracing,
}
use oficina_tech_ms_order_se.Platform.Monad.{World}
use oficina_tech_ms_order_se.Platform.Ports.{Env}

-- The lowest level of the hierarchy that may ask: CUSTOMER 0, USER 1, MANAGER 2.
abbrev lowest_level : Request → ℕ
lowest_level (listing _) = 0
lowest_level (authorizing _ _) = 0
lowest_level (deleting _) = 2
lowest_level _ = 1

abbrev pub reaches : ℕ → Option ℕ → Bool
reaches lowest none = false
reaches lowest (some level) = leb lowest level

suffices :
    (request : Request) (level : Option ℕ)
    → level_suffices level (allowed_roles request) ≡ reaches (lowest_level request) level
unfolding allowed_roles admitted role_level
suffices (listing q) none = refl
suffices (listing q) (some level) = ground arith
suffices (reading id) none = refl
suffices (reading id) (some level) = ground arith
suffices (deleting id) none = refl
suffices (deleting id) (some level) = ground arith
suffices (advancing id) none = refl
suffices (advancing id) (some level) = ground arith
suffices (authorizing id body) none = refl
suffices (authorizing id body) (some level) = ground arith
suffices (tracing id) none = refl
suffices (tracing id) (some level) = ground arith

has_required_role-reaches :
    (request : Request) (role : String)
    → has_required_role role (allowed_roles request)
      ≡ reaches (lowest_level request) (role_level role)
unfolding has_required_role
has_required_role-reaches request role = suffices request (role_level role)

served_iff :
    (request : Request) (role : String)
    → (require_role (allowed_roles request) (some role) ≡ served)
      ↔ (reaches (lowest_level request) (role_level role) ≡ true)
served_iff request role =
    let passes_role = require_role_iff (allowed_roles request) (some role) in
    let same_test = has_required_role-reaches request role in
    (
      λ h.
          let (r, same, t) = passes_role.0 h in
          let found_role : role ≡ r = cc in
          sym same_test ∙ ap (λ x. has_required_role x (allowed_roles request)) found_role ∙ t,
      λ h. passes_role.1 (role, refl, same_test ∙ h),
    )

-- What a decision makes of a request.
abbrev IsRouted : Bool → Reply × World → Reply × World → World → Type 0
IsRouted true handled out w = out ≡ handled
IsRouted false handled out w = IsFailure 403 out.0 × (out.1 ≡ w)

protected :
    (b : Bool) (d : Decision) (next : Handler) (w : World)
    → (d ≡ served) ↔ (b ≡ true)
    → IsRouted b (next w) (protect d next w) w
protected true served next w e = refl
protected true (forbidden complaint) next w e = let no = e.1 refl in cc
protected false served next w e = let no = e.0 refl in cc
protected false (forbidden complaint) next w e = ((refl, ground arith, refl, refl), refl)

-- A request of a caller whose role stands in the hierarchy at the level of CUSTOMER, for a list or an
-- answer to an estimate, of MANAGER, for a deletion, or of USER, for the others, or above, is handled;
-- any other gets 403, and leaves the state as it is.
pub route-IsRouted :
    (is_uuid : String → Bool) (env : Env) (caller : Caller) (request : Request) (w : World)
    → IsRouted
        (reaches (lowest_level request) (role_level caller.role))
        (handle is_uuid env caller request w)
        (route is_uuid env caller request w)
        w
unfolding route
route-IsRouted is_uuid env caller request w =
    protected (reaches (lowest_level request) (role_level caller.role))
      (require_role (allowed_roles request) (some caller.role)) (handle is_uuid env caller request)
      w (served_iff request caller.role)
