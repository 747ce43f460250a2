-- ===== src/Access/Roles.antt =====
-- The hierarchy of the roles.
use mathlib.Core.Path.{subst}
use oficina_tech_ms_order_se.Shared.{
  Any, Bool-cases, List, Option, String, [], arith, inl, inr, none, refl, some, true, ℕ, ◌↔◌, ◌∷◌,
  ◌≡◌, ◌≤◌, Bool, eq_iff, false, str_eq, sym, ◌∙◌, ap, if◌then◌else◌, is_empty, not, ◌&&◌, ◌⊎◌,
}
use oficina_tech_ms_order_se.Access.{
  admits, admitted, has_required_role, role_level, decide, level_suffices, require_role, served,
  forbidden, extract_resource_id, require_owner_or_role,
}

-- The role stands at that level at least.
abbrev IsAtMost : ℕ → String → Type 0
IsAtMost level role = (k : ℕ) × (role_level role ≡ some k) × (k ≤ level)

admits_iff :
    (level : ℕ) (role : Option ℕ)
    → (admits level role ≡ true) ↔ ((k : ℕ) × (role ≡ some k) × (k ≤ level))
admits_iff level none = (λ h. cc, λ (k, e, _). cc)
admits_iff level (some k) = (λ h. (k, refl, ground arith), λ (l, e, le). ground arith)

admitted_iff :
    (level : ℕ) (roles : List String) → (admitted level roles ≡ true) ↔ Any (IsAtMost level) roles
unfolding admitted
admitted_iff level [] = (λ h. cc, λ e. absurd e)
admitted_iff level (role ∷ rest) =
    let head = admits_iff level (role_level role) in
    let tail = admitted_iff level rest in
    (
      λ h. elim (Bool-cases (admits level (role_level role))) [
        | inl yes_head ↦ inl (head.0 yes_head)
        | inr no_head ↦ inr (tail.0 (rw no_head at h))
      ],
      λ a. elim a [ inl k ↦ rw (head.1 k) refl | inr later ↦ ground (arith, tail.1 later) ],
    )

level_suffices_iff :
    (o : Option ℕ) (roles : List String)
    → (level_suffices o roles ≡ true)
      ↔ ((level : ℕ) × (o ≡ some level) × Any (IsAtMost level) roles)
level_suffices_iff none roles = (λ h. cc, λ (l, e, _). cc)
level_suffices_iff (some level) roles = (
  λ h. (level, refl, (admitted_iff level roles).0 h),
  λ (l, e, a).
      let same : level ≡ l = ground arith in
      (admitted_iff level roles).1 (subst (λ k. Any (IsAtMost k) roles) (sym same) a),
)

-- `hasRequiredRole` holds exactly when the user's role is in the hierarchy and some allowed role is
-- in it at the same level or below.
has_required_role_iff :
    (user_role : String) (allowed_roles : List String)
    → (has_required_role user_role allowed_roles ≡ true)
      ↔ ((level : ℕ) × (role_level user_role ≡ some level) × Any (IsAtMost level) allowed_roles)
unfolding has_required_role
has_required_role_iff user_role allowed_roles =
    level_suffices_iff (role_level user_role) allowed_roles

customer_alone : (role : String) → IsAtMost 0 role → role ≡ "CUSTOMER"
unfolding role_level
customer_alone role (k, e, le) =
    let named : str_eq role "CUSTOMER" ≡ true = ground arith in (eq_iff role "CUSTOMER").0 named

Any-map :
    (P Q : String → Type 0) (roles : List String)
    → ((r : String) → P r → Q r)
    → Any P roles
    → Any Q roles
Any-map P Q [] f a = a
Any-map P Q (r ∷ rest) f (inl p) = inl (f r p)
Any-map P Q (r ∷ rest) f (inr later) = inr (Any-map P Q rest f later)

customer_level : role_level "CUSTOMER" ≡ some 0
unfolding role_level
customer_level = refl

-- A customer passes only where the endpoint lists CUSTOMER among its roles.
has_required_role-customer :
    (allowed_roles : List String)
    → has_required_role "CUSTOMER" allowed_roles ≡ true
    → Any (λ role. role ≡ "CUSTOMER") allowed_roles
has_required_role-customer allowed_roles h =
    let (level, e, a) = (has_required_role_iff "CUSTOMER" allowed_roles).0 h in
    let bottom : some 0 ≡ some level = sym customer_level ∙ e in
    let same : level ≡ 0 = ground arith in
    Any-map (IsAtMost 0) (λ role. role ≡ "CUSTOMER") allowed_roles customer_alone
      (subst (λ k. Any (IsAtMost k) allowed_roles) same a)

served_if : (b : Bool) → (decide b ≡ served) ↔ (b ≡ true)
served_if true = (λ _. refl, λ _. refl)
served_if false = (λ h. cc, λ h. cc)

no_role_fails : (allowed_roles : List String) → has_required_role "" allowed_roles ≡ false
unfolding has_required_role role_level
no_role_fails allowed_roles = refl

named_role :
    (role : String) (allowed_roles : List String)
    → has_required_role role allowed_roles ≡ true
    → is_empty role ≡ false
named_role role allowed_roles h = elim (Bool-cases (is_empty role)) [
  | inl unnamed ↦
      let blank : role ≡ "" = (eq_iff role "").0 unnamed in
      let both : true ≡ false =
        sym h ∙ ap (λ r. has_required_role r allowed_roles) blank ∙ no_role_fails allowed_roles in
      cc
  | inr named ↦ named
]

with_role_iff :
    (role : String) (allowed_roles : List String) (b : Bool)
    → is_empty role ≡ b
    → ((if b
          then forbidden "User role not found in context"
          else decide (has_required_role role allowed_roles))
        ≡ served)
      ↔ (has_required_role role allowed_roles ≡ true)
with_role_iff role allowed_roles true e =
    (λ h. cc, λ h. let off = named_role role allowed_roles h in cc)
with_role_iff role allowed_roles false e = served_if (has_required_role role allowed_roles)

-- `RequireRole` serves a request exactly when its context holds a role that suffices.
pub require_role_iff :
    (allowed_roles : List String) (user_role : Option String)
    → (require_role allowed_roles user_role ≡ served)
      ↔ ((role : String) × (user_role ≡ some role) × (has_required_role role allowed_roles ≡ true))
unfolding require_role
require_role_iff allowed_roles none = (λ h. cc, λ (r, e, _). cc)
require_role_iff allowed_roles (some role) =
    let inner = with_role_iff role allowed_roles (is_empty role) refl in
    (
      λ h. (role, refl, inner.0 h),
      λ (r, e, h).
          let same : role ≡ r = cc in
          inner.1 (ap (λ x. has_required_role x allowed_roles) same ∙ h),
    )

owner_or_role :
    (resource_id user_id : String) (b : Bool)
    → ((if not (is_empty resource_id) && str_eq user_id resource_id then served else decide b)
        ≡ served)
      ↔ (((is_empty resource_id ≡ false) × (user_id ≡ resource_id)) ⊎ (b ≡ true))
owner_or_role resource_id user_id b = ground (arith, eq_iff user_id resource_id)

-- `RequireOwnerOrRole` serves a request with a user and a role exactly when the path names a
-- resource that is the user, or the role suffices; whatever counts as a UUID.
require_owner_or_role_iff :
    (is_uuid : String → Bool) (allowed_roles : List String) (user_id role : String)
    (path : List String)
    → is_empty role ≡ false
    → (require_owner_or_role is_uuid allowed_roles (some user_id) (some role) path ≡ served) ↔ (
        ((is_empty (extract_resource_id is_uuid path) ≡ false)
          × (user_id ≡ extract_resource_id is_uuid path))
        ⊎ (has_required_role role allowed_roles ≡ true))
unfolding require_owner_or_role
require_owner_or_role_iff is_uuid allowed_roles user_id role path named = rw named (
    owner_or_role (extract_resource_id is_uuid path) user_id (has_required_role role allowed_roles))
