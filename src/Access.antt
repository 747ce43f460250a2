-- ===== src/Access.antt =====
-- internal/shared/infra/http/middleware/rbac_middleware.go: who may call an endpoint. A text of the
-- request's context is `none` where it is missing; the parts of the path between its slashes, and
-- the test of a UUID, come from outside.
pub mod Roles
use oficina_tech_ms_order_se.Shared.{
  ℕ, Bool, List, Option, String, [], false, if◌then◌else◌, is_empty, leb, none, not, some, str_eq,
  ◌&&◌, ◌||◌, ◌∷◌,
}

-- `roleHierarchy`.
unfoldable pub role_level : String → Option ℕ
role_level role =
    if str_eq role "CUSTOMER"
    then some 0
    else if str_eq role "USER"
    then some 1
    else if str_eq role "MANAGER"
    then some 2
    else if str_eq role "ADMIN"
    then some 3
    else none

-- One round of the loop.
abbrev pub admits : ℕ → Option ℕ → Bool
admits user_level none = false
admits user_level (some allowed_level) = leb allowed_level user_level

-- The loop over the allowed roles.
unfoldable pub admitted : ℕ → List String → Bool
admitted user_level [] = false
admitted user_level (role ∷ rest) = admits user_level (role_level role) || admitted user_level rest

abbrev pub level_suffices : Option ℕ → List String → Bool
level_suffices none allowed_roles = false
level_suffices (some user_level) allowed_roles = admitted user_level allowed_roles

unfoldable pub has_required_role : String → List String → Bool
has_required_role user_role allowed_roles = level_suffices (role_level user_role) allowed_roles

-- What a middleware does with a request: the next handler, or 403.
pub data Decision : Type 0 where
  served : Decision
  forbidden : String → Decision

abbrev pub decide : Bool → Decision
decide allowed = if allowed then served else forbidden "Insufficient permissions"

abbrev with_role : Option String → (String → Decision) → Decision
with_role none next = forbidden "User role not found in context"
with_role (some role) next =
    if is_empty role then forbidden "User role not found in context" else next role

unfoldable pub require_role : List String → Option String → Decision
require_role allowed_roles user_role =
    with_role user_role (λ role. decide (has_required_role role allowed_roles))

-- The last part of the path that is a UUID: the parts are looked at from the end.
unfoldable pub last_uuid : (String → Bool) → List String → Option String
last_uuid is_uuid [] = none
last_uuid is_uuid (part ∷ rest) = elim (last_uuid is_uuid rest) [
  | some later ↦ some later
  | none ↦ if is_uuid part then some part else none
]

abbrev or_empty : Option String → String
or_empty none = ""
or_empty (some part) = part

unfoldable pub extract_resource_id : (String → Bool) → List String → String
extract_resource_id is_uuid parts = or_empty (last_uuid is_uuid parts)

unfoldable pub require_owner_or_role :
    (String → Bool) → List String → Option String → Option String → List String → Decision
require_owner_or_role is_uuid allowed_roles none user_role path =
    forbidden "User ID not found in context"
require_owner_or_role is_uuid allowed_roles (some user_id) user_role path =
    with_role user_role (λ role.
      let resource_id = extract_resource_id is_uuid path in
      if not (is_empty resource_id) && str_eq user_id resource_id
      then served
      else decide (has_required_role role allowed_roles))
