-- ===== src/Access.antt =====
-- Role-based access control (internal/infrastructure/auth/rbac.go). Roles and permissions are texts.
-- Every authorizer holds the package's own map of role permissions, so the state is that one map.
pub mod Grants
pub mod Changes
mod Tests
use high_performance_event_s.Common.{
  Bool, true, false, ◌&&◌, ◌||◌, not, String, List, [], ◌∷◌, ◌++◌, Option, none, some, any, filter,
  if◌then◌else◌, str_eq,
}
use high_performance_event_s.Common.Dict.{Dict, lookup, insert}

abbrev pub Role : Type 0
Role = String

abbrev pub Permission : Type 0
Permission = String

abbrev pub ingest_event : Permission
ingest_event = "ingest_event"

abbrev pub subscribe_event : Permission
subscribe_event = "subscribe_event"

abbrev pub replay_event : Permission
replay_event = "replay_event"

abbrev pub manage_consumer : Permission
manage_consumer = "manage_consumer"

abbrev pub manage_schema : Permission
manage_schema = "manage_schema"

abbrev pub view_metrics : Permission
view_metrics = "view_metrics"

abbrev pub manage_auth : Permission
manage_auth = "manage_auth"

abbrev pub Table : Type 0
Table = Dict (List Permission)

-- `RolePermissions`, which `NewRBACAuthorizer` takes as it is
unfoldable pub role_permissions : Table
role_permissions =
    (
      "admin",
      ingest_event ∷ subscribe_event ∷ replay_event ∷ manage_consumer ∷ manage_schema ∷ view_metrics
          ∷ manage_auth ∷ [],
    )
    ∷ ("publisher", ingest_event ∷ view_metrics ∷ [])
    ∷ ("subscriber", subscribe_event ∷ replay_event ∷ view_metrics ∷ [])
    ∷ ("viewer", view_metrics ∷ [])
    ∷ []

-- The fields of `Claims` that access control reads.
pub record Claims : Type 0 where
  pub user_id : String
  pub roles : List Role

-- `for _, p := range permissions { if p == permission { return true } }`
abbrev pub contains : List Permission → Permission → Bool
contains ps p = any (λ q. str_eq q p) ps

-- `ra.rolePermissions[role]`, nil where the role is missing
abbrev pub permissions_of : Table → Role → List Permission
permissions_of t role = elim (lookup role t) [ none ↦ [] | some ps ↦ ps ]

-- The loop of `HasPermission`; a missing role is passed over.
unfoldable pub any_role : Table → Permission → List Role → Bool
any_role t p [] = false
any_role t p (role ∷ roles) =
    let rest = any_role t p roles in
    elim (lookup role t) [ none ↦ rest | some ps ↦ if contains ps p then true else rest ]

-- `HasPermission`; `none` is nil.
unfoldable pub has_permission : Table → Option Claims → Permission → Bool
unfolding any_role
has_permission t none p = false
has_permission t (some c) p = any_role t p c.roles

-- `HasAnyPermission`
unfoldable pub has_any_permission : Table → Option Claims → List Permission → Bool
has_any_permission t c [] = false
has_any_permission t c (p ∷ ps) =
    let rest = has_any_permission t c ps in if has_permission t c p then true else rest

-- `HasAllPermissions`
unfoldable pub has_all_permissions : Table → Option Claims → List Permission → Bool
has_all_permissions t c [] = true
has_all_permissions t c (p ∷ ps) =
    let rest = has_all_permissions t c ps in if not (has_permission t c p) then false else rest

-- What an interceptor does with a call.
pub data Verdict : Type 0 where
  unauthenticated permission_denied pass_on : Verdict

-- `UnaryInterceptor` and `StreamInterceptor`: `none` is a context without claims, `some none` one
-- with a nil pointer.
unfoldable pub intercept : Table → Permission → Option (Option Claims) → Verdict
intercept t required none = unauthenticated
intercept t required (some c) =
    if not (has_permission t c required) then permission_denied else pass_on

-- The loop that drops duplicates; `seen` holds what it has kept.
unfoldable pub unique : List Permission → List Permission → List Permission
unique seen [] = []
unique seen (p ∷ ps) = elim (not (contains seen p)) [
  | true ↦ p ∷ unique (p ∷ seen) ps
  | false ↦ unique seen ps
]

-- `AddRolePermissions`
unfoldable pub add_role_permissions : Role → List Permission → Table → Table
add_role_permissions role ps t = insert role (unique [] (permissions_of t role ++ ps)) t

-- `RemoveRolePermissions`
unfoldable pub remove_role_permissions : Role → List Permission → Table → Table
remove_role_permissions role ps t =
    insert role (filter (λ p. not (contains ps p)) (permissions_of t role)) t

-- `GetRolePermissions`: a copy
unfoldable pub get_role_permissions : Table → Role → List Permission
get_role_permissions t role = permissions_of t role

-- The loop that collects the permissions of all roles.
unfoldable pub collect : Table → List Role → List Permission
unfolding get_role_permissions
collect t [] = []
collect t (role ∷ roles) = get_role_permissions t role ++ collect t roles

-- `GetUserPermissions`: the keys of the set, in one of the orders of a map
unfoldable pub get_user_permissions : Table → Option Claims → List Permission
unfolding collect
get_user_permissions t none = []
get_user_permissions t (some c) = unique [] (collect t c.roles)
