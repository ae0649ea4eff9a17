-- ===== src/Access/Changes.antt =====
-- What `AddRolePermissions` and `RemoveRolePermissions` change.
use high_performance_event_s.Common.{
  ◌≡◌, refl, ◌∙◌, Bool, ◌&&◌, ◌||◌, not, List, [], ◌∷◌, ◌++◌, some, any, filter, str_eq, eq_iff,
  arith,
}
use high_performance_event_s.Common.Dict.{lookup-insert}
use high_performance_event_s.Access.{
  Role, Permission, Table, Claims, contains, permissions_of, get_role_permissions, any_role,
  has_permission, unique, add_role_permissions, remove_role_permissions,
}
use high_performance_event_s.Access.Grants.{contains-append, contains-unique}

-- The role is among the roles.
abbrev pub has_role : Role → List Role → Bool
has_role role roles = any (λ r. str_eq r role) roles

-- `any_role`, by the table's lists.
any_role_lem :
    (t : Table) (p : Permission) (roles : List Role)
    → any_role t p roles ≡ any (λ r. contains (permissions_of t r) p) roles
unfolding any_role
any_role_lem t p [] = refl
any_role_lem t p (r ∷ roles) = ground (arith, any_role_lem t p roles)

contains-filter-not :
    (out ps : List Permission) (p : Permission)
    → contains (filter (λ q. not (contains out q)) ps) p ≡ (contains ps p && not (contains out p))
contains-filter-not out [] p = refl
contains-filter-not out (q ∷ ps) p = ground (arith, eq_iff q p, contains-filter-not out ps p)

added_row :
    (role r : Role) (ps : List Permission) (t : Table) (p : Permission)
    → contains (permissions_of (add_role_permissions role ps t) r) p
      ≡ (contains (permissions_of t r) p || (str_eq r role && contains ps p))
unfolding add_role_permissions
added_row role r ps t p = ground (
  arith,
  eq_iff role r,
  eq_iff r role,
  lookup-insert role r (unique [] (permissions_of t role ++ ps)) t,
  contains-unique [] (permissions_of t role ++ ps) p,
  contains-append (permissions_of t role) ps p,
)

removed_row :
    (role r : Role) (ps : List Permission) (t : Table) (p : Permission)
    → contains (permissions_of (remove_role_permissions role ps t) r) p
      ≡ (contains (permissions_of t r) p && not (str_eq r role && contains ps p))
unfolding remove_role_permissions
removed_row role r ps t p = ground (
  arith,
  eq_iff role r,
  eq_iff r role,
  lookup-insert role r (filter (λ q. not (contains ps q)) (permissions_of t role)) t,
  contains-filter-not ps (permissions_of t role) p,
)

any_added :
    (role : Role) (ps : List Permission) (t : Table) (p : Permission) (roles : List Role)
    → any (λ r. contains (permissions_of (add_role_permissions role ps t) r) p) roles
      ≡ (any (λ r. contains (permissions_of t r) p) roles || (has_role role roles && contains ps p))
any_added role ps t p [] = refl
any_added role ps t p (r ∷ roles) =
    ground (arith, added_row role r ps t p, any_added role ps t p roles)

any_removed :
    (role : Role) (ps : List Permission) (t : Table) (p : Permission) (roles : List Role)
    → any (λ r. contains (permissions_of (remove_role_permissions role ps t) r) p) roles
      ≡ any (λ r. contains (permissions_of t r) p && not (str_eq r role && contains ps p)) roles
any_removed role ps t p [] = refl
any_removed role ps t p (r ∷ roles) =
    ground (arith, removed_row role r ps t p, any_removed role ps t p roles)

-- Adding permissions to a role grants them to the users with that role, and changes nothing else.
pub has_permission-add :
    (role : Role) (ps : List Permission) (t : Table) (c : Claims) (p : Permission)
    → has_permission (add_role_permissions role ps t) (some c) p
      ≡ (has_permission t (some c) p || (has_role role c.roles && contains ps p))
unfolding has_permission
has_permission-add role ps t c p = ground (
  arith,
  any_role_lem t p c.roles,
  any_role_lem (add_role_permissions role ps t) p c.roles,
  any_added role ps t p c.roles,
)

-- After removing permissions from a role, a user has a permission exactly where one of the user's
-- roles still grants it: its permissions had it, and it is another role or the permission was not
-- removed.
pub has_permission-remove :
    (role : Role) (ps : List Permission) (t : Table) (c : Claims) (p : Permission)
    → has_permission (remove_role_permissions role ps t) (some c) p
      ≡ any
          (λ r. contains (get_role_permissions t r) p && not (str_eq r role && contains ps p))
          c.roles
unfolding has_permission get_role_permissions
has_permission-remove role ps t c p =
    any_role_lem (remove_role_permissions role ps t) p c.roles ∙ any_removed role ps t p c.roles
