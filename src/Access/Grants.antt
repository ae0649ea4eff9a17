-- ===== src/Access/Grants.antt =====
-- Who is granted what.
use mathlib.Core.Path.{subst}
use high_performance_event_s.Common.{
  ◌≡◌, refl, ◌↔◌, ◌⊎◌, inl, inr, true, false, ◌&&◌, ◌||◌, not, String, List, [], ◌∷◌, ◌++◌, Option,
  none, some, str_eq, eq_iff, arith, Bool-cases, Option-cases,
}
use high_performance_event_s.Common.Dict.{lookup}
use high_performance_event_s.Access.{
  Role, Permission, Table, Claims, contains, permissions_of, any_role, has_permission,
  unauthenticated, pass_on, intercept, unique, collect, get_user_permissions, role_permissions,
  manage_auth, manage_schema, manage_consumer, get_role_permissions,
}

-- The list holds the text.
abbrev pub In : String → List String → Type 0
In a [] = ⊥
In a (x ∷ xs) = (x ≡ a) ⊎ In a xs

contains_iff : (ps : List Permission) (p : Permission) → (contains ps p ≡ true) ↔ In p ps
contains_iff [] p = (λ h. cc, λ h. absurd h)
contains_iff (q ∷ ps) p =
    let ih = contains_iff ps p in
    (
      λ h. elim (Bool-cases (str_eq q p)) [
        | inl e ↦ inl ((eq_iff q p).0 e)
        | inr e ↦ inr (ih.0 (ground (arith, e, h)))
      ],
      λ h. elim h [ inl e ↦ ground (arith, (eq_iff q p).1 e) | inr r ↦ ground (arith, ih.1 r) ],
    )

-- One of the roles has the permission in the table.
abbrev pub Granted : Table → Permission → List Role → Type 0
Granted t p roles =
    (role : Role) × In role roles × ((ps : List Permission) × (lookup role t ≡ some ps) × In p ps)

any_role_sound :
    (t : Table) (p : Permission) (roles : List Role) → any_role t p roles ≡ true → Granted t p roles
unfolding any_role
any_role_sound t p [] h = cc
any_role_sound t p (r ∷ roles) h = elim (Option-cases (lookup r t)) [
  | inl missing ↦
      let (r', i, g) = any_role_sound t p roles (ground (arith, missing, h)) in (r', inr i, g)
  | inr (ps, found) ↦ elim (Bool-cases (contains ps p)) [
    | inl c ↦ (r, inl refl, (ps, found, (contains_iff ps p).0 c))
    | inr c ↦
        let (r', i, g) = any_role_sound t p roles (ground (arith, found, c, h)) in (r', inr i, g)
  ]
]

any_role_complete :
    (t : Table) (p : Permission) (roles : List Role) → Granted t p roles → any_role t p roles ≡ true
unfolding any_role
any_role_complete t p [] (r, i, g) = absurd i
any_role_complete t p (r ∷ roles) (r', i, g) =
    let (ps, found, m) = g in
    elim i [
      | inl e ↦ ground (arith, e, found, (contains_iff ps p).1 m)
      | inr j ↦ ground (arith, any_role_complete t p roles (r', j, g))
    ]

-- A user has a permission exactly where one of the user's roles stands in the table with it.
pub has_permission_iff :
    (t : Table) (c : Claims) (p : Permission)
    → (has_permission t (some c) p ≡ true) ↔ Granted t p c.roles
unfolding has_permission
has_permission_iff t c p = (any_role_sound t p c.roles, any_role_complete t p c.roles)

-- A call is passed on exactly where its context has claims that are granted the permission; a call
-- with no claims is unauthenticated, and any other is denied.
pub intercept_lem :
    (t : Table) (required : Permission) (context : Option (Option Claims))
    → (context ≡ none → intercept t required context ≡ unauthenticated)
      × ((intercept t required context ≡ pass_on)
          ↔ ((c : Claims) × (context ≡ some (some c)) × Granted t required c.roles))
unfolding intercept has_permission
intercept_lem t required none =
    (λ _. refl, (λ h. absurd (ground arith), λ (c, e, g). absurd (ground arith)))
intercept_lem t required (some none) =
    (λ h. cc, (λ h. absurd (ground arith), λ (c, e, g). absurd (ground arith)))
intercept_lem t required (some (some c)) = (
  λ h. cc,
  (
    λ h. (c, refl, any_role_sound t required c.roles (ground (arith, h))),
    λ (d, e, g). ground (arith, any_role_complete t required d.roles g, e),
  ),
)

pub contains-append :
    (xs ys : List Permission) (p : Permission)
    → contains (xs ++ ys) p ≡ (contains xs p || contains ys p)
contains-append [] ys p = refl
contains-append (x ∷ xs) ys p = ground (arith, contains-append xs ys p)

-- What `unique` keeps: whatever the list holds and has not been seen.
pub contains-unique :
    (seen ps : List Permission) (p : Permission)
    → contains (unique seen ps) p ≡ (contains ps p && not (contains seen p))
unfolding unique
contains-unique seen [] p = refl
contains-unique seen (q ∷ ps) p =
    ground (arith, eq_iff q p, contains-unique seen ps p, contains-unique (q ∷ seen) ps p)

-- No text occurs twice.
abbrev pub IsUnique : List Permission → Type 0
IsUnique [] = Unit
IsUnique (p ∷ ps) = (contains ps p ≡ false) × IsUnique ps

unique-IsUnique : (seen ps : List Permission) → IsUnique (unique seen ps)
unfolding unique
unique-IsUnique seen [] = tt
unique-IsUnique seen (q ∷ ps) = elim (Bool-cases (contains seen q)) [
  | inl old ↦ rw (old, unique) (unique-IsUnique seen ps)
  | inr new ↦
      rw (new, unique)
        (ground (arith, contains-unique (q ∷ seen) ps q, eq_iff q q), unique-IsUnique (q ∷ seen) ps)
]

contains-collect :
    (t : Table) (roles : List Role) (p : Permission)
    → contains (collect t roles) p ≡ any_role t p roles
unfolding collect any_role
contains-collect t [] p = refl
contains-collect t (r ∷ roles) p = ground (
  arith,
  contains-append (get_role_permissions t r) (collect t roles) p,
  contains-collect t roles p,
)

-- `GetUserPermissions` lists exactly the permissions that `HasPermission` grants, each once.
pub get_user_permissions_lem :
    (t : Table) (c : Option Claims)
    → ((p : Permission) → contains (get_user_permissions t c) p ≡ has_permission t c p)
      × IsUnique (get_user_permissions t c)
unfolding get_user_permissions has_permission
get_user_permissions_lem t none = (λ p. refl, tt)
get_user_permissions_lem t (some c) = (
  λ p. ground (arith, contains-unique [] (collect t c.roles) p, contains-collect t c.roles p),
  unique-IsUnique [] (collect t c.roles),
)

-- The permissions that only the first row of the package's table holds.
abbrev pub IsManaging : Permission → Type 0
IsManaging p = (p ≡ manage_consumer) ⊎ ((p ≡ manage_schema) ⊎ (p ≡ manage_auth))

row_manage_consumer :
    (r : Role) → contains (permissions_of role_permissions r) manage_consumer ≡ true → r ≡ "admin"
unfolding role_permissions lookup
row_manage_consumer r h = ground (arith, eq_iff "admin" r)

row_manage_schema :
    (r : Role) → contains (permissions_of role_permissions r) manage_schema ≡ true → r ≡ "admin"
unfolding role_permissions lookup
row_manage_schema r h = ground (arith, eq_iff "admin" r)

row_manage_auth :
    (r : Role) → contains (permissions_of role_permissions r) manage_auth ≡ true → r ≡ "admin"
unfolding role_permissions lookup
row_manage_auth r h = ground (arith, eq_iff "admin" r)

row_of :
    (r : Role) (p : Permission)
    → IsManaging p
    → contains (permissions_of role_permissions r) p ≡ true
    → r ≡ "admin"
row_of r p (inl e) h =
    row_manage_consumer r (subst (λ q. contains (permissions_of role_permissions r) q ≡ true) e h)
row_of r p (inr (inl e)) h =
    row_manage_schema r (subst (λ q. contains (permissions_of role_permissions r) q ≡ true) e h)
row_of r p (inr (inr e)) h =
    row_manage_auth r (subst (λ q. contains (permissions_of role_permissions r) q ≡ true) e h)

-- With the package's table, the permissions to manage consumers, schemas and access are granted only
-- to a user with the role of an administrator.
pub manage_needs_admin :
    (c : Claims) (p : Permission)
    → IsManaging p
    → has_permission role_permissions (some c) p ≡ true
    → In "admin" c.roles
manage_needs_admin c p k h =
    let (r, i, g) = (has_permission_iff role_permissions c p).0 h in
    let (ps, found, m) = g in
    let e : r ≡ "admin" = row_of r p k (ground (arith, found, (contains_iff ps p).1 m)) in
    subst (λ a. In a c.roles) e i
