-- ===== src/Access/Tests.antt =====
-- Access control with the package's table.
use high_performance_event_s.Common.{◌≡◌, refl, ◌↔◌, true, [], ◌∷◌, some}
use high_performance_event_s.Common.Dict.{lookup}
use high_performance_event_s.Access.{
  Claims, role_permissions, has_permission, intercept, permission_denied, replay_event,
  ingest_event,
}
use high_performance_event_s.Access.Grants.{Granted, has_permission_iff}

abbrev root : Claims
root = record { user_id = "u1"; roles = "viewer" ∷ "admin" ∷ [] }

abbrev reader : Claims
reader = record { user_id = "u2"; roles = "subscriber" ∷ [] }

reader_denied : intercept role_permissions ingest_event (some (some reader)) ≡ permission_denied
unfolding intercept has_permission role_permissions lookup
reader_denied = refl

has_permission_iff_example :
    (has_permission role_permissions (some reader) replay_event ≡ true)
    ↔ Granted role_permissions replay_event ("subscriber" ∷ [])
has_permission_iff_example = has_permission_iff role_permissions reader replay_event
