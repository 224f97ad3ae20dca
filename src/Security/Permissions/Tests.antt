-- ===== src/Security/Permissions/Tests.antt =====
-- Two of the permissions (permissionscope.cpp).
use win_remote_control.Prelude.{◌≡◌, true, some}
use win_remote_control.Security.Permissions.{
  PermissionScopes, no_permissions, permission_scope_names, permission_scopes_from_names,
  permission_scopes_from_names-permission_scope_names,
}

abbrev two_scopes : PermissionScopes
two_scopes = record no_permissions { view_screen = true; terminal = true }

two_scopes_kept : permission_scopes_from_names (permission_scope_names two_scopes) ≡ some two_scopes
two_scopes_kept = permission_scopes_from_names-permission_scope_names two_scopes
