-- ===== src/Security/Permissions.antt =====
-- KPermissionScope (src/core/security/permissionscope.h and .cpp). A set of flags is a record with a
-- Boolean for each; a null `pPermissions` is not modelled.
mod Tests
use win_remote_control.Prelude.{
  ◌≡◌, Bool, true, false, Option, none, some, List, [], ◌∷◌, ◌++◌, arith, String, str_eq,
  if◌then◌else◌,
}

pub record PermissionScopes : Type 0 where
  pub view_screen : Bool
  pub input_control : Bool
  pub clipboard : Bool
  pub terminal : Bool
  pub file_transfer : Bool

abbrev pub no_permissions : PermissionScopes
no_permissions = record {
  view_screen = false;
  input_control = false;
  clipboard = false;
  terminal = false;
  file_transfer = false;
}

abbrev named : Bool → String → List String
named true s = s ∷ []
named false s = []

unfoldable pub permission_scope_names : PermissionScopes → List String
permission_scope_names p =
    named p.view_screen "viewScreen"
    ++ (named p.input_control "inputControl"
        ++ (named p.clipboard "clipboard"
            ++ (named p.terminal "terminal" ++ named p.file_transfer "fileTransfer")))

-- One round of the loop: the permissions with the named one, `none` at an unknown name.
unfoldable pub with_name : String → PermissionScopes → Option PermissionScopes
with_name s p =
    if str_eq s "viewScreen"
    then some (record p { view_screen = true })
    else if str_eq s "inputControl"
    then some (record p { input_control = true })
    else if str_eq s "clipboard"
    then some (record p { clipboard = true })
    else if str_eq s "terminal"
    then some (record p { terminal = true })
    else if str_eq s "fileTransfer"
    then some (record p { file_transfer = true })
    else none

unfoldable pub scopes_from : List String → PermissionScopes → Option PermissionScopes
scopes_from [] p = some p
scopes_from (s ∷ names) p = elim (with_name s p) [ none ↦ none | some q ↦ scopes_from names q ]

unfoldable pub permission_scopes_from_names : List String → Option PermissionScopes
permission_scopes_from_names names = scopes_from names no_permissions

-- The names of a set of permissions read back as that set.
pub permission_scopes_from_names-permission_scope_names :
    (p : PermissionScopes) → permission_scopes_from_names (permission_scope_names p) ≡ some p
unfolding permission_scopes_from_names permission_scope_names scopes_from with_name
permission_scopes_from_names-permission_scope_names p = ground arith
