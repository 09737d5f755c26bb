-- ===== src/Access.antt =====
-- Who may do what on a server (internal/api/authz.go).
pub mod Laws
mod Tests
use quetzal.Prelude.{
  ℕ, String, Bool, true, false, not, ◌&&◌, ◌||◌, Option, none, some, List, [], ◌∷◌, ◌==◌,
  if◌then◌else◌, first, str_eq,
}
use quetzal.Models.Server.{Server, DesiredState, is_state}
use quetzal.Models.User.{User, ServerAccess, all_permissions, access_has, has_admin_perm}

abbrev pub admin_perm_servers : String
admin_perm_servers = "servers"

abbrev pub perm_view : String
perm_view = "view"

-- `GetServerAccess`: the grant, where there is one.
abbrev pub get_server_access : ℕ → ℕ → List ServerAccess → Option ServerAccess
get_server_access server user = first (λ a. (a.server_id == server) && (a.user_id == user))

abbrev pub granted : Option ServerAccess → String → Bool
granted none perm = false
granted (some acc) perm = access_has acc perm

-- A nil user may do nothing.
unfoldable pub can : Option User → Server → String → List ServerAccess → Bool
unfolding has_admin_perm
can none srv perm grants = false
can (some u) srv perm grants =
    if has_admin_perm (some u) admin_perm_servers || (srv.owner_id == u.id)
    then true
    else granted (get_server_access srv.id u.id grants) perm

-- The loop over the permissions that keeps those the grant has.
abbrev pub kept : ServerAccess → List String → List String
kept acc [] = []
kept acc (p ∷ ps) = if access_has acc p then p ∷ kept acc ps else kept acc ps

abbrev pub granted_list : Option ServerAccess → List String
granted_list none = []
granted_list (some acc) = kept acc all_permissions

unfoldable pub permissions_on : Option User → Server → List ServerAccess → List String
permissions_on none srv grants = []
permissions_on (some u) srv grants =
    if has_admin_perm (some u) admin_perm_servers || (srv.owner_id == u.id)
    then all_permissions
    else granted_list (get_server_access srv.id u.id grants)

unfoldable pub refuse_suspended : Option User → Server → Bool
refuse_suspended u srv =
    is_state srv.desired_state DesiredState.suspended && not (has_admin_perm u admin_perm_servers)

-- What a request is answered: it goes on, or one of the HTTP statuses 403, 404 and 409.
pub data Answer : Type 0 where
  goes_on forbidden not_found conflict : Answer

-- `requireServer` on a server that the path names.
unfoldable pub require_server : Option User → Server → String → List ServerAccess → Answer
unfolding can refuse_suspended
require_server u srv perm grants =
    if can u srv perm grants
    then if not (str_eq perm perm_view) && refuse_suspended u srv then conflict else goes_on
    else if can u srv perm_view grants
    then forbidden
    else not_found
