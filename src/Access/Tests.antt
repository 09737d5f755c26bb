-- ===== src/Access/Tests.antt =====
-- A subuser of a suspended server, and the results of Access on it.
use quetzal.Prelude.{some, List, [], ◌∷◌, ◌≡◌, ◌≢◌, refl, arith}
use quetzal.Models.Server.{Server, DesiredState}
use quetzal.Models.User.{ServerAccess, contains, has_admin_perm, valid_permission, access_has}
use quetzal.Models.Samples.{lobby, ada}
use quetzal.Access.{can, permissions_on, require_server, refuse_suspended, perm_view}
use quetzal.Access.Laws.{contains-permissions_on, suspended_view_only}

abbrev frozen : Server
frozen = record lobby { desired_state = DesiredState.suspended }

abbrev grants : List ServerAccess
grants =
    record {
      id = 1;
      created_at = 1;
      updated_at = 1;
      server_id = 1;
      user_id = 2;
      permissions = "view" ∷ "files" ∷ [];
      username = "";
    }
    ∷ []

contains-permissions_on_example :
    contains (permissions_on (some ada) frozen grants) "files"
    ≡ can (some ada) frozen "files" grants
unfolding valid_permission
contains-permissions_on_example = contains-permissions_on (some ada) frozen grants "files" refl

suspended_view_only_example : perm_view ≡ perm_view
unfolding require_server refuse_suspended can has_admin_perm access_has contains
suspended_view_only_example = suspended_view_only (some ada) frozen perm_view grants refl refl refl

stranger : lobby.owner_id ≢ ada.id
stranger = λ e. omega (arith, e)
