-- ===== src/Access/Laws.antt =====
-- The tests of a permission agree, and what suspension and a missing grant take away.
use quetzal.Prelude.{
  String, true, false, ◌&&◌, ◌||◌, Option, none, some, List, [], ◌∷◌, ◌==◌, ◌≡◌, ◌≢◌, str_eq,
  eq_iff, arith, Bool-cases, inl, inr, refl,
}
use quetzal.Models.Server.{Server, DesiredState}
use quetzal.Models.User.{
  User, ServerAccess, all_permissions, valid_permission, contains, access_has, has_admin_perm,
}
use quetzal.Access.{
  can, permissions_on, granted, granted_list, kept, get_server_access, require_server,
  refuse_suspended, admin_perm_servers, perm_view, goes_on, not_found,
}

contains-kept :
    (acc : ServerAccess) (ps : List String) (p : String)
    → contains (kept acc ps) p ≡ contains ps p && access_has acc p
unfolding contains
contains-kept acc [] p = refl
contains-kept acc (x ∷ ps) p = elim (Bool-cases (access_has acc x)) [
  | inl has ↦ elim (Bool-cases (str_eq x p)) [
    | inl same ↦
        let e : x ≡ p = (eq_iff x p).0 same in
        let has' : access_has acc p ≡ true = rw (← e) has in ground (arith, has, has', same)
    | inr other ↦ ground (arith, has, other, contains-kept acc ps p)
  ]
  | inr lacks ↦ elim (Bool-cases (str_eq x p)) [
    | inl same ↦
        let e : x ≡ p = (eq_iff x p).0 same in
        let lacks' : access_has acc p ≡ false = rw (← e) lacks in
        ground (arith, lacks, lacks', same, contains-kept acc ps p)
    | inr other ↦ ground (arith, lacks, other, contains-kept acc ps p)
  ]
]

contains-granted_list :
    (acc : Option ServerAccess) (p : String)
    → valid_permission p ≡ true
    → contains (granted_list acc) p ≡ granted acc p
unfolding valid_permission
contains-granted_list none p known = refl
contains-granted_list (some acc) p known = rw (contains-kept acc all_permissions p) (rw known refl)

-- What the panel shows a user as permissions on a server is what the API lets the user do: a known
-- permission is in the list exactly if `can` grants it.
pub contains-permissions_on :
    (u : Option User) (srv : Server) (grants : List ServerAccess) (p : String)
    → valid_permission p ≡ true
    → contains (permissions_on u srv grants) p ≡ can u srv p grants
unfolding permissions_on can contains valid_permission
contains-permissions_on none srv grants p known = refl
contains-permissions_on (some u) srv grants p known =
    elim (Bool-cases (has_admin_perm (some u) admin_perm_servers || (srv.owner_id == u.id))) [
      | inl all ↦ rw all known
      | inr scoped ↦
          rw scoped (contains-granted_list (get_server_access srv.id u.id grants) p known)
    ]

-- While a server is suspended, a user who is no administrator of servers is let through to nothing
-- but viewing it.
pub suspended_view_only :
    (u : Option User) (srv : Server) (perm : String) (grants : List ServerAccess)
    → srv.desired_state ≡ DesiredState.suspended
    → has_admin_perm u admin_perm_servers ≡ false
    → require_server u srv perm grants ≡ goes_on
    → perm ≡ perm_view
unfolding require_server refuse_suspended
suspended_view_only u srv perm grants frozen plain through =
    elim (Bool-cases (str_eq perm perm_view)) [
      | inl viewing ↦ (eq_iff perm perm_view).0 viewing
      | inr acting ↦ absurd (refused acting)
    ]
  where
    refused : str_eq perm perm_view ≡ false → ⊥
    refused acting = ground (arith, acting, plain, frozen)

-- A user who is neither an administrator of servers nor the owner, and has no grant, is told that
-- the server does not exist by every route that asks for a permission on it.
pub outsider-not_found :
    (u : User) (srv : Server) (perm : String) (grants : List ServerAccess)
    → has_admin_perm (some u) admin_perm_servers ≡ false
    → srv.owner_id ≢ u.id
    → get_server_access srv.id u.id grants ≡ none
    → require_server (some u) srv perm grants ≡ not_found
unfolding require_server can
outsider-not_found u srv perm grants plain other none_granted = ground (arith, plain, none_granted)
