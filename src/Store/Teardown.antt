-- ===== src/Store/Teardown.antt =====
-- What is left after the deletion of a server or of an account (Store.Removal).
use quetzal.Prelude.{
  ℕ, String, Bool, true, false, some, List, ◌≡◌, ◌≢◌, ◌==◌, ◌&&◌, ◌∙◌, ap, sym, subst,
  if◌then◌else◌, delete, Memᴰ, Memᴰ-delete, Memᴰ-update, first-none, Error, ok, err, refuse_if-ok,
  bind-ok, or_error, ok-injective, arith, Bool-cases, inl, inr, any-false,
}
use quetzal.Models.Server.{Server}
use quetzal.Models.User.{User, ServerAccess, has_admin_perm}
use quetzal.Access.{can, granted, get_server_access}
use quetzal.Ports.{release_server_ports}
use quetzal.Schedules.{delete_schedules_for_server}
use quetzal.Store.Db.{Db, stamped}
use quetzal.Store.Operations.{delete_backups_for_server}
use quetzal.Store.Servers.{owned_by}
use quetzal.Store.Removal.{
  Tables, Refusals, delete_server, delete_access_for_server, delete_channels_for_server,
  best_effort, handle_delete_server, cmd_rm, get_server_by_slug, delete_user, reassigned,
  on_server_of,
}

-- No row of the table passes the test.
abbrev pub Without {ℓ} : {A : Type ℓ} → (A → Bool) → List A → Type ℓ
Without {A = A} p xs = (x : A) → Memᴰ x xs → p x ≡ false

Without-delete {ℓ} : {A : Type ℓ} (p : A → Bool) (xs : List A) → Without p (delete p xs)
Without-delete p xs x m = (Memᴰ-delete p xs m).1

-- A further deletion brings no row back.
delete-Without {ℓ} :
    {A : Type ℓ} (p r : A → Bool) (xs : List A) → Without p xs → Without p (delete r xs)
delete-Without p r xs h x m = h x (Memᴰ-delete r xs m).0

no_grant-can :
    (u : User) (srv : Server) (perm : String) (grants : List ServerAccess)
    → has_admin_perm (some u) "servers" ≡ false
    → srv.owner_id ≢ u.id
    → Without (λ a. (a.server_id == srv.id) && (a.user_id == u.id)) grants
    → can (some u) srv perm grants ≡ false
unfolding can
no_grant-can u srv perm grants plain other h =
    let e = first-none (λ a. (a.server_id == srv.id) && (a.user_id == u.id)) grants h in
    ground (arith, plain, other, e)

-- No row of these tables refers to the server.
pub record Cleared (id : ℕ) (t : Tables) : Type 0 where
  pub no_server : Without (λ s. s.id == id) t.db.servers
  pub no_backup : Without (λ b. b.server_id == id) t.db.backups
  pub no_schedule : Without (λ r. r.server_id == id) t.schedules
  pub no_invite : Without (λ r. r.server_id == id) t.invites
  pub no_upload : Without (λ r. r.server_id == id) t.uploads
  pub no_cursor : Without (λ r. r.server_id == id) t.cursors
  pub no_port : Without (λ r. r.server_id == id) t.allocations
  pub no_grant : Without (λ a. a.server_id == id) t.accesses
  pub no_channel : Without (λ c. c.server_id == id) t.channels

whole_deletion-Cleared :
    (id : ℕ) (t : Tables) → Cleared id (delete_server id (best_effort false false false false id t))
unfolding delete_server delete_access_for_server delete_backups_for_server
    delete_schedules_for_server delete_channels_for_server release_server_ports
whole_deletion-Cleared id t = record {
  no_server = Without-delete _ t.db.servers;
  no_backup = Without-delete _ t.db.backups;
  no_schedule = Without-delete _ t.schedules;
  no_invite = Without-delete _ t.invites;
  no_upload = Without-delete _ t.uploads;
  no_cursor = Without-delete _ t.cursors;
  no_port = Without-delete _ t.allocations;
  no_grant = Without-delete _ t.accesses;
  no_channel = Without-delete _ t.channels;
}

-- A deletion that the panel reports as done made its last write.
handle_delete_server-done :
    (refused : Refusals) (id : ℕ) (t t' : Tables)
    → handle_delete_server refused id t ≡ ok t'
    → delete_server id
        (best_effort refused.schedules refused.backups refused.accesses refused.channels id t)
      ≡ t'
unfolding handle_delete_server
handle_delete_server-done refused id t t' h = last refused.server h
  where
    last :
        (b : Bool)
        → (if b
            then err Error.database_busy
            else ok (
                delete_server id (
                  best_effort refused.schedules refused.backups refused.accesses refused.channels id
                    t)))
          ≡ ok t'
        → delete_server id
            (best_effort refused.schedules refused.backups refused.accesses refused.channels id t)
          ≡ t'
    last true e = cc
    last false e = ok-injective e

-- After a deletion of a server by the panel that is done, where the database refused none of the
-- writes whose errors the handler ignores: no row of the server is left in the tables of servers,
-- operations, schedules, invitations, uploads, cursors, node ports, grants and notification channels,
-- and a later server that gets its id lets nobody in but its owner and administrators of servers.
pub handle_delete_server-Cleared :
    (refused : Refusals) (id : ℕ) (t t' : Tables) (u : User) (later : Server) (perm : String)
    → handle_delete_server refused id t ≡ ok t'
    → refused.schedules ≡ false
    → refused.backups ≡ false
    → refused.accesses ≡ false
    → refused.channels ≡ false
    → later.id ≡ id
    → has_admin_perm (some u) "servers" ≡ false
    → later.owner_id ≢ u.id
    → Cleared id t' × (can (some u) later perm t'.accesses ≡ false)
handle_delete_server-Cleared refused id t t' u later perm h no_a no_b no_c no_d same plain other =
    let made : delete_server id (best_effort false false false false id t) ≡ t' =
      sym (
        ap
          (λ b.
            delete_server id (best_effort b refused.backups refused.accesses refused.channels id t))
          no_a
        ∙ ap (λ b. delete_server id (best_effort false b refused.accesses refused.channels id t))
            no_b
        ∙ ap (λ b. delete_server id (best_effort false false b refused.channels id t)) no_c
        ∙ ap (λ b. delete_server id (best_effort false false false b id t)) no_d)
      ∙ handle_delete_server-done refused id t t' h in
    subst (λ q. Cleared id q × (can (some u) later perm q.accesses ≡ false)) made cleared
  where
    unfolding_all : Cleared id (delete_server id (best_effort false false false false id t))
    unfolding_all = whole_deletion-Cleared id t

    cleared :
        Cleared id (delete_server id (best_effort false false false false id t))
        × (can
              (some u)
              later
              perm
              (delete_server id (best_effort false false false false id t)).accesses
            ≡ false)
    cleared = (
      unfolding_all,
      no_grant-can u later perm _ plain other
          (λ a m. let gone = unfolding_all.no_grant a m in ground (arith, gone, same)),
    )

-- After `qctl rm` every grant on the removed server still holds: whoever had a permission on it by
-- a grant has it on a later server that gets its id.
pub cmd_rm-can :
    (slug : String) (t t' : Tables) (old later : Server) (u : User) (perm : String)
    → get_server_by_slug slug t.db.servers ≡ some old
    → cmd_rm slug t ≡ ok t'
    → granted (get_server_access old.id u.id t.accesses) perm ≡ true
    → later.id ≡ old.id
    → can (some u) later perm t'.accesses ≡ true
unfolding cmd_rm delete_server can
cmd_rm-can slug t t' old later u perm found removed held same =
    let (srv, read, e) =
      bind-ok (or_error (get_server_by_slug slug t.db.servers) Error.not_found) _ removed in
    let kept : t'.accesses ≡ t.accesses = ap (λ q. q.accesses) (sym (ok-injective e)) in
    let still : granted (get_server_access later.id u.id t'.accesses) perm ≡ true =
      subst (λ l. granted (get_server_access later.id u.id l) perm ≡ true) (sym kept)
        (subst (λ i. granted (get_server_access i u.id t.accesses) perm ≡ true) (sym same) held) in
    ground (arith, still)

-- Nothing of the account is left, and its servers are another's.
pub record Gone (id to : ℕ) (t t' : Tables) : Type 0 where
  pub no_user : Without (λ u. u.id == id) t'.users
  pub no_owner : Without (owned_by id) t'.db.servers
  pub no_invite : Without (λ r. r.invited_by == id) t'.invites
  pub no_api_key : Without (λ r. r.user_id == id) t'.api_keys
  pub no_session : Without (λ r. r.user_id == id) t'.sessions
  pub no_ssh_key : Without (λ r. r.user_id == id) t'.ssh_keys
  pub no_reset : Without (λ r. r.user_id == id) t'.resets
  pub no_confirmation : Without (λ r. r.user_id == id) t'.confirmations
  pub no_grant : Without (λ a. a.user_id == id) t'.accesses
  -- The new owner holds no grant on a server of his.
  pub no_own_grant :
      (srv : Server)
      → Memᴰ srv t'.db.servers
      → Without (λ a. owned_by to srv && ((a.user_id == to) && (a.server_id == srv.id))) t'.accesses
  pub moved_over :
      (srv : Server)
      → Memᴰ srv t'.db.servers
      → (old : Server) × Memᴰ old t.db.servers
        × (srv.id ≡ old.id)
        × (srv.owner_id ≡ (if old.owner_id == id then to else old.owner_id))

reassigned-owner :
    (id to : ℕ) (db : Db) {s : Server}
    → Memᴰ s (reassigned id to db).servers
    → (old : Server) × Memᴰ old db.servers
      × (s.id ≡ old.id)
      × (s.owner_id ≡ (if old.owner_id == id then to else old.owner_id))
reassigned-owner id to db {s} m =
    let (old, was, e) =
      Memᴰ-update (owned_by id) (stamped db.now (λ r. record r { owner_id = to })) db.servers m in
    elim (Bool-cases (old.owner_id == id)) [
      | inl mine ↦
          let e' : s ≡ stamped db.now (λ r. record r { owner_id = to }) old = rw mine at e in
          (old, was, ap (λ r. r.id) e', ap (λ r. r.owner_id) e' ∙ ground (arith, mine))
      | inr theirs ↦
          let e' : s ≡ old = rw theirs at e in
          (old, was, ap (λ r. r.id) e', ap (λ r. r.owner_id) e' ∙ ground (arith, theirs))
    ]

-- After the deletion of an account, with its servers given to another account, no row is left of
-- it in the tables of accounts, grants, sessions, API and SSH keys, password resets and
-- confirmations, nor an invitation that it sent. It owns no server and, unless it is an
-- administrator of servers, may do nothing on any. Each server is one that there was before, owned
-- by the new owner if it was the account's and by its own owner otherwise, and the new owner has
-- no grant on a server of his.
pub delete_user-Gone :
    (id to : ℕ) (t t' : Tables) (u : User) (srv : Server) (perm : String)
    → delete_user id to t ≡ ok t'
    → u.id ≡ id
    → has_admin_perm (some u) "servers" ≡ false
    → Memᴰ srv t'.db.servers
    → Gone id to t t' × (can (some u) srv perm t'.accesses ≡ false)
unfolding delete_user
delete_user-Gone id to t t' u srv perm h me plain here =
    let (differ, e) = refuse_if-ok (to == id) Error.reassign_to_self _ h in
    let gone : Gone id to t t' =
      subst (λ q. Gone id to t q) (ok-injective e)
        (record {
          no_user = Without-delete _ t.users;
          no_owner = unowned differ;
          no_invite = Without-delete _ t.invites;
          no_api_key = Without-delete _ t.api_keys;
          no_session = Without-delete _ t.sessions;
          no_ssh_key = Without-delete _ t.ssh_keys;
          no_reset = Without-delete _ t.resets;
          no_confirmation = Without-delete _ t.confirmations;
          no_grant = Without-delete _ _;
          no_own_grant = λ s m a n.
              let (n', other) = Memᴰ-delete (λ r. r.user_id == id) _ n in
              let (n'', kept) =
                Memᴰ-delete (λ r. (r.user_id == to) && on_server_of to (reassigned id to t.db) r)
                  t.accesses n' in
              unlike s a m kept;
          moved_over = λ s m. reassigned-owner id to t.db m;
        }) in
    let free : owned_by id srv ≡ false = gone.no_owner srv here in
    (
      gone,
      no_grant-can u srv perm t'.accesses plain (ground (arith, free, me))
          (λ a n. let none_left = gone.no_grant a n in ground (arith, none_left, me)),
    )
  where
    unowned : (to == id) ≡ false → Without (owned_by id) (reassigned id to t.db).servers
    unowned differ s m =
        let (old, was, same, owner) = reassigned-owner id to t.db m in ground (arith, differ, owner)

    unlike :
        (s : Server) (a : ServerAccess)
        → Memᴰ s (reassigned id to t.db).servers
        → ((a.user_id == to) && on_server_of to (reassigned id to t.db) a) ≡ false
        → (owned_by to s && ((a.user_id == to) && (a.server_id == s.id))) ≡ false
    unlike s a m kept = elim (Bool-cases (a.user_id == to)) [
      | inr theirs ↦ ground (arith, theirs)
      | inl his ↦
          let none_there : on_server_of to (reassigned id to t.db) a ≡ false = rw his at kept in
          let miss =
            any-false (λ r. owned_by to r && (r.id == a.server_id)) (reassigned id to t.db).servers
              none_there m in
          ground (arith, miss, his)
    ]
