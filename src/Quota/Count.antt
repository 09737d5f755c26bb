-- ===== src/Quota/Count.antt =====
-- No account ends with more servers than it may create (Quota), whatever sequence of requests,
-- writes and deletions runs.
use quetzal.Prelude.{
  ℕ, String, Bool, true, false, Option, none, some, List, ◌+◌, ◌≡◌, ◌≤◌, ◌==◌, ◌||◌, length, select,
  Result, Error, ok, err, ◌>>◌, ok-injective, bind-ok, refuse_if-ok, arith, refl, Bool-cases, inl,
  inr, subst, sym, ap, ◌∙◌, ◌∷◌, take, ==_self, not, first-Memᴰ, ◌≢◌, check-ok, delete, is_some,
  if◌then◌else◌,
}
use quetzal.Models.Server.{Server, Resources}
use quetzal.Models.User.{User, has_admin_perm}
use quetzal.Store.Db.{Db, update_server, stamped}
use quetzal.Store.Servers.{
  create_server_checked, Check, update_server_resources, update_server_resources_checked,
  lock_owner_servers,
}
use quetzal.Quota.{
  Quantities, over_count, creation_check, creation_quota, create_attempts, handle_create_server,
  handle_update_resources, resized, owner_quota, find_user, is_zero, require_limits,
  bounded_resources, validate_resources, named,
}
use quetzal.Quota.Laws.{
  owned_count, owned_count-update, owned_count-delete, create_server-eq, create_attempts-ok,
  create_server_checked-ok,
}

-- What is done to the table of servers while the accounts keep their quotas: accepted requests,
-- writes of columns other than the owner, and deletions.
pub data Change (q : Quantities) (users : List User) : Db → Db → Type 0 where
  created :
      {db db' : Db} (i : ℕ) (owner : User) (new_id : ℕ) (base : String) (srv : Server)
      (suffixes : List String)
      → find_user i users ≡ some owner
      → handle_create_server q owner users new_id base srv suffixes db ≡ ok db'
      → Change q users db db'
  resized_to :
      {db db' : Db} (editor owner : Option User) (srv : Server) (r : Resources)
      → handle_update_resources q editor owner users srv r db ≡ ok db'
      → Change q users db db'
  written :
      {db : Db} (id : ℕ) (g : Server → Server)
      → ((s : Server) → (g s).owner_id ≡ s.owner_id)
      → Change q users db (update_server id g db)
  deleted :
      {db : Db} (id : ℕ)
      → Change q users db (record db { servers = delete (λ s. s.id == id) db.servers })

pub data Changes (q : Quantities) (users : List User) : Db → Db → Type 0 where
  done : {db : Db} → Changes q users db db
  more : {a b c : Db} → Change q users a b → Changes q users b c → Changes q users a c

-- The check of an account that has a bound on its servers counts them.
creation_quota-count :
    (q : Quantities) (u : User) (r : Resources) (m : ℕ) {check : Option Check}
    → has_admin_perm (some u) "servers" ≡ false
    → u.max_servers ≡ some m
    → creation_quota q u r ≡ ok check
    → check ≡ some (creation_check q u r)
unfolding creation_quota
creation_quota-count q u r m plain bound h =
    let h1 = rw plain at h in
    let (nonzero, h2) = refuse_if-ok (is_zero u.max_servers) Error.may_not_create _ h1 in
    counted (require_limits q u r) (is_some u.max_servers || bounded_resources u) h2
      (ap (λ o. is_some o || bounded_resources u) bound)
  where
    counted :
        (t : Result (Unit {0})) (b : Bool) {check : Option Check}
        → (t >> ok (if b then some (creation_check q u r) else none)) ≡ ok check
        → b ≡ true
        → check ≡ some (creation_check q u r)
    counted (ok passed) true h e = sym (ok-injective h)
    counted (ok passed) false h e = cc
    counted (err e) b h e' = cc

creation_check-count :
    (q : Quantities) (u : User) (r : Resources) (m : ℕ) (owned : List Server)
    → u.max_servers ≡ some m
    → creation_check q u r owned ≡ ok tt
    → length owned + 1 ≤ m
unfolding creation_check
creation_check-count q u r m owned bound h =
    let (room, rest) =
      refuse_if-ok (over_count u.max_servers (length owned)) Error.server_quota_exceeded _ h in
    let room' : over_count (some m) (length owned) ≡ false =
      subst (λ o. over_count o (length owned) ≡ false) bound room in
    ground (arith, room')

-- The row found under an id has that id.
find_user-id : (i : ℕ) (users : List User) {u : User} → find_user i users ≡ some u → u.id ≡ i
find_user-id i users {u} h =
    let (member, hit) = first-Memᴰ (λ v. v.id == i) users h in ground (arith, hit)

some-injective : {a b : User} → some a ≡ some b → a ≡ b
some-injective h = cc

-- An accepted creation leaves its owner within the quota, and adds nothing to others.
handle_create_server-count :
    (q : Quantities) (owner : User) (users : List User) (new_id : ℕ) (base : String) (srv : Server)
    (suffixes : List String) (m : ℕ) (db db' : Db)
    → has_admin_perm (some owner) "servers" ≡ false
    → owner.max_servers ≡ some m
    → handle_create_server q owner users new_id base srv suffixes db ≡ ok db'
    → owned_count owner.id db'.servers ≤ m
unfolding handle_create_server
handle_create_server-count q owner users new_id base srv suffixes m db db' plain bound h =
    let (valid, h1) = check-ok (validate_resources q srv.resources) _ h in
    let (check, quota, h2) = bind-ok (creation_quota q owner srv.resources) _ h1 in
    let e = creation_quota-count q owner srv.resources m plain bound quota in
    let mine : Server = record srv { owner_id = owner.id } in
    let (suffix, attempt) =
      create_attempts-ok (some (creation_check q owner srv.resources)) users new_id base mine
        (take 8 suffixes) db
        (subst (λ c. create_attempts c users new_id base mine (take 8 suffixes) db ≡ ok db') e
          h2) in
    let (room, inserted) =
      create_server_checked-ok (creation_check q owner srv.resources) users new_id
        (named base suffix mine) db attempt in
    let few = creation_check-count q owner srv.resources m _ bound room in
    let rows = create_server-eq new_id (named base suffix mine) db inserted in
    let here = ==_self owner.id in
    subst (λ l. owned_count owner.id l ≤ m) (sym rows) (ground (arith, few, here))

-- Whoever creates a server, another account's servers stay as many.
handle_create_server-others :
    (q : Quantities) (owner : User) (users : List User) (new_id : ℕ) (base : String) (srv : Server)
    (suffixes : List String) (j : ℕ) (db db' : Db)
    → owner.id ≢ j
    → handle_create_server q owner users new_id base srv suffixes db ≡ ok db'
    → owned_count j db'.servers ≡ owned_count j db.servers
unfolding handle_create_server
handle_create_server-others q owner users new_id base srv suffixes j db db' differ h =
    let (valid, h1) = check-ok (validate_resources q srv.resources) _ h in
    let (check, quota, h2) = bind-ok (creation_quota q owner srv.resources) _ h1 in
    let mine : Server = record srv { owner_id = owner.id } in
    let (suffix, attempt) =
      create_attempts-ok check users new_id base mine (take 8 suffixes) db h2 in
    let rows = inserted_of check (named base suffix mine) attempt in
    subst (λ l. owned_count j l ≡ owned_count j db.servers) (sym rows) (ground (arith, differ))
  where
    inserted_of :
        (check : Option Check) (s : Server)
        → create_server_checked check users new_id s db ≡ ok db'
        → db'.servers
          ≡ record s { id = new_id; created_at = db.now; updated_at = db.now } ∷ db.servers
    inserted_of none s a = create_server-eq new_id s db (unfold create_server_checked in a)
    inserted_of (some c) s a =
        create_server-eq new_id s db (create_server_checked-ok c users new_id s db a).1

resized-count :
    (check : Option Check) (users : List User) (srv : Server) (r : Resources) (j : ℕ) (db db' : Db)
    → resized check users srv r db ≡ ok db'
    → owned_count j db'.servers ≡ owned_count j db.servers
unfolding update_server_resources update_server_resources_checked
resized-count none users srv r j db db' h =
    subst (λ d. owned_count j d.servers ≡ owned_count j db.servers) (ok-injective h)
      (owned_count-update j srv.id (stamped db.now (λ s. record s { resources = r })) db.servers
        (λ s. refl))
resized-count (some check) users srv r j db db' h =
    let (owned, locked, h1) = bind-ok (lock_owner_servers srv.owner_id users db) _ h in
    let (passes, h2) = check-ok (check (select (λ o. not (o.id == srv.id)) owned)) _ h1 in
    subst (λ d. owned_count j d.servers ≡ owned_count j db.servers) (ok-injective h2)
      (owned_count-update j srv.id (stamped db.now (λ s. record s { resources = r })) db.servers
        (λ s. refl))

handle_update_resources-count :
    (q : Quantities) (editor owner : Option User) (users : List User) (srv : Server) (r : Resources)
    (j : ℕ) (db db' : Db)
    → handle_update_resources q editor owner users srv r db ≡ ok db'
    → owned_count j db'.servers ≡ owned_count j db.servers
unfolding handle_update_resources
handle_update_resources-count q editor owner users srv r j db db' h =
    let (valid, h1) = check-ok (validate_resources q r) _ h in
    let (check, quota, h2) =
      bind-ok (if has_admin_perm editor "servers" then ok none else owner_quota q owner r) _ h1 in
    resized-count check users srv r j db db' h2

module _ (q : Quantities) (users : List User) (i : ℕ) (u : User) (m : ℕ)
    (known : find_user i users ≡ some u) (plain : has_admin_perm (some u) "servers" ≡ false)
    (bound : u.max_servers ≡ some m) where
  Change-count :
      {db db' : Db}
      → Change q users db db'
      → owned_count i db.servers ≤ m
      → owned_count i db'.servers ≤ m
  Change-count {db} {db'} (created j owner new_id base srv suffixes found accepted) few =
      let id_i : u.id ≡ i = find_user-id i users known in
      let id_j : owner.id ≡ j = find_user-id j users found in
      elim (Bool-cases (j == i)) [
        | inl same ↦
            let e : j ≡ i = ground (arith, same) in
            let me : u ≡ owner =
              some-injective (sym known ∙ ap (λ k. find_user k users) (sym e) ∙ found) in
            let e' : owner.id ≡ i = id_j ∙ e in
            subst (λ k. owned_count k db'.servers ≤ m) e'
              (handle_create_server-count q owner users new_id base srv suffixes m db db'
                (subst (λ v. has_admin_perm (some v) "servers" ≡ false) me plain)
                (subst (λ v. v.max_servers ≡ some m) me bound) accepted)
        | inr other ↦
            let differ : owner.id ≢ i = ground (arith, other, id_j) in
            subst (λ n. n ≤ m)
              (sym (
                handle_create_server-others q owner users new_id base srv suffixes i db db' differ
                  accepted))
              few
      ]
  Change-count {db} {db'} (resized_to editor owner srv r accepted) few =
      subst (λ n. n ≤ m)
        (sym (handle_update_resources-count q editor owner users srv r i db db' accepted)) few
  Change-count {db} (written id g keeps) few =
      subst (λ n. n ≤ m) (sym (owned_count-update i id (stamped db.now g) db.servers keeps)) few
  Change-count {db} (deleted id) few =
      let fewer = owned_count-delete i (λ s. s.id == id) db.servers in omega (arith, fewer, few)

  -- An account that is no administrator of servers, has a bound on their number and owns no more
  -- than it, owns no more after any sequence of accepted requests of the panel to create or resize
  -- servers, from whomever and with whatever limits, of writes to columns other than the owner and of
  -- deletions of servers. What gives servers to an account without these requests, the deletion of
  -- another account and qctl, is not among them, nor is a change of the accounts themselves.
  pub Changes-count :
      {db db' : Db}
      → Changes q users db db'
      → owned_count i db.servers ≤ m
      → owned_count i db'.servers ≤ m
  Changes-count done few = few
  Changes-count (more change changes) few = Changes-count changes (Change-count change few)
