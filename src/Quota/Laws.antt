-- ===== src/Quota/Laws.antt =====
-- What the quota of servers holds to (Quota): whatever requests, renamings and deletions follow, no
-- account has more servers than it may create.
use quetzal.Prelude.{
  ℕ, String, Bool, not, Option, some, List, [], ◌∷◌, ◌≡◌, ◌≤◌, ◌⊎◌, ◌==◌, length, update, delete,
  select, any, Result, Error, ok, err, ok-injective, bind-ok, refuse_if-ok, check-ok, arith, refl,
  inl, inr, str_eq, subst, sym, ap,
}
use quetzal.Models.Server.{Server}
use quetzal.Models.User.{User}
use quetzal.Store.Db.{Db, with_id}
use quetzal.Store.Servers.{
  Check, owned_by, create_server, lock_owner_servers, create_server_checked,
}
use quetzal.Quota.{create_attempts, named, or_next}

-- How many of the servers an account owns.
abbrev pub owned_count : ℕ → List Server → ℕ
owned_count owner rows = length (select (owned_by owner) rows)

pub owned_count-update :
    (owner id : ℕ) (g : Server → Server) (rows : List Server)
    → ((s : Server) → (g s).owner_id ≡ s.owner_id)
    → owned_count owner (update (with_id id) g rows) ≡ owned_count owner rows
owned_count-update owner id g [] keeps = refl
owned_count-update owner id g (s ∷ rows) keeps =
    let ih = owned_count-update owner id g rows keeps in let same = keeps s in ground arith

pub owned_count-delete :
    (owner : ℕ) (p : Server → Bool) (rows : List Server)
    → owned_count owner (delete p rows) ≤ owned_count owner rows
owned_count-delete owner p [] = omega arith
owned_count-delete owner p (s ∷ rows) = let ih = owned_count-delete owner p rows in ground arith

-- What an accepted creation inserts.
pub create_server-eq :
    (new_id : ℕ) (srv : Server) (db : Db) {db' : Db}
    → create_server new_id srv db ≡ ok db'
    → db'.servers
      ≡ record srv { id = new_id; created_at = db.now; updated_at = db.now } ∷ db.servers
unfolding create_server
create_server-eq new_id srv db h =
    let (fresh, e) =
      refuse_if-ok (any (λ s. str_eq s.slug srv.slug) db.servers) Error.duplicate _ h in
    ap (λ d. d.servers) (sym (ok-injective e))

or_next-ok :
    (one rest : Result Db) {db' : Db} → or_next one rest ≡ ok db' → (one ≡ ok db') ⊎ (rest ≡ ok db')
or_next-ok (ok db) rest h = inl h
or_next-ok (err Error.duplicate) rest h = inr h
or_next-ok (err e) rest h = inl h

-- One of the attempts created the server.
pub create_attempts-ok :
    (check : Option Check) (users : List User) (new_id : ℕ) (base : String) (srv : Server)
    (suffixes : List String) (db : Db) {db' : Db}
    → create_attempts check users new_id base srv suffixes db ≡ ok db'
    → (suffix : String) × (create_server_checked check users new_id (named base suffix srv) db
        ≡ ok db')
unfolding create_attempts
create_attempts-ok check users new_id base srv [] db h = cc
create_attempts-ok check users new_id base srv (suffix ∷ suffixes) db h =
    elim (or_next-ok _ (create_attempts check users new_id base srv suffixes db) h) [
      | inl first ↦ (suffix, first)
      | inr later ↦ create_attempts-ok check users new_id base srv suffixes db later
    ]

-- A checked creation saw the servers that its owner has.
pub create_server_checked-ok :
    (check : Check) (users : List User) (new_id : ℕ) (srv : Server) (db : Db) {db' : Db}
    → create_server_checked (some check) users new_id srv db ≡ ok db'
    → (check (select (owned_by srv.owner_id) db.servers) ≡ ok tt)
      × (create_server new_id srv db ≡ ok db')
unfolding create_server_checked lock_owner_servers
create_server_checked-ok check users new_id srv db h =
    let (owned, locked, rest) = bind-ok (lock_owner_servers srv.owner_id users db) _ h in
    let (known, e) =
      refuse_if-ok (not (any (λ u. u.id == srv.owner_id) users)) Error.not_found _ locked in
    let (passes, created) = check-ok (check owned) _ rest in
    (subst (λ l. check l ≡ ok tt) (sym (ok-injective e)) passes, created)
