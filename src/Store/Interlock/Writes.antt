-- ===== src/Store/Interlock/Writes.antt =====
-- The invariant, and the statements of `Db` that keep it.
use quetzal.Prelude.{
  ℕ, Bool, true, not, ◌&&◌, Option, none, some, if◌then◌else◌, update, delete, Memᴰ, Memᴰ-update,
  Memᴰ-delete, ◌≡◌, arith, Bool-cases, inl, inr, ◌<◌,
}
use quetzal.Models.Server.{Server, DesiredState, running, is_state, TransferState}
use quetzal.Models.Backup.{Backup, is_active, is_offline}
use quetzal.Store.Db.{
  Db, with_id, find_server, stamped, update_server, update_backups, insert_backup, active_on,
}
use quetzal.Store.Rows.{find_server-id, find_server-update}
use quetzal.Store.Transfer.{tracked}

-- A server in transfer is not meant to run.
abbrev pub frozen : Option TransferState → DesiredState → Bool
frozen none state = true
frozen (some t) state = not (is_state state running)

-- What an operation that waits or runs on the server allows: outside a transfer, one that needs the
-- server down allows no server meant to run; in a transfer, it is one that the transfer tracks.
abbrev pub allows : Option TransferState → DesiredState → Backup → Bool
allows none state b = not (is_offline b.direction && is_state state running)
allows (some t) state b = tracked t b

pub record IsSafe (db : Db) : Type 0 where
  pub keyed : (b : Backup) → Memᴰ b db.backups → 0 < b.id
  pub still :
      (i : ℕ) (s : Server)
      → find_server i db.servers ≡ some s
      → frozen s.transfer s.desired_state ≡ true
  pub apart :
      (i : ℕ) (s : Server)
      → find_server i db.servers ≡ some s
      → (b : Backup) → Memᴰ b db.backups
      → active_on i b ≡ true
      → allows s.transfer s.desired_state b ≡ true

module _ {db : Db} (safe : IsSafe db) where
  -- Rows that pass `p` are written by `g`, and what they become is safe.
  pub update-IsSafe :
      (p : Server → Bool) (g : Server → Server)
      → ((s : Server) → (g s).id ≡ s.id)
      → ((i : ℕ) (s : Server)
          → find_server i db.servers ≡ some s
          → p s ≡ true
          → frozen (g s).transfer (g s).desired_state ≡ true)
      → ((i : ℕ) (s : Server)
          → find_server i db.servers ≡ some s
          → p s ≡ true
          → (b : Backup) → Memᴰ b db.backups
          → active_on i b ≡ true
          → allows (g s).transfer (g s).desired_state b ≡ true)
      → IsSafe (record db { servers = update p g db.servers })
  update-IsSafe p g keeps still apart = record {
    keyed = safe.keyed;
    still = λ i s found.
        let (r, old, e) = find_server-update p g i db.servers keeps found in
        elim (Bool-cases (p r)) [
          | inl hit ↦ rw e (rw hit (still i r old hit))
          | inr miss ↦ rw e (rw miss (safe.still i r old))
        ];
    apart = λ i s found b m a.
        let (r, old, e) = find_server-update p g i db.servers keeps found in
        elim (Bool-cases (p r)) [
          | inl hit ↦ rw e (rw hit (apart i r old hit b m a))
          | inr miss ↦ rw e (rw miss (safe.apart i r old b m a))
        ];
  }

  -- A new operation that its server's row allows.
  pub insert-IsSafe :
      (new_id : ℕ) (b : Backup)
      → 0 < new_id
      → ((s : Server)
          → find_server b.server_id db.servers ≡ some s
          → allows s.transfer s.desired_state (record b { id = new_id }) ≡ true)
      → IsSafe (insert_backup new_id b db)
  insert-IsSafe new_id b positive allowed = record {
    keyed = keyed';
    still = safe.still;
    apart = apart';
  }
    where
      keyed' : (c : Backup) → Memᴰ c (insert_backup new_id b db).backups → 0 < c.id
      keyed' c (Memᴰ.head e) = rw e positive
      keyed' c (Memᴰ.tail m) = safe.keyed c m

      apart' :
          (i : ℕ) (s : Server)
          → find_server i db.servers ≡ some s
          → (c : Backup) → Memᴰ c (insert_backup new_id b db).backups
          → active_on i c ≡ true
          → allows s.transfer s.desired_state c ≡ true
      apart' i s found c (Memᴰ.head e) a =
          let on : b.server_id ≡ i = ground (arith, e) in rw e (allowed s (rw on found))
      apart' i s found c (Memᴰ.tail m) a = safe.apart i s found c m a

  -- Operations are written without being moved, turned round or started again.
  pub update_backups-IsSafe :
      (p : Backup → Bool) (g : Backup → Backup)
      → ((b : Backup)
          → ((g b).id ≡ b.id) × ((g b).server_id ≡ b.server_id) × ((g b).direction ≡ b.direction))
      → ((b : Backup) → p b ≡ true → is_active (g b).phase ≡ true → is_active b.phase ≡ true)
      → IsSafe (update_backups p g db)
  update_backups-IsSafe p g keeps starts = record {
    keyed = λ c m. let (b, old, e) = Memᴰ-update p g db.backups m in keyed' c b old e;
    still = safe.still;
    apart = λ i s found c m a.
        let (b, old, e) = Memᴰ-update p g db.backups m in apart' i s found c b old e a;
  }
    where
      keyed' : (c b : Backup) → Memᴰ b db.backups → c ≡ (if p b then g b else b) → 0 < c.id
      keyed' c b old e = ground (arith, keeps b, safe.keyed b old)

      allows-same :
          (t : Option TransferState) (state : DesiredState) (b c : Backup)
          → b.id ≡ c.id
          → b.direction ≡ c.direction
          → allows t state b ≡ true
          → allows t state c ≡ true
      allows-same none state b c e d h = ground arith
      allows-same (some t) state b c e d h = ground arith

      apart' :
          (i : ℕ) (s : Server)
          → find_server i db.servers ≡ some s
          → (c b : Backup) → Memᴰ b db.backups
          → c ≡ (if p b then g b else b)
          → active_on i c ≡ true
          → allows s.transfer s.desired_state c ≡ true
      apart' i s found c b old e a = elim (Bool-cases (p b)) [
        | inl hit ↦
            let e' : c ≡ g b = ground (arith, hit) in
            let a' : active_on i b ≡ true = ground (arith, keeps b, starts b hit) in
            allows-same s.transfer s.desired_state b c (ground (arith, keeps b))
              (ground (arith, keeps b)) (safe.apart i s found b old a')
        | inr miss ↦
            let e' : c ≡ b = ground (arith, miss) in
            rw e' (safe.apart i s found b old (ground arith))
      ]

  pub delete-IsSafe : (p : Backup → Bool) → IsSafe (record db { backups = delete p db.backups })
  delete-IsSafe p = record {
    keyed = λ b m. safe.keyed b (Memᴰ-delete p db.backups m).0;
    still = safe.still;
    apart = λ i s found b m a. safe.apart i s found b (Memᴰ-delete p db.backups m).0 a;
  }

  -- A transaction that holds the server's row and writes it by its id.
  pub locked-IsSafe :
      (id : ℕ) (f : Server → Server) (srv : Server)
      → find_server id db.servers ≡ some srv
      → ((s : Server) → (f s).id ≡ s.id)
      → frozen (f srv).transfer (f srv).desired_state ≡ true
      → ((b : Backup)
          → Memᴰ b db.backups
          → active_on id b ≡ true
          → allows (f srv).transfer (f srv).desired_state b ≡ true)
      → IsSafe (update_server id f db)
  locked-IsSafe id f srv held keeps still apart =
      update-IsSafe (with_id id) (stamped db.now f) keeps
        (λ i s found hit. rw (same i s found hit) still)
        (λ i s found hit b m a. rw (same i s found hit) (apart b m (rw (← at i s found hit) a)))
    where
      at : (i : ℕ) (s : Server) → find_server i db.servers ≡ some s → with_id id s ≡ true → i ≡ id
      at i s found hit = ground (arith, find_server-id i db.servers found)

      same :
          (i : ℕ) (s : Server) → find_server i db.servers ≡ some s → with_id id s ≡ true → s ≡ srv
      same i s found hit = cc (at i s found hit)
