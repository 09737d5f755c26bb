-- ===== src/Moves/Sources.antt =====
-- The source's copy of a server is deleted only after a restore (Moves.Deletion over a run).
use quetzal.Prelude.{ℕ, some, [], ◌≡◌, ◌≢◌, ◌⊎◌, inl, inr, refl, Memᴰ}
use quetzal.Models.Server.{Server, TransferState, restoring, committing}
use quetzal.Store.Db.{Db, find_server}
use quetzal.Store.Interlock.Steps.{Reach}
use quetzal.Store.Interlock.Restored.{Restored, Reach-Restored}
use quetzal.Moves.{Outside, World, process_one}
use quetzal.Moves.Deletion.{MayDelete, process_one-MayDelete}

-- The cluster is the source of the server's transfer, whose restore had succeeded at some point of
-- the run from `first` to `last`, or the target of a transfer that restores.
abbrev pub HasGrounds : Db → Db → Server → ℕ → Type 0
HasGrounds first last srv cluster =
    (t : TransferState) × (srv.transfer ≡ some t)
    × (((cluster ≡ t.source_cluster) × Restored srv.id t.restore_id first last)
        ⊎ ((cluster ≡ t.target_cluster) × (t.phase ≡ restoring)))

module _ (first : Db) (out : Outside) (srv : Server) (w : World) (run : Reach first w.db)
    (current : find_server srv.id w.db.servers ≡ some srv)
    (fresh : (s : Server) (t : TransferState)
      → find_server srv.id first.servers ≡ some s
      → s.transfer ≡ some t
      → t.phase ≢ committing) where
  has_grounds : {cluster : ℕ} → MayDelete w.db srv cluster → HasGrounds first w.db srv cluster
  has_grounds may = (
    may.moving,
    may.is_moving,
    elim may.reason [
      | inr target ↦ inr target
      | inl (source, inl phase) ↦ inl (
        source,
        Reach-Restored srv.id may.moving.restore_id run fresh
            (srv, may.moving, current, may.is_moving, phase, refl),
      )
      | inl (source, inr (phase, (b, known, done))) ↦ inl (
        source,
        record {
          at = w.db;
          before = run;
          after = Reach.here;
          succeeded_there = (srv, may.moving, b, current, may.is_moving, phase, refl, known, done);
        },
      )
    ],
  )

  -- After any sequence of accepted transactions from tables in which a server is in no transfer that
  -- commits, a tick on the server's row as it then stands asks a cluster to delete the server's
  -- namespace only if it is the source of the transfer, whose restore had succeeded at some point of
  -- the sequence or by its end, or the target of a transfer that was restoring.
  pub process_one-Restored :
      (cluster : ℕ)
      → w.asked ≡ []
      → Memᴰ cluster (process_one out srv w).asked
      → HasGrounds first w.db srv cluster
  process_one-Restored cluster none_asked m =
      has_grounds (process_one-MayDelete out srv w current none_asked cluster m)
