-- ===== src/Store/RetentionTests.antt =====
-- Two backups of one server, of which the newest is kept.
use quetzal.Prelude.{[], ◌∷◌, ◌≡◌, refl, sym, ap, arith, ok, Memᴰ, false}
use quetzal.Models.Backup.{Backup, dir_backup, succeeded}
use quetzal.Store.Db.{Db}
use quetzal.Store.Operations.{
  prune_backups, queue_old, old_ids, sort_desc, insert_desc, to_deleting,
}
use quetzal.Store.Retention.{prune_backups-keeps}
use quetzal.Store.Transfer.{transfer_backup}

abbrev older : Backup
older = record (transfer_backup 7 1 dir_backup 1 0 false) {
  id = 3;
  phase = succeeded;
  target = "main";
}

abbrev newer : Backup
newer = record older { id = 4 }

abbrev two_backups : Db
two_backups = record { now = 9; servers = []; backups = newer ∷ older ∷ [] }

abbrev pruned : Db
pruned = record two_backups { backups = newer ∷ to_deleting older ∷ [] }

newest_kept : prune_backups 1 "main" 1 two_backups ≡ ok pruned
unfolding prune_backups queue_old old_ids sort_desc insert_desc
newest_kept = refl

only_older : (c : Backup) → Memᴰ c two_backups.backups → older.id ≡ c.id → older ≡ c
only_older c (Memᴰ.head e) same =
    let other = ap (λ r. r.id) e in absurd (omega (arith, other, same))
only_older c (Memᴰ.tail (Memᴰ.head e)) same = sym e
only_older c (Memᴰ.tail (Memᴰ.tail m)) same = elim m [ ]

prune_backups-keeps_example : Memᴰ (to_deleting older) pruned.backups
prune_backups-keeps_example =
    prune_backups-keeps 1 "main" 1 two_backups pruned older (omega arith) newest_kept
      (Memᴰ.tail (Memᴰ.head refl)) only_older
