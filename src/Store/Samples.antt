-- ===== src/Store/Samples.antt =====
-- Tables at the stages of a transfer of one server, for tests.
use quetzal.Prelude.{true, false, some, [], ◌∷◌}
use quetzal.Models.Server.{Server, TransferState, restoring, committing}
use quetzal.Models.Backup.{Backup, dir_restore, succeeded}
use quetzal.Models.Samples.{lobby}
use quetzal.Store.Db.{Db, update_server}
use quetzal.Store.Power.{powered_on}
use quetzal.Store.Transfer.{begun, stopped_for, transfer_backup, released}

abbrev pub quiet : Db
quiet = record { now = 9; servers = lobby ∷ []; backups = [] }

abbrev pub started_db : Db
started_db = update_server 1 (powered_on 50) quiet

abbrev pub lobby_on : Server
lobby_on = record (powered_on 50 lobby) { updated_at = 9 }

abbrev pub lobby_move : TransferState
lobby_move = begun lobby 2 60

abbrev pub moving : Db
moving = update_server 1 (stopped_for lobby_move) quiet

abbrev pub lobby_moving : Server
lobby_moving = record (stopped_for lobby_move lobby) { updated_at = 9 }

-- The lobby's transfer with its restore done.
abbrev pub lobby_restored : TransferState
lobby_restored = record lobby_move { phase = restoring; backup_id = 3; restore_id = 4 }

abbrev pub restore_done : Backup
restore_done = record (transfer_backup 7 1 dir_restore 2 3 false) { id = 4; phase = succeeded }

abbrev pub restored : Db
restored = record {
  now = 20;
  servers = record lobby_moving { transfer = some lobby_restored; cluster_id = 2 } ∷ [];
  backups = restore_done ∷ [];
}

abbrev pub committed : Db
committed = record restored {
  servers =
      record lobby_moving {
        transfer = some (record lobby_restored { phase = committing });
        cluster_id = 2;
      }
      ∷ [];
}

abbrev pub finished : Db
finished = update_server 1 (released lobby_restored 2) committed

abbrev pub given_up : Db
given_up = record committed {
  servers = record lobby_moving { transfer = some (record lobby_move { cancelled = true }) } ∷ [];
}

abbrev pub taken_back : Db
taken_back = update_server 1 (released lobby_move 1) given_up
