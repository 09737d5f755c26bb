-- ===== src/Store/Tests.antt =====
-- Concrete tables, and the results of Store on them.
use quetzal.Prelude.{
  ℕ, true, false, not, ◌&&◌, none, some, ◌==◌, ◌≡◌, ◌≢◌, any, first, ok, refl, arith,
}
use quetzal.Models.Server.{Server, running, committing, replicas}
use quetzal.Models.Backup.{Backup, succeeded}
use quetzal.Store.Db.{Db, find_server, active_on}
use quetzal.Store.Power.{start_server, offline_on}
use quetzal.Store.Transfer.{
  begin_server_transfer, tracked, finish_server_transfer, cancel_server_transfer,
}
use quetzal.Store.Interlock.Writes.{IsSafe}
use quetzal.Store.Interlock.Steps.{Reach, Step}
use quetzal.Store.Interlock.Running.{running_undisturbed, transfer_exclusive}
use quetzal.Store.TransferLaws.{finish_forward, begin-cancel-finish, EndsAs}
use quetzal.Store.TransferSteps.{InTransfer}
use quetzal.Store.Samples.{
  quiet, started_db, lobby_on, lobby_move, moving, lobby_moving, committed, finished, given_up,
  taken_back,
}

lobby_only : (i : ℕ) (s : Server) → find_server i quiet.servers ≡ some s → s.transfer ≡ none
lobby_only i s found = ground (arith, found)

quiet-IsSafe : IsSafe quiet
quiet-IsSafe = record {
  keyed = λ b m. elim m [ ];
  still = λ i s found. rw (lobby_only i s found) refl;
  apart = λ i s found b m a. elim m [ ];
}

start_ok : start_server 1 50 quiet ≡ ok started_db
unfolding start_server
start_ok = refl

lobby_wanted : replicas lobby_on ≡ 1
unfolding replicas
lobby_wanted = refl

running_undisturbed_example :
    (lobby_on.transfer ≡ none) × (any (offline_on 1) started_db.backups ≡ false)
running_undisturbed_example =
    running_undisturbed quiet-IsSafe (Reach.next Reach.here (Step.start 1 50 start_ok)) 1 lobby_on
      refl lobby_wanted

begin_ok : begin_server_transfer 1 2 60 quiet ≡ ok moving
unfolding begin_server_transfer
begin_ok = refl

transfer_exclusive_example :
    (lobby_moving.desired_state ≢ running)
    × (replicas lobby_moving ≡ 0)
    × (any (λ b. active_on 1 b && not (tracked lobby_move b)) moving.backups ≡ false)
transfer_exclusive_example =
    transfer_exclusive quiet-IsSafe (Reach.next Reach.here (Step.begins 1 2 60 begin_ok)) 1
      lobby_moving refl lobby_move refl

begin-cancel-finish_example :
    (before : Server) × (after : Db) × (end : Db) × (find_server 1 quiet.servers ≡ some before)
    × (cancel_server_transfer 1 "no" moving ≡ ok after)
    × (finish_server_transfer 1 true after ≡ ok end)
    × (find_server 1 end.servers
        ≡ some (record before { restart_requested_at = none; updated_at = quiet.now }))
begin-cancel-finish_example = begin-cancel-finish 1 2 60 "no" quiet begin_ok

finish_ok : finish_server_transfer 1 false committed ≡ ok finished
unfolding finish_server_transfer
finish_ok = refl

finish_forward_example : InTransfer 1 committed (λ s t.
    (b : Backup) × (first (λ c. c.id == t.restore_id) committed.backups ≡ some b)
    × (b.phase ≡ succeeded)
    × (t.phase ≡ committing)
    × (t.cancelled ≡ false)
    × EndsAs 1 finished (λ r.
      (r.cluster_id ≡ t.target_cluster) × (r.desired_state ≡ t.prev_state) × (r.transfer ≡ none)))
finish_forward_example = finish_forward 1 committed finish_ok

back_ok : finish_server_transfer 1 true given_up ≡ ok taken_back
unfolding finish_server_transfer
back_ok = refl
