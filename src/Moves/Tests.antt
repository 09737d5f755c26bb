-- ===== src/Moves/Tests.antt =====
-- A tick of the driver on a transfer that has been restored.
use quetzal.Prelude.{true, false, some, [], ◌∷◌, ◌≡◌, ◌≢◌, Memᴰ, refl, ap}
use quetzal.Models.Server.{Server, TransferState, committing}
use quetzal.Store.Transfer.{commit_server_transfer, finish_server_transfer}
use quetzal.Store.Samples.{restored, lobby_restored, lobby_moving}
use quetzal.Moves.{
  Outside, World, Answer, process_one, advance_restoring, advance_committing, read_backup,
  delete_namespace,
}
use quetzal.Moves.Sources.{HasGrounds, process_one-Restored}
use quetzal.Store.Interlock.Steps.{Reach}
use quetzal.Store.Db.{find_server}

-- Every cluster answers, nothing of the server runs, and what is deleted is gone.
abbrev calm : Outside
calm = record {
  reachable = λ c. true;
  unreadable = λ id. false;
  pods = λ c sel. some 0;
  volume = λ c. Answer.found;
  namespace_deleted = λ c. Answer.found;
  namespace_left = λ c. Answer.missing;
  job_deleted = λ c name. Answer.missing;
  job_left = λ c name. Answer.missing;
  job_pods = λ c name. some 0;
  secret_deleted = λ c. Answer.missing;
  job_name = λ b. "quetzal-job";
  new_id = 5;
}

abbrev restored_row : Server
restored_row = record lobby_moving { transfer = some lobby_restored; cluster_id = 2 }

abbrev before : World
before = record { db = restored; asked = []; events = [] }

-- The tick commits the transfer, deletes the namespace on the source, cluster 1, and finishes.
source_asked : (process_one calm restored_row before).asked ≡ 1 ∷ []
unfolding process_one advance_restoring advance_committing read_backup delete_namespace
    commit_server_transfer finish_server_transfer
source_asked = refl

is_asked : Memᴰ 1 (process_one calm restored_row before).asked
unfolding process_one advance_restoring advance_committing read_backup delete_namespace
    commit_server_transfer finish_server_transfer
is_asked = Memᴰ.head refl

no_commit_yet :
    (s : Server) (t : TransferState)
    → find_server 1 restored.servers ≡ some s
    → s.transfer ≡ some t
    → t.phase ≢ committing
no_commit_yet s t found busy phase =
    let row : restored_row ≡ s = cc in
    let moving : lobby_restored ≡ t = let k = ap (λ q. q.transfer) row in cc in
    let k = ap (λ q. q.phase) moving in cc

process_one-Restored_example : HasGrounds restored restored restored_row 1
process_one-Restored_example =
    process_one-Restored restored calm restored_row before Reach.here refl no_commit_yet 1 refl
      is_asked
