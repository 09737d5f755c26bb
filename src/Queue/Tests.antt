-- ===== src/Queue/Tests.antt =====
-- Two backups of one server that wait, and the results of Queue on them.
use quetzal.Prelude.{true, false, none, some, [], ◌∷◌, ◌≡◌, refl, All}
use quetzal.Models.Backup.{Backup, dir_backup, running, succeeded}
use quetzal.Models.Backup.{deleting}
use quetzal.Models.Samples.{lobby}
use quetzal.Store.Db.{Db, lock_server}
use quetzal.Store.Operations.{
  claim_backup, barred_by, elsewhere, observe_backup_job, complete_backup, prune_backups,
}
use quetzal.Store.Transfer.{transfer_backup}
use quetzal.Queue.{
  ready, Outside, process_pending, take_up, list_backups_by_phase, busy_servers, proceed,
  operation_cluster, sort_asc, insert_asc,
}
use quetzal.Queue.Running.{
  Job, found, Evidence, ended, process_running, end_all, complete, job_outcome, by_conditions,
}
use quetzal.Store.Operations.{mark_backup_forgotten, delete_backup}
use quetzal.Queue.Evident.{Just, process_running-Just}
use quetzal.Queue.Deleting.{Target, process_deleting, marked, removed, delete_all}
use quetzal.Queue.Forgets.{IsFounded, process_deleting-IsFounded}
use quetzal.Queue.Serial.{Free, Apart, process_pending-Serial}

abbrev willing : Outside
willing = record {
  unusable = none;
  target_id = "main";
  reachable = λ c. true;
  server_has_pods = λ s. some false;
  game_has_pods = λ s. some false;
  operation_databases = λ s b. ready [];
  exclusions = λ s b. ready ("", "");
  secret_in_place = λ b. true;
  job_name = λ b. "backup";
  job_spec = λ b. some "{}";
  created_uid = λ b. some "uid";
}

abbrev waiting : Backup
waiting = record (transfer_backup 7 1 dir_backup 1 0 false) { id = 3 }

abbrev two_waiting : Db
two_waiting = record {
  now = 9;
  servers = lobby ∷ [];
  backups = record waiting { id = 4 } ∷ waiting ∷ [];
}

-- One of the two is taken up.
one_taken : (process_pending willing two_waiting).taken ≡ 1 ∷ []
unfolding process_pending take_up list_backups_by_phase busy_servers proceed operation_cluster
    claim_backup barred_by elsewhere observe_backup_job lock_server sort_asc insert_asc
one_taken = refl

process_pending-Serial_example :
    Free (busy_servers two_waiting) (process_pending willing two_waiting).taken
    × Apart (process_pending willing two_waiting).taken
process_pending-Serial_example = process_pending-Serial willing two_waiting

abbrev done : Job
done = record {
  uid = "uid";
  expires = false;
  succeeded_pods = 1;
  failed_pods = 0;
  conditions = [];
  backoff_limit = none;
}

abbrev watching : Evidence
watching = record {
  reachable = λ c. true;
  job = λ b. found done;
  without_expiry = λ j. some j;
  job_pods = λ b. none;
  decodes = λ s. true;
  created_uid = λ b. none;
  backup_size = λ b. 0;
  failure = λ s b. "";
  retention_policy = λ j. 0;
  cleaned = λ b. false;
}

abbrev at_work : Backup
at_work = record waiting { phase = running; job_uid = "uid" }

abbrev one_running : Db
one_running = record two_waiting { backups = at_work ∷ [] }

-- The operation whose Job is done ends.
one_ended : (process_running watching one_running).events ≡ ended at_work succeeded ∷ []
unfolding process_running end_all list_backups_by_phase operation_cluster complete job_outcome
    by_conditions sort_asc insert_asc lock_server complete_backup prune_backups
one_ended = refl

process_running-Just_example : All (Just watching) (process_running watching one_running).events
process_running-Just_example = process_running-Just watching one_running

abbrev in_use : Target
in_use = record {
  seen = record watching { cleaned = λ b. true };
  target_id = some "main";
  secret_in_place = λ b. true;
  job_name = λ b. "forget";
}

abbrev forgetting : Backup
forgetting = record waiting { phase = deleting; job_name = "forget" }

abbrev one_deleting : Db
one_deleting = record two_waiting { backups = forgetting ∷ [] }

-- The snapshot whose Job is done is marked as forgotten and its row removed.
one_forgotten :
    (process_deleting in_use one_deleting).deeds ≡ removed forgetting ∷ marked forgetting ∷ []
unfolding process_deleting delete_all list_backups_by_phase busy_servers operation_cluster
    job_outcome by_conditions sort_asc insert_asc lock_server mark_backup_forgotten delete_backup
one_forgotten = refl

process_deleting-IsFounded_example :
    All (IsFounded in_use) (process_deleting in_use one_deleting).deeds
    × Free (busy_servers one_deleting) (process_deleting in_use one_deleting).round.taken
    × Apart (process_deleting in_use one_deleting).round.taken
process_deleting-IsFounded_example = process_deleting-IsFounded in_use one_deleting
