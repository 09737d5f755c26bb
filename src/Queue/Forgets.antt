-- ===== src/Queue/Forgets.antt =====
-- What the deletion of a snapshot stands on, and one deletion of a server at a time
-- (Queue.Deleting).
use quetzal.Prelude.{
  ℕ, Bool, true, false, not, ◌&&◌, Option, none, some, List, [], ◌∷◌, ◌≡◌, ◌≢◌, ◌==◌, ◌⊎◌, inl, inr,
  refl, subst, if◌then◌else◌, All, Result, ok, err, arith, str_eq, eq_iff, ==_iff,
}
use quetzal.Models.Server.{Server}
use quetzal.Models.Backup.{Backup, deleting}
use quetzal.Store.Db.{Db, find_server}
use quetzal.Store.Operations.{mark_backup_forgotten, claim_backup_deletion}
use quetzal.Queue.{is_busy, busy_servers, list_backups_by_phase, operation_cluster}
use quetzal.Queue.Serial.{
  Turn, passed, reserved, still_busy, taken_up, Loop, Turn-Loop, Free, Apart,
}
use quetzal.Queue.Running.{
  Job, Outcome, completed, gave_up, undecided, job_outcome, Looked, found, missing, unread,
}
use quetzal.Queue.Deleting.{
  Target, Deed, marked, removed, sent, Sweep, cleanup_forgotten, marked_done, on_end, on_kept,
  same_target, once_claimed, send, send_without_pods, on_job, by_job, for_server, delete_all,
  process_deleting,
}

-- The cluster shows a Job of the deletion that completed; it is read without its expiry.
pub record Forgot (at : Target) (b : Backup) : Type 0 where
  pub shown : Job
  pub read : Job
  pub is_named : b.job_name ≢ ""
  pub is_shown : at.seen.job b ≡ found shown
  pub is_read : (if shown.expires then at.seen.without_expiry shown else some shown) ≡ some read
  pub has_completed : job_outcome read ≡ completed

-- A row is marked as forgotten for a Job that completed, and removed if it is so marked or has such
-- a Job; a Job is
-- submitted on the row's own target, for a row without a Job or one whose Job and pods are gone.
abbrev pub IsFounded : Target → Deed → Type 0
IsFounded at (marked b) = Forgot at b
IsFounded at (removed b) = (b.forgotten ≡ true) ⊎ Forgot at b
IsFounded at (sent b) =
    (b.forgotten ≡ false)
    × (same_target b at.target_id ≡ true)
    × ((b.job_name ≡ "") ⊎ ((at.seen.job b ≡ missing) × (at.seen.job_pods b ≡ some 0)))

-- What a step with an operation leaves: the round after a turn for its server, and further deeds
-- that are founded if those before are.
record Passed (at : Target) (b : Backup) (s s' : Sweep) : Type 0 where
  turn : Turn b.server_id s.round s'.round
  founded : All (IsFounded at) s.deeds → All (IsFounded at) s'.deeds

idle : (at : Target) (b : Backup) (s : Sweep) → Passed at b s s
idle at b s = record { turn = passed refl refl; founded = λ h. h }

module _ (at : Target) (b : Backup) where
  if_Passed :
      {s : Sweep} (t : Bool) {x y : Sweep}
      → (t ≡ true → Passed at b s x)
      → (t ≡ false → Passed at b s y)
      → Passed at b s (if t then x else y)
  if_Passed true here there = here refl
  if_Passed false here there = there refl

  cleanup_forgotten-Passed :
      (s : Sweep) → ((b.forgotten ≡ true) ⊎ Forgot at b) → Passed at b s (cleanup_forgotten at b s)
  cleanup_forgotten-Passed s why =
      if_Passed (at.seen.cleaned b)
        (λ gone. record { turn = passed refl refl; founded = λ h. (why, h) }) (λ left. idle at b s)

  marked_done-Passed :
      (s : Sweep) (r : Result Db) → Forgot at b → Passed at b s (marked_done at b r s)
  marked_done-Passed s (err e) why = idle at b s
  marked_done-Passed s (ok db) why =
      if_Passed (at.seen.cleaned b)
        (λ gone. record { turn = passed refl refl; founded = λ h. (inr why, (why, h)) })
        (λ left. record { turn = passed refl refl; founded = λ h. (why, h) })

  on_end-Passed :
      (s : Sweep) (o : Outcome) → (o ≡ completed → Forgot at b) → Passed at b s (on_end at b o s)
  on_end-Passed s completed why =
      marked_done-Passed s (mark_backup_forgotten b.id s.round.db) (why refl)
  on_end-Passed s gave_up why = record { turn = passed refl refl; founded = λ h. h }
  on_end-Passed s undecided why = idle at b s

  on_kept-Passed :
      (s : Sweep) (j : Job) (o : Option Job)
      → b.job_name ≢ ""
      → at.seen.job b ≡ found j
      → (if j.expires then at.seen.without_expiry j else some j) ≡ o
      → Passed at b s (on_kept at b o s)
  on_kept-Passed s j none named shown read = idle at b s
  on_kept-Passed s j (some k) named shown read = on_end-Passed s (job_outcome k) (λ done. record {
    shown = j;
    read = k;
    is_named = named;
    is_shown = shown;
    is_read = read;
    has_completed = done;
  })

  once_claimed-Passed :
      (s : Sweep) (claim : Db × Bool)
      → is_busy s.round.busy b.server_id ≡ false
      → IsFounded at (sent b)
      → Passed at b s (once_claimed at b claim s)
  once_claimed-Passed s (db, false) free why = record { turn = passed refl refl; founded = λ h. h }
  once_claimed-Passed s (db, true) free why = record {
    turn = reserved free (taken_up refl refl);
    founded = λ h. (why, h);
  }

  send-Passed :
      (srv : Server) (s : Sweep)
      → b.forgotten ≡ false
      → ((b.job_name ≡ "") × (is_busy s.round.busy b.server_id ≡ false))
        ⊎ ((b.job_name ≢ "") × (at.seen.job b ≡ missing) × (at.seen.job_pods b ≡ some 0))
      → Passed at b s (send at srv b s)
  send-Passed srv s kept (inl (new, free)) =
      if_Passed (same_target b at.target_id && at.secret_in_place b)
        (λ reached.
          let own : same_target b at.target_id ≡ true = ground (arith, reached) in
          if_Passed (str_eq b.job_name "")
            (λ unnamed.
              once_claimed-Passed s
                (claim_backup_deletion b.id (at.job_name b) (operation_cluster b srv) s.round.db)
                free (kept, own, inl new))
            (λ named.
              let same = (eq_iff b.job_name "").1 new in absurd (ground (arith, named, same))))
        (λ lost. idle at b s)
  send-Passed srv s kept (inr (named, gone, pods)) =
      if_Passed (same_target b at.target_id && at.secret_in_place b)
        (λ reached.
          let own : same_target b at.target_id ≡ true = ground (arith, reached) in
          if_Passed (str_eq b.job_name "")
            (λ unnamed. absurd (named ((eq_iff b.job_name "").0 unnamed)))
            (λ again. record {
              turn = still_busy refl refl;
              founded = λ h. ((kept, own, inr (gone, pods)), h);
            }))
        (λ lost. idle at b s)

  send_without_pods-Passed :
      (srv : Server) (s : Sweep) (pods : Option ℕ)
      → b.forgotten ≡ false
      → b.job_name ≢ ""
      → at.seen.job b ≡ missing
      → at.seen.job_pods b ≡ pods
      → Passed at b s (send_without_pods at srv b pods s)
  send_without_pods-Passed srv s none kept named gone e = idle at b s
  send_without_pods-Passed srv s (some n) kept named gone e =
      if_Passed (n == 0)
        (λ zero.
          send-Passed srv s kept
            (inr (named, gone, subst (λ m. at.seen.job_pods b ≡ some m) ((==_iff n 0).0 zero) e)))
        (λ running. idle at b s)

  on_job-Passed :
      (srv : Server) (s : Sweep) (l : Looked)
      → b.forgotten ≡ false
      → b.job_name ≢ ""
      → at.seen.job b ≡ l
      → Passed at b s (on_job at srv b l s)
  on_job-Passed srv s (found j) kept named e =
      on_kept-Passed s j (if j.expires then at.seen.without_expiry j else some j) named e refl
  on_job-Passed srv s missing kept named e =
      send_without_pods-Passed srv s (at.seen.job_pods b) kept named e refl
  on_job-Passed srv s unread kept named e = idle at b s

  by_job-Passed : (srv : Server) (s : Sweep) → Passed at b s (by_job at srv b s)
  by_job-Passed srv s =
      if_Passed b.forgotten (λ forgotten. cleanup_forgotten-Passed s (inl forgotten))
        (λ kept.
          if_Passed (not (str_eq b.job_name ""))
            (λ named.
              on_job-Passed srv s (at.seen.job b) kept
                (λ blank.
                  let same = (eq_iff b.job_name "").1 blank in absurd (ground (arith, named, same)))
                refl)
            (λ unnamed.
              if_Passed (is_busy s.round.busy b.server_id) (λ busy. idle at b s)
                (λ free.
                  send-Passed srv s kept
                    (inl ((eq_iff b.job_name "").0 (ground (arith, unnamed)), free)))))

  for_server-Passed : (known : Option Server) (s : Sweep) → Passed at b s (for_server at b known s)
  for_server-Passed none s = idle at b s
  for_server-Passed (some srv) s =
      if_Passed (at.seen.reachable (operation_cluster b srv)) (λ up. by_job-Passed srv s)
        (λ down. idle at b s)

-- What the loop keeps.
record Kept (at : Target) (start : List ℕ) (s : Sweep) : Type 0 where
  loop : Loop start s.round
  founded : All (IsFounded at) s.deeds

delete_all-Kept :
    (at : Target) (start : List ℕ) (bs : List Backup) (s : Sweep)
    → Kept at start s
    → Kept at start (delete_all at bs s)
unfolding delete_all
delete_all-Kept at start [] s h = h
delete_all-Kept at start (b ∷ bs) s h =
    let next = for_server at b (find_server b.server_id s.round.db.servers) s in
    let step = for_server-Passed at b (find_server b.server_id s.round.db.servers) s in
    delete_all-Kept at start bs next (record {
      loop = Turn-Loop start b.server_id s.round next.round step.turn h.loop;
      founded = step.founded h.founded;
    })

-- A tick over the deletions of snapshots marks a row as forgotten only for a Job of it that
-- completed, and removes only a row that is so marked or has such a Job; it submits a Job only on the
-- row's own target, for a row that has none yet or whose Job and pods are gone. It begins at most one
-- deletion of each server, and none of a server that has an operation running, or a deletion under
-- way, when the tick begins. All this whatever the clusters and the transactions answer.
pub process_deleting-IsFounded :
    (at : Target) (db : Db)
    → All (IsFounded at) (process_deleting at db).deeds
      × Free (busy_servers db) (process_deleting at db).round.taken
      × Apart (process_deleting at db).round.taken
unfolding process_deleting
process_deleting-IsFounded at db =
    let start : Sweep = record {
      round = record { db = db; busy = busy_servers db; taken = [] };
      deeds = [];
    } in
    let end =
      delete_all-Kept at (busy_servers db) (list_backups_by_phase deleting db) start (record {
        loop = record {
          free = tt;
          apart = tt;
          covers_taken = λ s e. refl;
          covers_start = λ s e. e;
        };
        founded = tt;
      }) in
    (end.founded, end.loop.free, end.loop.apart)
