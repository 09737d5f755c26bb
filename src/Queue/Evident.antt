-- ===== src/Queue/Evident.antt =====
-- What the end of an operation, or a second submission of its Job, stands on (Queue.Running).
use quetzal.Prelude.{
  ℕ, String, Bool, true, false, not, ◌||◌, Option, none, some, List, [], ◌∷◌, ◌≡◌, ◌≢◌, ◌==◌, ◌⊎◌,
  ◌∙◌, inl, inr, refl, sym, ap, subst, if◌then◌else◌, All, Result, ok, err, arith, Bool-cases,
  str_eq, eq_iff, ==_iff,
}
use quetzal.Models.Server.{Server}
use quetzal.Models.Backup.{Backup, BackupPhase, running, succeeded, failed}
use quetzal.Store.Db.{Db, find_server}
use quetzal.Queue.{list_backups_by_phase, operation_cluster}
use quetzal.Queue.Running.{
  Job, Outcome, completed, gave_up, undecided, job_outcome, Looked, found, missing, unread,
  Evidence, Event, submitted, ended, World, after_end, on_outcome, once_observed, observed, adopted,
  was_replaced, with_job, submit, without_pods, resume_submission, on_looked, drained_by, on_server,
  end_all, process_running,
}

-- The cluster shows a Job of the operation with this outcome, and it is not known to be another's.
-- The outcome is read of the Job itself or, where it expires, of the Job without its expiry.
pub record Shows (seen : Evidence) (b : Backup) (outcome : Outcome) : Type 0 where
  pub shown : Job
  pub read : Job
  pub is_shown : seen.job b ≡ found shown
  pub is_own : (b.job_uid ≡ "") ⊎ (b.job_uid ≡ shown.uid)
  pub is_read : (if shown.expires then seen.without_expiry shown else some shown) ≡ some read
  pub has_outcome : job_outcome read ≡ outcome

-- An operation succeeds on a Job that completed and fails on one that gave up; its Job is submitted
-- again only if it is not there, was never observed, and has no pods.
abbrev pub Just : Evidence → Event → Type 0
Just seen (ended b succeeded) = Shows seen b completed
Just seen (ended b failed) = Shows seen b gave_up
Just seen (ended b phase) = ⊥
Just seen (submitted b) =
    (seen.job b ≡ missing)
    × (b.job_uid ≡ "")
    × (b.job_spec ≢ "")
    × (seen.job_pods b ≡ some 0)
    × (seen.decodes b.job_spec ≡ true)

-- A step adds no event, or one that is just.
data Did (seen : Evidence) (w w' : World) : Type 0 where
  quiet : w'.events ≡ w.events → Did seen w w'
  did : (e : Event) → w'.events ≡ e ∷ w.events → Just seen e → Did seen w w'

same_text : (s t : String) → not (str_eq s t) ≡ false → s ≡ t
same_text s t h = (eq_iff s t).0 (ground (arith, h))

module _ (seen : Evidence) where
  if_Did :
      {w : World} (t : Bool) {x y : World}
      → (t ≡ true → Did seen w x)
      → (t ≡ false → Did seen w y)
      → Did seen w (if t then x else y)
  if_Did true here there = here refl
  if_Did false here there = there refl

  after_end-Did :
      (b : Backup) (phase : BackupPhase) (w : World) (r : Result Db)
      → Just seen (ended b phase)
      → Did seen w (after_end seen b phase w r)
  after_end-Did b phase w (err e) just = quiet refl
  after_end-Did b phase w (ok db) just = did (ended b phase) refl just

  on_outcome-Did :
      (srv : Server) (b : Backup) (j : Job) (outcome : Outcome) (w : World)
      → Shows seen b outcome
      → Did seen w (on_outcome seen srv b j outcome w)
  on_outcome-Did srv b j completed w shows = after_end-Did b succeeded w _ shows
  on_outcome-Did srv b j gave_up w shows = after_end-Did b failed w _ shows
  on_outcome-Did srv b j undecided w shows = quiet refl

  -- A write to the tables before the step.
  after_write : (db : Db) (w w' : World) → Did seen (record w { db = db }) w' → Did seen w w'
  after_write db w w' (quiet e) = quiet e
  after_write db w w' (did ev e just) = did ev e just

  once_observed-Did :
      (srv : Server) (b : Backup) (j : Job) (r : Result Db) (w : World)
      → Shows seen b (job_outcome j)
      → Did seen w (once_observed seen srv b j r w)
  once_observed-Did srv b j (err e) w shows = quiet refl
  once_observed-Did srv b j (ok db) w shows =
      after_write db w (once_observed seen srv b j (ok db) w)
        (on_outcome-Did srv b j (job_outcome j) (record w { db = db }) shows)

  adopted-Did :
      (srv : Server) (b : Backup) (o : Option Job) (w : World)
      → ((j : Job) → o ≡ some j → Shows seen b (job_outcome j))
      → Did seen w (adopted seen srv b o w)
  adopted-Did srv b none w shows = quiet refl
  adopted-Did srv b (some j) w shows =
      once_observed-Did srv b j (observed seen b j w.db) w (shows j refl)

  own_job :
      (b : Backup) (j : Job)
      → was_replaced seen b j ≡ false
      → (b.job_uid ≡ "") ⊎ (b.job_uid ≡ j.uid)
  own_job b j h = elim (Bool-cases (str_eq b.job_uid "")) [
    | inl blank ↦ inl ((eq_iff b.job_uid "").0 blank)
    | inr given ↦ inr (same_text b.job_uid j.uid (ground (arith, given, h)))
  ]

  with_job-Did :
      (srv : Server) (b : Backup) (j : Job) (w : World)
      → seen.job b ≡ found j
      → Did seen w (with_job seen srv b j w)
  with_job-Did srv b j w shown =
      if_Did (was_replaced seen b j) (λ replaced. quiet refl)
        (λ own.
          adopted-Did srv b (if j.expires then seen.without_expiry j else some j) w (λ read known.
            record {
              shown = j;
              read = read;
              is_shown = shown;
              is_own = own_job b j own;
              is_read = known;
              has_outcome = refl;
            }))

  submit-Did :
      (b : Backup) (uid : Option String) (w : World)
      → Just seen (submitted b)
      → Did seen w (submit seen b uid w)
  submit-Did b none w just = did (submitted b) refl just
  submit-Did b (some uid) w just = did (submitted b) refl just

  without_pods-Did :
      (b : Backup) (pods : Option ℕ) (w : World)
      → ((n : ℕ) → pods ≡ some n → n ≡ 0 → seen.decodes b.job_spec ≡ true → Just seen (submitted b))
      → Did seen w (without_pods seen b pods w)
  without_pods-Did b none w just = quiet refl
  without_pods-Did b (some n) w just =
      if_Did (n == 0)
        (λ empty.
          if_Did (seen.decodes b.job_spec)
            (λ known.
              submit-Did b (seen.created_uid b) w (just n refl ((==_iff n 0).0 empty) known))
            (λ garbled. quiet refl))
        (λ some_left. quiet refl)

  resume_submission-Did :
      (b : Backup) (w : World) → seen.job b ≡ missing → Did seen w (resume_submission seen b w)
  resume_submission-Did b w lost =
      if_Did (not (str_eq b.job_uid "") || str_eq b.job_spec "") (λ known. quiet refl)
        (λ new. without_pods-Did b (seen.job_pods b) w (λ n pods zero decodes. (
          lost,
          same_text b.job_uid "" (ground (arith, new)),
          (λ blank. let e = (eq_iff b.job_spec "").1 blank in absurd (ground (arith, new, e))),
          pods ∙ ap some zero,
          decodes,
        )))

  on_looked-Did :
      (srv : Server) (b : Backup) (l : Looked) (w : World)
      → seen.job b ≡ l
      → Did seen w (on_looked seen srv b l w)
  on_looked-Did srv b (found j) w e = with_job-Did srv b j w e
  on_looked-Did srv b missing w e = resume_submission-Did b w e
  on_looked-Did srv b unread w e = quiet refl

  on_server-Did :
      (b : Backup) (known : Option Server) (w : World) → Did seen w (on_server seen b known w)
  on_server-Did b none w = quiet refl
  on_server-Did b (some srv) w =
      if_Did (drained_by seen srv.transfer b) (λ drained. quiet refl)
        (λ own.
          if_Did (seen.reachable (operation_cluster b srv))
            (λ up. on_looked-Did srv b (seen.job b) w refl) (λ down. quiet refl))

  end_all-Just :
      (bs : List Backup) (w : World)
      → All (Just seen) w.events
      → All (Just seen) (end_all seen bs w).events
  unfolding end_all
  end_all-Just [] w h = h
  end_all-Just (b ∷ bs) w h =
      end_all-Just bs (on_server seen b (find_server b.server_id w.db.servers) w)
        (extended (on_server-Did b (find_server b.server_id w.db.servers) w))
    where
      extended : {w' : World} → Did seen w w' → All (Just seen) w'.events
      extended (quiet e) = subst (All (Just seen)) (sym e) h
      extended (did ev e just) = subst (All (Just seen)) (sym e) (just, h)

-- Whatever a tick over the running operations ends or submits stands on evidence: an operation
-- succeeds only on a Job that completed, fails only on one that gave up, in both cases one that is
-- not known to be another's, and its Job is submitted again only if it is missing without ever
-- having been observed, its specification is known and decodes, and it has no pods.
pub process_running-Just :
    (seen : Evidence) (db : Db) → All (Just seen) (process_running seen db).events
unfolding process_running
process_running-Just seen db =
    end_all-Just seen (list_backups_by_phase running db) (record { db = db; events = [] }) tt
