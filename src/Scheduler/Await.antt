-- ===== src/Scheduler/Await.antt =====
-- A chain's wait for a backup comes to its end.
use quetzal.Prelude.{
  ℕ, zero, suc, Bool, true, false, not, Option, none, some, ◌+◌, ◌*◌, ◌≡◌, ◌≤◌, ◌<◌, ltb, arith,
  Bool-cases, inl, inr, String, if◌then◌else◌, refl,
}
use quetzal.Models.Backup.{Backup, BackupPhase}
use quetzal.Scheduler.Chain.{
  Poll, Look, there, gone, unread, await_backup, by_look, by_phase, waited_out, after_sleep,
  backup_poll, backup_wait, enough_rounds,
}

-- The wait is over, with its error or without.
abbrev pub Ends : Option (Option String) → Type 0
Ends o = (r : Option String) × (o ≡ some r)

after_sleep-Ends :
    (slept : Option String) (later : Option (Option String))
    → Ends later
    → Ends (after_sleep slept later)
after_sleep-Ends (some e) later h = (some e, refl)
after_sleep-Ends none later h = h

module _ (p : Poll) (deadline : ℕ) (later : Option (Option String))
    (ends : p.now < deadline → Ends later) where
  waited_out-Ends : Ends (waited_out p deadline later)
  waited_out-Ends = elim (Bool-cases (ltb p.now deadline)) [
    | inl early ↦ rw early (after_sleep-Ends p.slept later (ends (ground (arith, early))))
    | inr late ↦ rw late (some "the backup had not finished after 7h0m0s", refl)
  ]

  by_phase-Ends :
      (phase : BackupPhase) (message : String) → Ends (by_phase phase message p deadline later)
  by_phase-Ends BackupPhase.succeeded message = (none, refl)
  by_phase-Ends BackupPhase.deleting message = (none, refl)
  by_phase-Ends BackupPhase.failed message = (some _, refl)
  by_phase-Ends BackupPhase.pending message = waited_out-Ends
  by_phase-Ends BackupPhase.running message = waited_out-Ends

  by_look-Ends : (b : Look Backup) → Ends (by_look b p deadline later)
  by_look-Ends (there b) = by_phase-Ends b.phase b.message
  by_look-Ends gone = (some _, refl)
  by_look-Ends (unread e) = (some e, refl)

one_round-Ends :
    (polls : ℕ → Poll) (deadline rounds k : ℕ)
    → ((polls k).now < deadline → Ends (await_backup polls deadline rounds (k + 1)))
    → Ends (await_backup polls deadline (suc rounds) k)
unfolding await_backup
one_round-Ends polls deadline rounds k ends = ended (polls k).active
  where
    ended :
        (b : Bool)
        → Ends (
            if not b
            then some (some "schedule cancelled or checkpoint unavailable")
            else by_look
                (polls k).backup
                (polls k)
                deadline
                (await_backup polls deadline rounds (k + 1)))
    ended true = by_look-Ends (polls k) deadline _ ends (polls k).backup
    ended false = (some _, refl)

-- With the rounds that the clock needs to come to the deadline, the wait ends.
await-Ends :
    (polls : ℕ → Poll) (start deadline : ℕ) (rounds k : ℕ)
    → ((i : ℕ) → start + i * backup_poll ≤ (polls i).now)
    → deadline ≤ start + (k + rounds) * backup_poll
    → Ends (await_backup polls deadline (suc rounds) k)
await-Ends polls start deadline zero k clock enough =
    one_round-Ends polls deadline zero k (λ early. absurd (omega (arith, clock k, early, enough)))
await-Ends polls start deadline (suc rounds) k clock enough =
    one_round-Ends polls deadline (suc rounds) k
      (λ early. await-Ends polls start deadline rounds (k + 1) clock (omega (arith, enough)))

-- A chain's wait for its backup ends, with the backup or with an error, within 5041 rounds: a clock
-- that each sleep moves on by five seconds is then past the seven hours.
pub await_backup-Ends :
    (polls : ℕ → Poll) (start : ℕ)
    → ((i : ℕ) → start + i * backup_poll ≤ (polls i).now)
    → Ends (await_backup polls (start + backup_wait) enough_rounds 0)
await_backup-Ends polls start clock =
    await-Ends polls start (start + backup_wait) 5040 0 clock (omega arith)
