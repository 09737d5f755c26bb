-- ===== src/Schedules/Claims.antt =====
-- One claim of a firing wins, one end of a run is recorded, and disabling a schedule ends its run.
use quetzal.Prelude.{
  ℕ, suc, String, Bool, true, false, Option, some, List, [], ◌∷◌, ◌+◌, ◌≤◌, ◌<◌, ◌≡◌, first, update,
  count, length, All, ok, is_some, is_none, arith, Bool-cases, inl, inr, refl,
}
use quetzal.Models.Schedule.{Schedule, ScheduleRun}
use quetzal.Schedules.{
  update_schedule, start_schedule_run, schedule_run_active, save_schedule_run, finish_schedule_run,
  with_id, edited, edit, idle_at, live_at, started, claimed, closed, next_generation,
}
use quetzal.Schedules.Stale.{
  Write, apply_all, Over, update-All, first-All, update_schedule-eq, stale_stays_stale,
}

-- After an update of the rows that pass, none passes, and a second update changes nothing.
module _ (p : Schedule → Bool) (f g : Schedule → Schedule)
    (leaves : (r : Schedule) → p r ≡ true → p (f r) ≡ false) where
  update-count : (rows : List Schedule) → count p (update p f rows) ≡ 0
  update-count [] = refl
  update-count (r ∷ rows) = elim (Bool-cases (p r)) [
    | inl hit ↦ ground (arith, hit, leaves r hit, update-count rows)
    | inr miss ↦ ground (arith, miss, update-count rows)
  ]

  update-update : (rows : List Schedule) → update p g (update p f rows) ≡ update p f rows
  update-update [] = refl
  update-update (r ∷ rows) = elim (Bool-cases (p r)) [
    | inl hit ↦ ground (arith, hit, leaves r hit, update-update rows)
    | inr miss ↦ ground (arith, miss, update-update rows)
  ]

not_idle : (id g : ℕ) (r : Schedule) → is_none r.run ≡ false → idle_at id g r ≡ false
not_idle id g r busy = ground arith

not_live : (id g : ℕ) (r : Schedule) → is_some r.run ≡ false → live_at id g r ≡ false
not_live id g r idle = ground arith

-- Two schedulers that saw the same row cannot both start it: after one start, a start from the
-- same snapshot is not claimed and writes nothing.
pub start_schedule_run_once :
    (sc : Schedule) (run run' : ScheduleRun) (next_run next_run' : Option ℕ) (rows : List Schedule)
    → let rows' = (start_schedule_run sc run next_run rows).0 in
      ((start_schedule_run sc run' next_run' rows').1 ≡ false)
      × ((start_schedule_run sc run' next_run' rows').0 ≡ rows')
unfolding start_schedule_run
start_schedule_run_once sc run run' next_run next_run' rows =
    let g = claimed (started run sc.generation) next_run in
    let leaves = λ (r : Schedule) (e : idle_at sc.id sc.generation r ≡ true).
      not_idle sc.id sc.generation (g r) refl in
    (
      rw (update-count (idle_at sc.id sc.generation) g (λ r. r) leaves rows) refl,
      update-update (idle_at sc.id sc.generation) g _ leaves rows,
    )

-- The end of a run is recorded once: a second writer of the same generation records nothing.
pub finish_schedule_run_once :
    (id : ℕ) (run : ScheduleRun) (status status' : String) (rows : List Schedule)
    → let rows' = (finish_schedule_run id run status rows).0 in
      ((finish_schedule_run id run status' rows').1 ≡ false)
      × ((finish_schedule_run id run status' rows').0 ≡ rows')
unfolding finish_schedule_run
finish_schedule_run_once id run status status' rows =
    let g = closed run status in
    let leaves = λ (r : Schedule) (e : live_at id run.generation r ≡ true).
      not_live id run.generation (g r) refl in
    (
      rw (update-count (live_at id run.generation) g (λ r. r) leaves rows) refl,
      update-update (live_at id run.generation) g _ leaves rows,
    )

disabled-Over :
    (sc current r : Schedule) (g n : ℕ)
    → sc.enabled ≡ false
    → with_id sc.id r ≡ true
    → g ≤ current.generation
    → current.generation ≤ n
    → suc n < 18446744073709551616
    → Over sc.id g (suc n) (edit (edited current sc) r)
disabled-Over sc current r g n off hit behind bounded room =
    let bound : next_generation current.generation ≡ suc current.generation = omega arith in
    (ground (arith, off, bound), λ same. inl (ground (arith, off, bound)))

other-Over :
    (sc r : Schedule) (g n : ℕ)
    → with_id sc.id r ≡ false
    → r.generation ≤ n
    → Over sc.id g (suc n) r
other-Over sc r g n miss bounded = (omega arith, λ same. absurd (ground arith))

disable-Over :
    (sc current : Schedule) (g n : ℕ) (rows : List Schedule) {rows' : List Schedule}
    → update_schedule sc rows ≡ ok rows'
    → sc.enabled ≡ false
    → first (with_id sc.id) rows ≡ some current
    → g ≤ current.generation
    → All (λ r. r.generation ≤ n) rows
    → suc n < 18446744073709551616
    → All (Over sc.id g (suc n)) rows'
disable-Over sc current g n rows done off found behind bounded room =
    let (c, found', allowed, e) = update_schedule-eq sc rows done in
    let same : c ≡ current = cc in
    let (low, at) = first-All (λ r. r.generation ≤ n) (with_id sc.id) rows bounded found in
    rw e (
      update-All (λ r. r.generation ≤ n) (Over sc.id g (suc n)) (with_id sc.id) (edit (edited c sc))
        (λ r k hit. disabled-Over sc c r g n off hit (rw same behind) (rw same low) room)
        (λ r k miss. other-Over sc r g n miss k) rows bounded)

-- A schedule that is disabled has its run cancelled for good: whatever edits, runs and deletions
-- follow, as long as the generations stay below 2^64, the run is not active, and its writer saves nothing and
-- finishes nothing.
pub disable_cancels :
    (sc current : Schedule) (run : ScheduleRun) (status : String) (n : ℕ) (ws : List Write)
    (rows rows' : List Schedule)
    → update_schedule sc rows ≡ ok rows'
    → sc.enabled ≡ false
    → first (with_id sc.id) rows ≡ some current
    → run.generation ≤ current.generation
    → All (λ r. r.generation ≤ n) rows
    → suc n + length ws < 18446744073709551616
    → let after = apply_all ws rows' in
      (schedule_run_active sc.id run.generation after ≡ false)
      × ((save_schedule_run sc.id run after).1 ≡ false)
      × ((finish_schedule_run sc.id run status after).1 ≡ false)
disable_cancels sc current run status n ws rows rows' done off found behind bounded room =
    stale_stays_stale sc.id (suc n) run status ws rows' room
      (disable-Over sc current run.generation n rows done off found behind bounded (omega arith))
