-- ===== src/Schedules/Stale.antt =====
-- A run that was finished, cancelled or replaced stays so: no later write of any kind brings its
-- generation back.
use quetzal.Prelude.{
  Result-cases, ◌≡◌, ℕ, suc, String, Bool, true, false, not, ◌&&◌, Option, none, some, List, [],
  ◌∷◌, ◌+◌, ◌≤◌, ◌<◌, ◌⊎◌, first, update, delete, count, length, All, ok, commit, is_some, arith,
  Bool-cases, Option-cases, inl, inr, refl,
}
use native.Mathlib.Nat.{add-zero}
use quetzal.Models.Schedule.{Schedule, ScheduleRun, task_chain}
use quetzal.Schedules.{
  update_schedule, start_schedule_run, schedule_run_active, save_schedule_run, finish_schedule_run,
  set_schedule_next_run, delete_schedule, delete_schedules_for_server, with_id, edited, edit,
  idle_at, live_at, started, next_generation, same_tasks,
}

-- The writes to the rows that the table has, with an edit that is refused writing nothing. A
-- schedule that is created has an id and a row of its own.
pub data Write : Type 0 where
  edits : Schedule → Write
  starts : Schedule → ScheduleRun → Option ℕ → Write
  saves : ℕ → ScheduleRun → Write
  finishes : ℕ → ScheduleRun → String → Write
  plans : Schedule → Option ℕ → Write
  removes : ℕ → Write
  removes_all : ℕ → Write

unfoldable pub apply : Write → List Schedule → List Schedule
apply (edits sc) rows = commit rows (update_schedule sc rows)
apply (starts sc run next_run) rows = (start_schedule_run sc run next_run rows).0
apply (saves id run) rows = (save_schedule_run id run rows).0
apply (finishes id run status) rows = (finish_schedule_run id run status rows).0
apply (plans sc next_run) rows = set_schedule_next_run sc next_run rows
apply (removes id) rows = delete_schedule id rows
apply (removes_all server) rows = delete_schedules_for_server server rows

unfoldable pub apply_all : List Write → List Schedule → List Schedule
unfolding apply
apply_all [] rows = rows
apply_all (w ∷ ws) rows = apply_all ws (apply w rows)

-- The row is past generation `g`, or at it with no run, and below the bound `n`.
abbrev pub Over : ℕ → ℕ → ℕ → Schedule → Type 0
Over id g n r =
    (r.generation ≤ n) × (r.id ≡ id → (g < r.generation) ⊎ ((r.generation ≡ g) × (r.run ≡ none)))

pub update-All :
    (P Q : Schedule → Type 0) (p : Schedule → Bool) (f : Schedule → Schedule)
    → ((r : Schedule) → P r → p r ≡ true → Q (f r))
    → ((r : Schedule) → P r → p r ≡ false → Q r)
    → (rows : List Schedule) → All P rows
    → All Q (update p f rows)
update-All P Q p f hit miss [] h = tt
update-All P Q p f hit miss (r ∷ rows) (here, h) = elim (Bool-cases (p r)) [
  | inl e ↦ rw e (hit r here e, update-All P Q p f hit miss rows h)
  | inr e ↦ rw e (miss r here e, update-All P Q p f hit miss rows h)
]

delete-All :
    (P Q : Schedule → Type 0) (p : Schedule → Bool)
    → ((r : Schedule) → P r → Q r)
    → (rows : List Schedule) → All P rows
    → All Q (delete p rows)
delete-All P Q p weaken [] h = tt
delete-All P Q p weaken (r ∷ rows) (here, h) = elim (Bool-cases (p r)) [
  | inl e ↦ rw e (delete-All P Q p weaken rows h)
  | inr e ↦ rw e (weaken r here, delete-All P Q p weaken rows h)
]

pub first-All :
    (P : Schedule → Type 0) (p : Schedule → Bool) (rows : List Schedule) {r : Schedule}
    → All P rows
    → first p rows ≡ some r
    → P r × (p r ≡ true)
first-All P p [] h e = absurd (ground arith)
first-All P p (x ∷ rows) {r} (here, h) e = elim (Bool-cases (p x)) [
  | inl hit ↦ let same : r ≡ x = ground (arith, hit) in rw same (here, hit)
  | inr miss ↦ first-All P p rows h (rw miss at e)
]

-- An edit that is accepted: the schedule is known, and has no run or keeps its tasks.
pub update_schedule-eq :
    (sc : Schedule) (rows : List Schedule) {rows' : List Schedule}
    → update_schedule sc rows ≡ ok rows'
    → (current : Schedule) × (first (with_id sc.id) rows ≡ some current)
      × ((is_some current.run && not (same_tasks (task_chain current) (task_chain sc))) ≡ false)
      × (rows' ≡ update (with_id sc.id) (edit (edited current sc)) rows)
unfolding update_schedule
update_schedule-eq sc rows h = elim (Option-cases (first (with_id sc.id) rows)) [
  | inl missing ↦ absurd (ground (arith, missing))
  | inr (current, found) ↦
      elim (Bool-cases
        (is_some current.run && not (same_tasks (task_chain current) (task_chain sc)))) [
          | inl refused ↦ absurd (ground (arith, found, refused))
          | inr allowed ↦ (current, found, allowed, ground (arith, found, allowed))
        ]
]

module _ (id g n : ℕ) (room : suc n < 18446744073709551616) where
  next_bound : (r : Schedule) → r.generation ≤ n → next_generation r.generation ≡ suc r.generation
  next_bound r h = omega arith

  weaken : (r : Schedule) → Over id g n r → Over id g (suc n) r
  weaken r h = (omega (arith, h.0), h.1)

  All-weaken : (rows : List Schedule) → All (Over id g n) rows → All (Over id g (suc n)) rows
  All-weaken [] h = tt
  All-weaken (r ∷ rows) (k, h) = (weaken r k, All-weaken rows h)

  edit-Over :
      (current sc r : Schedule)
      → Over id g n current
      → with_id sc.id current ≡ true
      → with_id sc.id r ≡ true
      → Over id g (suc n) (edit (edited current sc) r)
  edit-Over current sc r h c e =
      let bound = next_bound current h.0 in
      elim (Bool-cases sc.enabled) [
        | inl on ↦ elim (Option-cases current.run) [
          | inl idle ↦
              (ground (arith, on, idle, bound, h.0), λ k. ground (arith, on, idle, bound, h.1))
          | inr (u, busy) ↦ (ground (arith, on, busy, h.0), λ k. ground (arith, on, busy, h.1))
        ]
        | inr off ↦ (ground (arith, off, bound, h.0), λ k. ground (arith, off, bound, h.1))
      ]

  start-Over :
      (sc : Schedule) (run : ScheduleRun) (next_run : Option ℕ) (r : Schedule)
      → Over id g n r
      → idle_at sc.id sc.generation r ≡ true
      → Over id g (suc n) (record r {
        run = some (started run sc.generation);
        generation = (started run sc.generation).generation;
        next_run = next_run;
      })
  start-Over sc run next_run r h e =
      let same : r.generation ≡ sc.generation = ground arith in
      let bound : next_generation sc.generation ≡ suc sc.generation = omega (arith, h.0) in
      (ground (arith, bound, same, h.0), λ k. inl (ground (arith, bound, same, h.1 k)))

  edits-Over :
      (sc : Schedule) (rows : List Schedule)
      → All (Over id g n) rows
      → All (Over id g (suc n)) (commit rows (update_schedule sc rows))
  edits-Over sc rows h = elim (Result-cases (update_schedule sc rows)) [
    | inl (rows', done) ↦
        let (current, found, allowed, e) = update_schedule-eq sc rows done in
        let (over, at) = first-All (Over id g n) (with_id sc.id) rows h found in
        rw (done, commit)
          (rw e (
            update-All (Over id g n) (Over id g (suc n)) (with_id sc.id) (edit (edited current sc))
              (λ r k hit. edit-Over current sc r over at hit) (λ r k miss. weaken r k) rows h))
    | inr (e, refused) ↦ rw (refused, commit) (All-weaken rows h)
  ]

  -- One write keeps a generation over, with one more added to the bound.
  apply-Over :
      (w : Write) (rows : List Schedule)
      → All (Over id g n) rows
      → All (Over id g (suc n)) (apply w rows)
  unfolding apply start_schedule_run save_schedule_run finish_schedule_run set_schedule_next_run
      delete_schedule delete_schedules_for_server
  apply-Over (edits sc) rows h = edits-Over sc rows h
  apply-Over (starts sc run next_run) rows h =
      update-All (Over id g n) (Over id g (suc n)) (idle_at sc.id sc.generation) _
        (λ r k e. start-Over sc run next_run r k e) (λ r k e. weaken r k) rows h
  apply-Over (saves i run) rows h =
      update-All (Over id g n) (Over id g (suc n)) (live_at i run.generation) _
        (λ r k e. (omega (arith, k.0), λ same. ground (arith, k.1 same, e))) (λ r k e. weaken r k)
        rows h
  apply-Over (finishes i run status) rows h =
      update-All (Over id g n) (Over id g (suc n)) (live_at i run.generation) _
        (λ r k e. (omega (arith, k.0), λ same. ground (arith, k.1 same, e))) (λ r k e. weaken r k)
        rows h
  apply-Over (plans sc next_run) rows h =
      update-All (Over id g n) (Over id g (suc n)) (idle_at sc.id sc.generation) _
        (λ r k e. weaken r k) (λ r k e. weaken r k) rows h
  apply-Over (removes i) rows h = delete-All (Over id g n) (Over id g (suc n)) _ weaken rows h
  apply-Over (removes_all server) rows h =
      delete-All (Over id g n) (Over id g (suc n)) _ weaken rows h

-- A generation that is over is not active.
Over-live_at :
    (id g n : ℕ) (rows : List Schedule) → All (Over id g n) rows → count (live_at id g) rows ≡ 0
Over-live_at id g n [] h = refl
Over-live_at id g n (r ∷ rows) (here, h) =
    let later = Over-live_at id g n rows h in
    elim (Bool-cases (live_at id g r)) [
      | inr dead ↦ ground (arith, dead, later)
      | inl live ↦ absurd (ground (arith, live, here.1 (ground arith)))
    ]

apply_all-Over :
    (id g n : ℕ) (ws : List Write) (rows : List Schedule)
    → n + length ws < 18446744073709551616
    → All (Over id g n) rows
    → All (Over id g (n + length ws)) (apply_all ws rows)
unfolding apply_all
apply_all-Over id g n [] rows room h = rw add-zero h
apply_all-Over id g n (w ∷ ws) rows room h =
    let e : n + suc (length ws) ≡ suc n + length ws = omega arith in
    rw e (
      apply_all-Over id g (suc n) ws (apply w rows) (omega arith)
        (apply-Over id g n (omega arith) w rows h))

-- Once a generation of a schedule is over -- its row is past it, or has no run -- then after any
-- edits, new runs, saves, ends and deletions, as long as the generations stay below 2^64: it is not
-- active, and a writer that still holds it saves nothing and finishes nothing.
pub stale_stays_stale :
    (id n : ℕ) (run : ScheduleRun) (status : String) (ws : List Write) (rows : List Schedule)
    → n + length ws < 18446744073709551616
    → All (Over id run.generation n) rows
    → let rows' = apply_all ws rows in
      (schedule_run_active id run.generation rows' ≡ false)
      × ((save_schedule_run id run rows').1 ≡ false)
      × ((finish_schedule_run id run status rows').1 ≡ false)
unfolding schedule_run_active save_schedule_run finish_schedule_run
stale_stays_stale id n run status ws rows room h =
    let over = apply_all-Over id run.generation n ws rows room h in
    let none_live = Over-live_at id run.generation (n + length ws) (apply_all ws rows) over in
    (rw none_live refl, rw none_live refl, rw none_live refl)
