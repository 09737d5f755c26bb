-- ===== src/Scheduler/Order.antt =====
-- The side effects of a chain: in the order of its tasks, each at most once, on servers that allow it.
use quetzal.Prelude.{
  ℕ, zero, suc, String, Bool, true, false, not, ◌&&◌, Option, none, some, List, [], ◌∷◌, ◌++◌, ◌==◌,
  ◌≡◌, ◌≤◌, ◌<◌, if◌then◌else◌, ltb, ◌-◌, length, get_elem?, is_some, str_eq, eq_iff, arith, refl,
  subst, ap, ◌∙◌,
}
use quetzal.Models.Server.{Server, DesiredState, is_state}
use quetzal.Models.Schedule.{Schedule, ScheduleTask, ScheduleRun, task_chain}
use quetzal.Scheduler.Chain.{
  Turn, Effect, Verdict, Chained, RunEnd, Look, there, gone, unread, result, without_effect,
  awaited, waited, backup_requested, starts_server, called, Call, start, stop, restart, backup,
  command, on_action, run_task, with_effects, judged, once_judged, or_end, verdict, on_server,
  delay, chain, map_end, run_tasks, run_chain, resume_limit,
}

-- A call is what a task says: its action and, for a command, its payload.
pub data Asks (t : ScheduleTask) : Call → Type 0 where
  asks_start : t.action ≡ "start" → Asks t start
  asks_stop : t.action ≡ "stop" → Asks t stop
  asks_restart : t.action ≡ "restart" → Asks t restart
  asks_command : t.action ≡ "command" → Asks t (command t.payload)
  asks_backup : t.action ≡ "backup" → Asks t backup

-- A call that starts a game.
abbrev pub boots : Call → Bool
boots start = true
boots restart = true
boots stop = false
boots backup = false
boots (command line) = false

-- What may be done to a server: nothing while it is suspended, and no start in a transfer.
abbrev pub is_allowed : Effect → Bool
is_allowed e =
    not (is_state e.server.desired_state DesiredState.suspended)
    && not (boots e.call && is_some e.server.transfer)

-- The task of that index asks for the call.
abbrev pub OfTask : List ScheduleTask → Effect → Type 0
OfTask tasks e = (t : ScheduleTask) × (get_elem? tasks e.index ≡ some t) × Asks t e.call

-- Effects of tasks from `lo` on and below `hi`, one after the other, each asked for by its task, all
-- allowed.
abbrev pub Served : List ScheduleTask → ℕ → ℕ → List Effect → Type 0
Served tasks lo hi [] = Unit
Served tasks lo hi (e ∷ es) =
    (lo ≤ e.index)
    × (e.index < hi)
    × (is_allowed e ≡ true)
    × OfTask tasks e
    × Served tasks (suc e.index) hi es

Served-append :
    (tasks : List ScheduleTask) (lo mid hi : ℕ) (xs ys : List Effect)
    → lo ≤ mid
    → mid ≤ hi
    → Served tasks lo mid xs
    → Served tasks mid hi ys
    → Served tasks lo hi (xs ++ ys)
Served-append tasks lo mid hi [] [] a b h k = tt
Served-append tasks lo mid hi [] (y ∷ ys) a b h (low, high, fits, own, k) =
    (omega (arith, low, a), high, fits, own, k)
Served-append tasks lo mid hi (x ∷ xs) ys a b (low, high, fits, own, h) k = (
  low,
  omega (arith, high, b),
  fits,
  own,
  Served-append tasks (suc x.index) mid hi xs ys (omega (arith, high)) b h k,
)

-- A verdict on the task at `i`: the run is still there, and what was asked for is that task's.
pub record Judged (tasks : List ScheduleTask) (i : ℕ) (v : Verdict) : Type 0 where
  pub same : v.run.next ≡ i
  pub served : Served tasks i (suc i) v.effects

-- The same, unless a wait is not over.
pub data Maybe (tasks : List ScheduleTask) (i : ℕ) : Option Verdict → Type 0 where
  waits : Maybe tasks i none
  judges : {v : Verdict} → Judged tasks i v → Maybe tasks i (some v)

result-Judged :
    (tasks : List ScheduleTask) (i : ℕ) (e : Option String) (effects : List Effect)
    (run : ScheduleRun)
    → run.next ≡ i
    → Served tasks i (suc i) effects
    → Judged tasks i (result e effects run)
result-Judged tasks i none effects run same h = record { same = same; served = h }
result-Judged tasks i (some e) effects run same h = record { same = same; served = h }

if_Maybe :
    (tasks : List ScheduleTask) (i : ℕ) (b : Bool) {v v' : Option Verdict}
    → (b ≡ true → Maybe tasks i v)
    → (b ≡ false → Maybe tasks i v')
    → Maybe tasks i (if b then v else v')
if_Maybe tasks i true h k = h refl
if_Maybe tasks i false h k = k refl

waited-Maybe :
    (tasks : List ScheduleTask) (i : ℕ) (o : Option (Option String)) (effects : List Effect)
    (run : ScheduleRun)
    → run.next ≡ i
    → Served tasks i (suc i) effects
    → Maybe tasks i (waited o effects run)
waited-Maybe tasks i none effects run same h = waits
waited-Maybe tasks i (some e) effects run same h =
    judges (result-Judged tasks i e effects run same h)

requested-Maybe :
    (tasks : List ScheduleTask) (i : ℕ) (turn : Turn) (e : Option String) (effects : List Effect)
    (run : ScheduleRun)
    → run.next ≡ i
    → Served tasks i (suc i) effects
    → Maybe tasks i (backup_requested turn e effects run)
requested-Maybe tasks i turn (some e) effects run same h =
    judges (result-Judged tasks i (some e) effects run same h)
requested-Maybe tasks i turn none effects run same h = waited-Maybe tasks i _ effects _ same h

module _ (tasks : List ScheduleTask) (srv : Server) (t : ScheduleTask) (turn : Turn)
    (run : ScheduleRun) (task : get_elem? tasks run.next ≡ some t) where
  skipped :
      (b : Bool) (message : String) → Maybe tasks run.next (some (without_effect b message run))
  skipped b message = judges (record { same = refl; served = tt })

  own :
      (call : Call)
      → is_allowed (record { index = run.next; server = srv; call = call }) ≡ true
      → Asks t call
      → Served tasks run.next (suc run.next) (called run.next srv call)
  own call fits asks = (omega arith, omega arith, fits, (t, task, asks), tt)

  done :
      (call : Call)
      → is_allowed (record { index = run.next; server = srv; call = call }) ≡ true
      → Asks t call
      → Maybe tasks run.next (some (result turn.failure (called run.next srv call) run))
  done call fits asks =
      judges (result-Judged tasks run.next turn.failure _ run refl (own call fits asks))

  on_action-Maybe :
      is_state srv.desired_state DesiredState.suspended ≡ false
      → (starts_server t.action && is_some srv.transfer) ≡ false
      → Maybe tasks run.next (on_action srv t run.next turn run)
  on_action-Maybe awake free =
      if_Maybe tasks run.next (str_eq t.action "start")
        (λ e.
          done start (ground (arith, awake, free, e)) (asks_start ((eq_iff t.action "start").0 e)))
        (λ a.
          if_Maybe tasks run.next (str_eq t.action "stop")
            (λ e. done stop (ground (arith, awake)) (asks_stop ((eq_iff t.action "stop").0 e)))
            (λ b.
              if_Maybe tasks run.next (str_eq t.action "restart")
                (λ e.
                  done restart (ground (arith, awake, free, e))
                    (asks_restart ((eq_iff t.action "restart").0 e)))
                (λ c.
                  if_Maybe tasks run.next (str_eq t.action "command")
                    (λ e.
                      done (command t.payload) (ground (arith, awake))
                        (asks_command ((eq_iff t.action "command").0 e)))
                    (λ d.
                      if_Maybe tasks run.next (str_eq t.action "backup")
                        (λ e. requested-Maybe tasks run.next turn turn.failure _ run refl (
                          own backup (ground (arith, awake))
                            (asks_backup ((eq_iff t.action "backup").0 e))))
                        (λ e. skipped false _)))))

  run_task-Maybe : Maybe tasks run.next (run_task srv t run.next turn run)
  unfolding run_task
  run_task-Maybe =
      if_Maybe tasks run.next (is_state srv.desired_state DesiredState.suspended)
        (λ e. skipped true _)
        (λ awake.
          if_Maybe tasks run.next (starts_server t.action && is_some srv.transfer)
            (λ e. skipped false _) (λ free. on_action-Maybe awake free))

  pub verdict-Maybe : Maybe tasks run.next (verdict srv t turn run)
  verdict-Maybe =
      if_Maybe tasks run.next (str_eq t.action "backup" && not (run.backup == 0))
        (λ e. waited-Maybe tasks run.next (awaited turn) [] run refl tt) (λ e. run_task-Maybe)

-- A chain that is over has served tasks from `lo` on.
data Over (tasks : List ScheduleTask) (lo hi : ℕ) : Option Chained → Type 0 where
  waiting : Over tasks lo hi none
  over : {c : Chained} → Served tasks lo hi c.effects → Over tasks lo hi (some c)

if_Over :
    {tasks : List ScheduleTask} {lo hi : ℕ} (b : Bool) {x y : Option Chained}
    → Over tasks lo hi x
    → Over tasks lo hi y
    → Over tasks lo hi (if b then x else y)
if_Over true h k = h
if_Over false h k = k

with_effects-Over :
    (tasks : List ScheduleTask) (lo mid hi : ℕ) (effects : List Effect) (o : Option Chained)
    → lo ≤ mid
    → mid ≤ hi
    → Served tasks lo mid effects
    → Over tasks mid hi o
    → Over tasks lo hi (with_effects effects o)
with_effects-Over tasks lo mid hi effects none a b h k = waiting
with_effects-Over tasks lo mid hi effects (some c) a b h (over k) =
    over (Served-append tasks lo mid hi effects c.effects a b h k)

wider :
    (tasks : List ScheduleTask) (lo mid hi : ℕ) (xs : List Effect)
    → mid ≤ hi
    → Served tasks lo mid xs
    → Served tasks lo hi xs
wider tasks lo mid hi [] b h = tt
wider tasks lo mid hi (x ∷ xs) b (low, high, fits, own, h) =
    (low, omega (arith, high, b), fits, own, wider tasks (suc x.index) mid hi xs b h)

module _ (tasks : List ScheduleTask) (t : ScheduleTask) (turn : Turn) (text : String) (i : ℕ)
    (inside : i < length tasks) (task : get_elem? tasks i ≡ some t)
    (later : ScheduleRun → Option Chained)
    (rest : (run : ScheduleRun)
      → run.next ≡ suc i
      → Over tasks (suc i) (length tasks) (later run)) where
  judged-Over :
      (v : Verdict)
      → Judged tasks i v
      → Over tasks i (length tasks) (judged tasks t turn text v later)
  judged-Over v h =
      let now = wider tasks i (suc i) (length tasks) v.effects (omega (arith, inside)) h.served in
      if_Over (not v.succeeded && turn.stopping) (over now) (
        if_Over (not v.succeeded && not t.continue_on_failure) (over now) (
          if_Over (not turn.saved) (over now) (
            with_effects-Over tasks i (suc i) (length tasks) v.effects _ (omega arith)
              (omega (arith, inside)) h.served (rest _ (omega (arith, h.same))))))

  once_judged-Over :
      (o : Option Verdict)
      → Maybe tasks i o
      → Over tasks i (length tasks) (once_judged tasks t turn text o later)
  once_judged-Over none h = waiting
  once_judged-Over (some v) (judges h) = judged-Over v h

  on_server-Over :
      (o : Option Server) (run : ScheduleRun)
      → run.next ≡ i
      → Over tasks i (length tasks) (on_server o tasks t turn text run later)
  on_server-Over none run same = over tt
  on_server-Over (some srv) run same = once_judged-Over (verdict srv t turn run) (
      subst (λ n. Maybe tasks n (verdict srv t turn run)) same
        (verdict-Maybe tasks srv t turn run (ap (get_elem? tasks) same ∙ task)))

get_elem?-lt :
    (tasks : List ScheduleTask) (i : ℕ) {t : ScheduleTask}
    → get_elem? tasks i ≡ some t
    → i < length tasks
get_elem?-lt [] i h = cc
get_elem?-lt (x ∷ xs) zero h = omega arith
get_elem?-lt (x ∷ xs) (suc i) h = omega (arith, get_elem?-lt xs i h)

or_end-Over :
    (tasks : List ScheduleTask) (lo hi : ℕ) (o : Option ScheduleTask) (run : ScheduleRun)
    (body : ScheduleTask → Option Chained)
    → ((t : ScheduleTask) → o ≡ some t → Over tasks lo hi (body t))
    → Over tasks lo hi (or_end o run body)
or_end-Over tasks lo hi none run body h = over tt
or_end-Over tasks lo hi (some t) run body h = h t refl

chain-Over :
    (label : ℕ → String → String) (turns : List Turn) (carried : Bool) (tasks : List ScheduleTask)
    (run : ScheduleRun)
    → Over tasks run.next (length tasks) (chain label turns carried tasks run)
unfolding chain
chain-Over label [] carried tasks run =
    or_end-Over tasks run.next (length tasks) (get_elem? tasks run.next) run _ (λ t e. waiting)
chain-Over label (turn ∷ turns) carried tasks run =
    or_end-Over tasks run.next (length tasks) (get_elem? tasks run.next) run _ (λ t e.
      if_Over (ltb 0 (delay carried t turn run) && not turn.slept) (over tt) (
        if_Over (not turn.active) (over tt) (
          on_server-Over tasks t turn _ run.next (get_elem?-lt tasks run.next e) e
            (λ run'. chain label turns false tasks run')
            (λ run' next.
              subst (λ n. Over tasks n (length tasks) (chain label turns false tasks run')) next
                (chain-Over label turns false tasks run'))
            turn.server run refl)))

-- The same of the end of a chain's run.
data Done (tasks : List ScheduleTask) (lo hi : ℕ) : Option RunEnd → Type 0 where
  unfinished : Done tasks lo hi none
  over_with : {r : RunEnd} → Served tasks lo hi r.effects → Done tasks lo hi (some r)

Done-Served :
    (tasks : List ScheduleTask) (lo hi : ℕ) {r : RunEnd}
    → Done tasks lo hi (some r)
    → Served tasks lo hi r.effects
Done-Served tasks lo hi (over_with h) = h

if_Done :
    {tasks : List ScheduleTask} {lo hi : ℕ} (b : Bool) {x y : Option RunEnd}
    → Done tasks lo hi x
    → Done tasks lo hi y
    → Done tasks lo hi (if b then x else y)
if_Done true h k = h
if_Done false h k = k

map_end-Done :
    (tasks : List ScheduleTask) (lo hi : ℕ) (resumed : Bool) (o : Option Chained)
    → Over tasks lo hi o
    → Done tasks lo hi (map_end resumed o)
map_end-Done tasks lo hi resumed none h = unfinished
map_end-Done tasks lo hi resumed (some c) (over h) = over_with h

module _ (label : ℕ → String → String) (printed : ℕ → String) (turns : List Turn) (now : ℕ)
    (resumed : Bool) where
  tasks-Done :
      (tasks : List ScheduleTask) (run : ScheduleRun)
      → Done tasks run.next (length tasks) (run_tasks label printed turns now resumed tasks run)
  unfolding run_tasks
  tasks-Done [] run = over_with tt
  tasks-Done (t ∷ ts) run = if_Done (resumed && ltb resume_limit (now - run.due)) (over_with tt) (
      map_end-Done (t ∷ ts) run.next (length (t ∷ ts)) resumed _
        (chain-Over label turns resumed (t ∷ ts) run))

  chain-Done :
      (look : Look Server) (sc : Schedule) (run : ScheduleRun)
      → Done
          (task_chain sc)
          run.next
          (length (task_chain sc))
          (run_chain label printed look turns now resumed sc run)
  unfolding run_chain
  chain-Done gone sc run = over_with tt
  chain-Done (unread e) sc run = over_with tt
  chain-Done (there srv) sc run = tasks-Done (task_chain sc) run

  -- The side effects that a run of a chain asks for are calls that its tasks ask for, from the task
  -- that the run says on: a start, a stop, a restart or a backup for a task with that action, a
  -- command with the task's payload. They are in the order of the tasks, at most one for each; none
  -- is on a suspended server, and none starts a server that is in transfer.
  pub run_chain-Served :
      (look : Look Server) (sc : Schedule) (run : ScheduleRun) (end : RunEnd)
      → run_chain label printed look turns now resumed sc run ≡ some end
      → Served (task_chain sc) run.next (length (task_chain sc)) end.effects
  run_chain-Served look sc run end e =
      Done-Served (task_chain sc) run.next (length (task_chain sc)) (
        subst (λ o. Done (task_chain sc) run.next (length (task_chain sc)) o) e
          (chain-Done look sc run))
