-- ===== src/Scheduler/Finish.antt =====
-- A chain comes to its end.
use quetzal.Prelude.{
  ℕ, zero, suc, String, Bool, true, false, not, ◌&&◌, Option, none, some, List, [], ◌∷◌, ◌+◌, ◌-◌,
  ◌≡◌, ◌≤◌, if◌then◌else◌, ltb, length, get_elem?, arith, refl, subst, sym, All, ◌*◌, ◌==◌, str_eq,
  is_some,
}
use quetzal.Models.Server.{Server, DesiredState, is_state}
use quetzal.Models.Schedule.{Schedule, ScheduleTask, ScheduleRun, task_chain}
use quetzal.Scheduler.Chain.{
  Turn, Effect, Verdict, waited, awaited, backup_requested, run_task, starts_server, once_judged,
  backup_poll, Chained, RunEnd, Look, there, gone, unread, with_effects, or_end, verdict, on_server,
  delay, chain, map_end, run_tasks, run_chain, resume_limit,
}
use quetzal.Scheduler.Await.{await_backup-Ends}
use quetzal.Scheduler.Order.{Maybe, judges, verdict-Maybe}

-- A result that is there.
data Returned {A : Type 0} : Option A → Type 0 where
  returned : {a : A} → Returned (some a)

the_result : {A : Type 0} {o : Option A} → Returned o → (a : A) × (o ≡ some a)
the_result {A = A} {o = none} r = elim r [ ]
the_result {o = some a} returned = (a, refl)

if_some :
    {A : Type 0} (b : Bool) {x y : Option A}
    → Returned x
    → Returned y
    → Returned (if b then x else y)
if_some true h k = h
if_some false h k = k

with_effects-some :
    (effects : List Effect) (o : Option Chained) → Returned o → Returned (with_effects effects o)
with_effects-some effects none r = elim r [ ]
with_effects-some effects (some c) returned = returned

get_elem?-none : (tasks : List ScheduleTask) (i : ℕ) → length tasks ≤ i → get_elem? tasks i ≡ none
get_elem?-none [] i h = refl
get_elem?-none (x ∷ xs) zero h = absurd (omega (arith, h))
get_elem?-none (x ∷ xs) (suc i) h = get_elem?-none xs i (omega (arith, h))

-- The clock of a turn's wait moves on by five seconds with each of its rounds.
abbrev pub IsClocked : Turn → Type 0
IsClocked turn = (i : ℕ) → turn.wait_from + i * backup_poll ≤ (turn.polls i).now

waited-some :
    (o : Option (Option String)) (effects : List Effect) (run : ScheduleRun)
    → Returned o
    → Returned (waited o effects run)
waited-some none effects run r = elim r [ ]
waited-some (some e) effects run r = returned

module _ (turn : Turn) (clocked : IsClocked turn) where
  awaited-some : Returned (awaited turn)
  awaited-some =
      let (r, e) = await_backup-Ends turn.polls turn.wait_from clocked in
      subst Returned (sym e) returned

  requested-some :
      (e : Option String) (effects : List Effect) (run : ScheduleRun)
      → Returned (backup_requested turn e effects run)
  requested-some (some e) effects run = returned
  requested-some none effects run =
      waited-some _ effects _ (if_some turn.checkpoint awaited-some returned)

  verdict-some :
      (srv : Server) (t : ScheduleTask) (run : ScheduleRun) → Returned (verdict srv t turn run)
  unfolding run_task
  verdict-some srv t run =
      if_some (str_eq t.action "backup" && not (run.backup == 0))
        (waited-some _ [] run awaited-some)
        (if_some (is_state srv.desired_state DesiredState.suspended) returned (
          if_some (starts_server t.action && is_some srv.transfer) returned (
            if_some (str_eq t.action "start") returned (
              if_some (str_eq t.action "stop") returned (
                if_some (str_eq t.action "restart") returned (
                  if_some (str_eq t.action "command") returned (
                    if_some (str_eq t.action "backup") (requested-some turn.failure _ run)
                      returned)))))))

once_judged-some :
    (tasks : List ScheduleTask) (t : ScheduleTask) (turn : Turn) (text : String) (i : ℕ)
    (o : Option Verdict) (later : ScheduleRun → Option Chained)
    → Returned o
    → Maybe tasks i o
    → ((run' : ScheduleRun) → run'.next ≡ suc i → Returned (later run'))
    → Returned (once_judged tasks t turn text o later)
once_judged-some tasks t turn text i none later r h rest = elim r [ ]
once_judged-some tasks t turn text i (some v) later r (judges h) rest =
    if_some (not v.succeeded && turn.stopping) returned (
      if_some (not v.succeeded && not t.continue_on_failure) returned (
        if_some (not turn.saved) returned
          (with_effects-some v.effects _ (rest _ (omega (arith, h.same))))))

on_server-some :
    (o : Option Server) (tasks : List ScheduleTask) (t : ScheduleTask) (turn : Turn) (text : String)
    (run : ScheduleRun) (later : ScheduleRun → Option Chained)
    → IsClocked turn
    → get_elem? tasks run.next ≡ some t
    → ((run' : ScheduleRun) → run'.next ≡ suc run.next → Returned (later run'))
    → Returned (on_server o tasks t turn text run later)
on_server-some none tasks t turn text run later clocked task rest = returned
on_server-some (some srv) tasks t turn text run later clocked task rest =
    once_judged-some tasks t turn text run.next (verdict srv t turn run) later
      (verdict-some turn clocked srv t run) (verdict-Maybe tasks srv t turn run task) rest

or_end-some :
    (o : Option ScheduleTask) (run : ScheduleRun) (body : ScheduleTask → Option Chained)
    → ((t : ScheduleTask) → o ≡ some t → Returned (body t))
    → Returned (or_end o run body)
or_end-some none run body h = returned
or_end-some (some t) run body h = h t refl

chain-some :
    (label : ℕ → String → String) (turns : List Turn) (carried : Bool) (tasks : List ScheduleTask)
    (run : ScheduleRun)
    → length tasks ≤ run.next + length turns
    → All IsClocked turns
    → Returned (chain label turns carried tasks run)
unfolding chain
chain-some label [] carried tasks run enough clocked =
    subst (λ o. Returned (or_end o run (λ t. none)))
      (sym (get_elem?-none tasks run.next (omega (arith, enough)))) returned
chain-some label (turn ∷ turns) carried tasks run enough (clock, clocked) =
    or_end-some (get_elem? tasks run.next) run _ (λ t task.
      if_some (ltb 0 (delay carried t turn run) && not turn.slept) returned (
        if_some (not turn.active) returned (
          on_server-some turn.server tasks t turn _ run (λ run'. chain label turns false tasks run')
            clock task
            (λ run' next.
              chain-some label turns false tasks run' (omega (arith, enough, next)) clocked))))

map_end-some : (resumed : Bool) (o : Option Chained) → Returned o → Returned (map_end resumed o)
map_end-some resumed none r = elim r [ ]
map_end-some resumed (some c) returned = returned

tasks-some :
    (label : ℕ → String → String) (printed : ℕ → String) (turns : List Turn) (now : ℕ)
    (resumed : Bool) (tasks : List ScheduleTask) (run : ScheduleRun)
    → length tasks ≤ run.next + length turns
    → All IsClocked turns
    → Returned (run_tasks label printed turns now resumed tasks run)
unfolding run_tasks
tasks-some label printed turns now resumed [] run enough clocked = returned
tasks-some label printed turns now resumed (t ∷ ts) run enough clocked =
    if_some (resumed && ltb resume_limit (now - run.due)) returned
      (map_end-some resumed _ (chain-some label turns resumed (t ∷ ts) run enough clocked))

chain_of-some :
    (label : ℕ → String → String) (printed : ℕ → String) (look : Look Server) (turns : List Turn)
    (now : ℕ) (resumed : Bool) (sc : Schedule) (run : ScheduleRun)
    → length (task_chain sc) ≤ run.next + length turns
    → All IsClocked turns
    → Returned (run_chain label printed look turns now resumed sc run)
unfolding run_chain
chain_of-some label printed gone turns now resumed sc run enough clocked = returned
chain_of-some label printed (unread e) turns now resumed sc run enough clocked = returned
chain_of-some label printed (there srv) turns now resumed sc run enough clocked =
    tasks-some label printed turns now resumed (task_chain sc) run enough clocked

-- A run of a chain comes to its end within a turn for each task that it has left, whatever the turns
-- bring, where the clock of each wait for a backup moves on by five seconds with each round.
pub run_chain-some :
    (label : ℕ → String → String) (printed : ℕ → String) (look : Look Server) (turns : List Turn)
    (now : ℕ) (resumed : Bool) (sc : Schedule) (run : ScheduleRun)
    → length (task_chain sc) ≤ run.next + length turns
    → All IsClocked turns
    → (end : RunEnd) × (run_chain label printed look turns now resumed sc run ≡ some end)
run_chain-some label printed look turns now resumed sc run enough clocked =
    the_result (chain_of-some label printed look turns now resumed sc run enough clocked)
