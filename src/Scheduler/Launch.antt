-- ===== src/Scheduler/Launch.antt =====
-- What a tick launches runs once, here and in the table.
use quetzal.Prelude.{
  ℕ, Bool, true, false, Option, none, some, List, [], ◌∷◌, ◌==◌, ◌≡◌, ◌≢◌, if◌then◌else◌, ltb,
  select, delete, All, arith, Bool-cases, inl, inr, refl, String, subst, sym,
}
use quetzal.Models.Schedule.{Schedule, ScheduleRun}
use quetzal.Schedules.{start_schedule_run}
use quetzal.Scheduler.{
  State, Launched, acquire, release, is_inflight, launch, claim, fire, carry_on, plan, when_due,
  tick_idle, tick_run, tick_one, tick_all, tick, new_run,
}

-- The chains that are launched are marked, and no two are of one schedule.
abbrev pub NotOf : ℕ → List Launched → Type 0
NotOf id ls = All (λ l. l.schedule.id ≢ id) ls

abbrev pub Apart : List Launched → Type 0
Apart [] = Unit
Apart (l ∷ ls) = NotOf l.schedule.id ls × Apart ls

-- Since `ids` ran here: they still do, and what was launched is marked, apart, and was not running.
pub record IsSingle (ids : List ℕ) (st : State) : Type 0 where
  pub kept : (i : ℕ) → is_inflight i ids ≡ true → is_inflight i st.inflight ≡ true
  pub marked : All (λ l. is_inflight l.schedule.id st.inflight ≡ true) st.launched
  pub apart : Apart st.launched
  pub fresh : All (λ l. is_inflight l.schedule.id ids ≡ false) st.launched

NotOf-fresh :
    (id : ℕ) (ids : List ℕ) (ls : List Launched)
    → All (λ l. is_inflight l.schedule.id ids ≡ true) ls
    → is_inflight id ids ≡ false
    → NotOf id ls
NotOf-fresh id ids [] h fresh = tt
NotOf-fresh id ids (l ∷ ls) (here, h) fresh =
    ((λ e. let k = rw e at here in cc), NotOf-fresh id ids ls h fresh)

more_marked :
    (id : ℕ) (ids : List ℕ) (ls : List Launched)
    → All (λ l. is_inflight l.schedule.id ids ≡ true) ls
    → All (λ l. is_inflight l.schedule.id (id ∷ ids) ≡ true) ls
more_marked id ids [] h = tt
more_marked id ids (l ∷ ls) (here, h) = (ground (arith, here), more_marked id ids ls h)

inflight-delete :
    (i id : ℕ) (ids : List ℕ)
    → is_inflight id ids ≡ false
    → is_inflight i ids ≡ true
    → is_inflight i (delete (λ j. j == id) ids) ≡ true
inflight-delete i id [] away on = cc
inflight-delete i id (j ∷ ids) away on = elim (Bool-cases (j == id)) [
  | inl same ↦ absurd (ground (arith, same, away))
  | inr other ↦ elim (Bool-cases (j == i)) [
    | inl here ↦ ground (arith, other, here)
    | inr there ↦ ground (
      arith,
      other,
      there,
      inflight-delete i id ids (ground (arith, other, away)) (ground (arith, there, on)),
    )
  ]
]

-- A mark that was taken and is given back leaves the others.
given_back :
    (i id : ℕ) (ids : List ℕ)
    → is_inflight id ids ≡ false
    → is_inflight i ids ≡ true
    → is_inflight i (delete (λ j. j == id) (id ∷ ids)) ≡ true
given_back i id ids away on = ground (arith, inflight-delete i id ids away on)

given_back-marked :
    (id : ℕ) (ids : List ℕ) (ls : List Launched)
    → is_inflight id ids ≡ false
    → All (λ l. is_inflight l.schedule.id ids ≡ true) ls
    → All (λ l. is_inflight l.schedule.id (delete (λ j. j == id) (id ∷ ids)) ≡ true) ls
given_back-marked id ids [] away h = tt
given_back-marked id ids (l ∷ ls) away (here, h) =
    (given_back l.schedule.id id ids away here, given_back-marked id ids ls away h)

not_before :
    (ids : List ℕ) (st : State) (id : ℕ)
    → IsSingle ids st
    → is_inflight id st.inflight ≡ false
    → is_inflight id ids ≡ false
not_before ids st id single away = elim (Bool-cases (is_inflight id ids)) [
  | inl on ↦ let k = single.kept id on in cc
  | inr off ↦ off
]

module _ (ids : List ℕ) (st : State) (single : IsSingle ids st) where
  launch-IsSingle :
      (sc : Schedule) (run : ScheduleRun) (resumed : Bool) (rows : List Schedule)
      → is_inflight sc.id st.inflight ≡ false
      → IsSingle ids
          (launch sc run resumed (record st { inflight = sc.id ∷ st.inflight; rows = rows }))
  launch-IsSingle sc run resumed rows away = record {
    kept = λ i on. ground (arith, single.kept i on);
    marked = (ground arith, more_marked sc.id st.inflight st.launched single.marked);
    apart = (NotOf-fresh sc.id st.inflight st.launched single.marked away, single.apart);
    fresh = (not_before ids st sc.id single away, single.fresh);
  }

  rows-IsSingle : (rows : List Schedule) → IsSingle ids (record st { rows = rows })
  rows-IsSingle rows = record {
    kept = single.kept;
    marked = single.marked;
    apart = single.apart;
    fresh = single.fresh;
  }

  back-IsSingle :
      (id : ℕ) (rows : List Schedule)
      → is_inflight id st.inflight ≡ false
      → IsSingle ids (release id (record st { inflight = id ∷ st.inflight; rows = rows }))
  unfolding release
  back-IsSingle id rows away = record {
    kept = λ i on. given_back i id st.inflight away (single.kept i on);
    marked = given_back-marked id st.inflight st.launched away single.marked;
    apart = single.apart;
    fresh = single.fresh;
  }

  claim-IsSingle :
      (sc : Schedule) (r : List Schedule × Bool × ScheduleRun)
      → is_inflight sc.id st.inflight ≡ false
      → IsSingle ids (claim sc (record st { inflight = sc.id ∷ st.inflight }) r)
  claim-IsSingle sc (rows, true, run) away = launch-IsSingle sc run false rows away
  claim-IsSingle sc (rows, false, run) away = back-IsSingle sc.id rows away

  -- What is done with a mark, where it was free and where it was not.
  marking-IsSingle :
      (id : ℕ) (f : State × Bool → State)
      → IsSingle ids (f (st, false))
      → (is_inflight id st.inflight ≡ false
          → IsSingle ids (f (record st { inflight = id ∷ st.inflight }, true)))
      → IsSingle ids (f (acquire id st))
  unfolding acquire
  marking-IsSingle id f taken free = by_mark (is_inflight id st.inflight) refl
    where
      by_mark :
          (b : Bool)
          → is_inflight id st.inflight ≡ b
          → IsSingle ids
              (f (if b then (st, false) else (record st { inflight = id ∷ st.inflight }, true)))
      by_mark true e = taken
      by_mark false e = free e

  plan-IsSingle : (sc : Schedule) (next : Option ℕ) → IsSingle ids (plan sc next st)
  plan-IsSingle sc none = single
  plan-IsSingle sc (some next) = rows-IsSingle _

  when_due-IsSingle :
      (now : ℕ) (sc : Schedule) (next : Option ℕ) (due : ℕ)
      → IsSingle ids (when_due now sc next due st)
  when_due-IsSingle now sc next due = by_clock (ltb now due)
    where
      by_clock : (b : Bool) → IsSingle ids (if b then st else fire now sc next (acquire sc.id st))
      by_clock true = single
      by_clock false =
          marking-IsSingle sc.id (fire now sc next) single
            (λ away. claim-IsSingle sc (start_schedule_run sc (new_run now sc) next st.rows) away)

module _ (next_run_in : String → ℕ → String → Option ℕ) (now : ℕ) (ids : List ℕ) where
  tick_idle-IsSingle :
      (sc : Schedule) (due : Option ℕ) (st : State)
      → IsSingle ids st
      → IsSingle ids (tick_idle next_run_in now sc due st)
  tick_idle-IsSingle sc none st single = plan-IsSingle ids st single sc _
  tick_idle-IsSingle sc (some due) st single = when_due-IsSingle ids st single now sc _ due

  tick_run-IsSingle :
      (sc : Schedule) (run : Option ScheduleRun) (st : State)
      → IsSingle ids st
      → IsSingle ids (tick_run next_run_in now sc run st)
  tick_run-IsSingle sc none st single = tick_idle-IsSingle sc sc.next_run st single
  tick_run-IsSingle sc (some run) st single =
      marking-IsSingle ids st single sc.id (carry_on sc run) single
        (λ away. launch-IsSingle ids st single sc run true st.rows away)

  tick_all-IsSingle :
      (scs : List Schedule) (st : State)
      → IsSingle ids st
      → IsSingle ids (tick_all next_run_in now scs st)
  unfolding tick_all tick_one
  tick_all-IsSingle [] st single = single
  tick_all-IsSingle (sc ∷ rest) st single =
      tick_all-IsSingle rest (tick_one next_run_in now sc st)
        (tick_run-IsSingle sc sc.run st single)

  -- A tick launches no schedule's chain twice, and none that already runs here, whatever rows it
  -- finds.
  pub tick-Apart :
      (st : State)
      → st.launched ≡ []
      → st.inflight ≡ ids
      → Apart (tick next_run_in now st).launched
        × All (λ l. is_inflight l.schedule.id ids ≡ false) (tick next_run_in now st).launched
  unfolding tick
  tick-Apart st none_yet here =
      let first : IsSingle ids st = record {
        kept = λ i on. subst (λ q. is_inflight i q ≡ true) (sym here) on;
        marked =
            subst (λ q. All (λ l. is_inflight l.schedule.id st.inflight ≡ true) q) (sym none_yet)
              tt;
        apart = subst (λ q. Apart q) (sym none_yet) tt;
        fresh = subst (λ q. All (λ l. is_inflight l.schedule.id ids ≡ false) q) (sym none_yet) tt;
      } in
      let after = tick_all-IsSingle (select (λ sc. sc.enabled) st.rows) st first in
      (after.apart, after.fresh)
