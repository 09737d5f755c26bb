-- ===== src/Notify/Cursor.antt =====
-- What a pass over the outbox records, and where it leaves the cursor (Notify).
use quetzal.Prelude.{
  ℕ, suc, Bool, true, false, ◌||◌, List, [], ◌∷◌, ◌++◌, ◌≡◌, ◌∙◌, refl, sym, ap, subst,
  if◌then◌else◌,
}
use quetzal.Notify.{
  Channel, Event, Outside, World, Pass, dispatch, halt, pass_on, take_event, drain_all,
  events_after, enabled_channels, drain,
}
use quetzal.Notify.Outcomes.{
  Pairs, outcomes, due, all_due, due_next, last_id, append_nil, append_assoc, Dispatched,
  dispatch-Dispatched,
}

-- One event is passed with its outcomes, or the pass is interrupted in it.
data Taken (channels : List Channel) (e : Event) (p p' : Pass) : Type 0 where
  interrupted :
      p'.halted ≡ true
      → (part more : Pairs) → (part ++ more) ≡ due channels e
      → outcomes p'.world ≡ outcomes p.world ++ part
      → p'.world.cursor ≡ p.world.cursor
      → p'.passed ≡ p.passed
      → Taken channels e p p'
  passed_by :
      outcomes p'.world ≡ outcomes p.world ++ due channels e
      → p'.world.cursor ≡ e.id
      → p'.passed ≡ p.passed ++ (e ∷ [])
      → Taken channels e p p'

-- What a pass over events leaves: those that the cursor passed, those that are left, and the
-- outcomes of the one that was interrupted, with those that it still lacks.
pub record Drained (channels : List Channel) (es : List Event) (p p' : Pass) : Type 0 where
  pub complete : List Event
  pub rest : List Event
  pub in_flight : Pairs
  pub unreached : Pairs
  pub splits : es ≡ (complete ++ rest)
  pub passes : p'.passed ≡ p.passed ++ complete
  pub writes : outcomes p'.world ≡ outcomes p.world ++ (all_due channels complete ++ in_flight)
  pub begins : (in_flight ++ unreached) ≡ due_next channels rest
  pub moves : p'.world.cursor ≡ last_id p.world.cursor complete
  pub ends : p'.halted ≡ false → rest ≡ []

module _ (out : Outside) (attempts backoff : ℕ) (channels : List Channel) where
  pass_on-Taken :
      (e : Event) (p q : Pass)
      → Dispatched out attempts backoff e channels p q
      → Taken channels e p (pass_on out attempts backoff e q)
  pass_on-Taken e p q d = by_end q.halted (out.is_done q.world.turn) refl
    where
      by_end :
          (halted done : Bool)
          → q.halted ≡ halted
          → Taken channels e p (
              if halted || done then halt out attempts backoff q else record q {
                world = record q.world { turn = suc q.world.turn; cursor = e.id };
                passed = q.passed ++ (e ∷ []);
              })
      by_end true done h =
          interrupted refl d.part d.more d.splits d.writes d.keeps_cursor d.keeps_passed
      by_end false true h =
          interrupted refl d.part d.more d.splits d.writes d.keeps_cursor d.keeps_passed
      by_end false false h =
          let whole : d.part ≡ due channels e =
            sym (append_nil d.part) ∙ ap (λ m. d.part ++ m) (sym (d.ends h)) ∙ d.splits in
          passed_by (d.writes ∙ ap (λ l. outcomes p.world ++ l) whole) refl
            (ap (λ l. l ++ (e ∷ [])) d.keeps_passed)

  untouched :
      (e : Event) (p p' : Pass)
      → p'.halted ≡ true
      → p'.world ≡ p.world
      → p'.passed ≡ p.passed
      → Taken channels e p p'
  untouched e p p' halted world passed =
      interrupted halted [] (due channels e) refl
        (ap outcomes world ∙ sym (append_nil (outcomes p.world))) (ap (λ w. w.cursor) world) passed

  take_event-Taken :
      (e : Event) (p : Pass) → Taken channels e p (take_event out attempts backoff channels e p)
  take_event-Taken e p = by_halt p.halted refl
    where
      unless_done :
          (done : Bool)
          → Taken channels e p (
              if done
              then halt out attempts backoff p
              else pass_on out attempts backoff e (dispatch out attempts backoff e channels p))
      unless_done true = untouched e p _ refl refl refl
      unless_done false =
          pass_on-Taken e p (dispatch out attempts backoff e channels p)
            (dispatch-Dispatched out attempts backoff e channels p)

      by_halt :
          (halted : Bool)
          → p.halted ≡ halted
          → Taken channels e p (
              if halted
              then p
              else if out.is_done p.world.turn
              then halt out attempts backoff p
              else pass_on out attempts backoff e (dispatch out attempts backoff e channels p))
      by_halt true h = untouched e p p h refl refl
      by_halt false h = unless_done (out.is_done p.world.turn)

  drain_all-halted :
      (es : List Event) (p : Pass)
      → p.halted ≡ true
      → drain_all out attempts backoff channels es p ≡ p
  unfolding drain_all
  drain_all-halted [] p h = refl
  drain_all-halted (e ∷ es) p h =
      let same : take_event out attempts backoff channels e p ≡ p =
        ap
          (λ b.
            if b
            then p
            else if out.is_done p.world.turn
            then halt out attempts backoff p
            else pass_on out attempts backoff e (dispatch out attempts backoff e channels p))
          h in
      ap (drain_all out attempts backoff channels es) same ∙ drain_all-halted es p h

  drain_all-Drained :
      (es : List Event) (p : Pass)
      → Drained channels es p (drain_all out attempts backoff channels es p)
  unfolding drain_all
  drain_all-Drained [] p = record {
    complete = [];
    rest = [];
    in_flight = [];
    unreached = [];
    splits = refl;
    passes = sym (append_nil p.passed);
    writes = sym (append_nil (outcomes p.world));
    begins = refl;
    moves = refl;
    ends = λ runs. refl;
  }
  drain_all-Drained (e ∷ es) p =
      after (take_event out attempts backoff channels e p) (take_event-Taken e p)
        (drain_all-Drained es (take_event out attempts backoff channels e p))
    where
      after :
          (q : Pass)
          → Taken channels e p q
          → Drained channels es q (drain_all out attempts backoff channels es q)
          → Drained channels (e ∷ es) p (drain_all out attempts backoff channels es q)
      after q (interrupted halted part more splits writes cursor passed) d =
          subst (Drained channels (e ∷ es) p) (sym (drain_all-halted es q halted)) (record {
            complete = [];
            rest = e ∷ es;
            in_flight = part;
            unreached = more;
            splits = refl;
            passes = passed ∙ sym (append_nil p.passed);
            writes = writes;
            begins = splits;
            moves = cursor;
            ends = λ runs. cc;
          })
      after q (passed_by wrote cursor passed) d = record {
        complete = e ∷ d.complete;
        rest = d.rest;
        in_flight = d.in_flight;
        unreached = d.unreached;
        splits = ap (λ l. e ∷ l) d.splits;
        passes =
            d.passes ∙ ap (λ l. l ++ d.complete) passed ∙ append_assoc p.passed (e ∷ []) d.complete;
        writes =
            d.writes
            ∙ ap (λ l. l ++ (all_due channels d.complete ++ d.in_flight)) wrote
            ∙ append_assoc (outcomes p.world) (due channels e)
                (all_due channels d.complete ++ d.in_flight)
            ∙ ap (λ l. outcomes p.world ++ l)
                (sym (append_assoc (due channels e) (all_due channels d.complete) d.in_flight));
        begins = d.begins;
        moves = d.moves ∙ ap (λ i. last_id i d.complete) cursor;
        ends = d.ends;
      }

-- A pass over the outbox takes the events after the cursor in order, and the cursor ends at the last
-- one that it passed. For each event that it passed it records one outcome for each enabled channel
-- that the event matches, in order; of one that is interrupted it records the first few of these and
-- leaves the cursor before it, so that the next pass takes it again; and without an interruption no
-- event of the batch is left. This holds whatever deliveries fail and however often.
pub drain-Drained :
    (out : Outside) (attempts backoff batch : ℕ) (events : List Event) (w : World)
    → Drained
        (enabled_channels w.table)
        (events_after w.cursor batch events)
        (record { world = w; tripped = []; halted = false; passed = [] })
        (drain out attempts backoff batch events w)
unfolding drain
drain-Drained out attempts backoff batch events w =
    drain_all-Drained out attempts backoff (enabled_channels w.table)
      (events_after w.cursor batch events) _
