-- ===== src/Notify.antt =====
-- The delivery of events to notification channels (internal/notify/notify.go, with
-- internal/store/notification.go and internal/models/notification.go).
pub mod Attempts
pub mod Outcomes
pub mod Cursor
mod Tests
use quetzal.Prelude.{
  ℕ, zero, suc, String, Bool, true, false, not, ◌&&◌, ◌||◌, Option, none, some, List, [], ◌∷◌, ◌++◌,
  ◌+◌, ◌*◌, ◌-◌, ◌==◌, if◌then◌else◌, ltb, leb, first, select, map, take, update, is_none, str_eq,
  str_append, has_prefix,
}
use quetzal.Models.User.{contains}

pub record Channel : Type 0 where
  pub id : ℕ
  pub enabled : Bool
  pub server_id : ℕ
  pub events : List String
  pub failure_streak : ℕ
  pub last_error : String
  pub last_error_at : Option ℕ
  pub last_delivery_at : Option ℕ

pub record Event : Type 0 where
  pub id : ℕ
  pub event_type : String
  pub server_id : ℕ

unfoldable pub quiet_by_default : String → Bool
unfolding has_prefix
quiet_by_default t = has_prefix t "notification." || str_eq t "schedule.run"

unfoldable pub matches : Channel → Event → Bool
unfolding quiet_by_default contains
matches c e =
    if not c.enabled
    then false
    else if not (c.server_id == 0) && not (c.server_id == e.server_id)
    then false
    else elim (c.events) [
      | [] ↦ not (quiet_by_default e.event_type)
      | t ∷ ts ↦ contains (t ∷ ts) e.event_type
    ]

-- Why a delivery failed: the context, a setting, the guard on addresses, a status with the wait that
-- it asks for (0: none), a mail server's reply, a certificate, or else the network.
pub data Cause : Type 0 where
  cancelled permanent blocked certificate network : Cause
  status : (code retry_after : ℕ) → Cause
  mail_reply : (code : ℕ) → Cause

abbrev pub retryable : Cause → Bool
retryable cancelled = false
retryable permanent = false
retryable blocked = false
retryable (status code wait) = leb 500 code || ((code == 429) || (code == 408))
retryable (mail_reply code) = leb 400 code && ltb code 500
retryable certificate = false
retryable network = true

-- What the outside answers, at the number of calls made before: whether the context is done, how a
-- delivery fails, whether a pause is cut short, whether a channel's settings can be read, and the
-- clock; and the text of a failure after so many attempts.
pub record Outside : Type 0 where
  pub is_done : ℕ → Bool
  pub delivery : ℕ → Channel → Event → Option Cause
  pub is_cut : ℕ → Bool
  pub has_config : ℕ → Channel → Bool
  pub clock : ℕ → ℕ
  pub describe : Cause → ℕ → String

-- An outcome that is recorded: "" for a delivery.
pub record Note : Type 0 where
  pub channel_id : ℕ
  pub event_id : ℕ
  pub message : String

-- The calls made, the time slept in pauses that were not cut short, the deliveries that were tried, the channels' rows, the outcomes
-- recorded and the cursor.
pub record World : Type 0 where
  pub turn : ℕ
  pub slept : ℕ
  pub tried : ℕ
  pub table : List Channel
  pub notes : List Note
  pub cursor : ℕ

-- Nanoseconds.
abbrev pub max_retry_after : ℕ
max_retry_after = 10 * 1000000000

abbrev pub pause_for : Cause → ℕ → ℕ
pause_for (status code retry_after) wait =
    let asked = if ltb 0 retry_after then retry_after else wait in
    if ltb max_retry_after asked then max_retry_after else asked
pause_for c wait = if ltb max_retry_after wait then max_retry_after else wait

abbrev pub attempt : World → World
attempt w = record w { turn = suc w.turn; tried = suc w.tried }

abbrev pub slept_for : ℕ → World → World
slept_for d w = record w { turn = suc w.turn; slept = w.slept + d }

-- A text of more than 500 characters ends there with "…".
unfoldable pub clip : ℕ → String → String
clip n String.[] = String.[]
clip zero (String.◌∷◌ c s) = "…"
clip (suc n) (String.◌∷◌ c s) = String.◌∷◌ c (clip n s)

unfoldable pub record_result : ℕ → ℕ → String → List Channel → List Channel
unfolding clip
record_result id at message table =
    update (λ c. c.id == id)
      (λ c.
        if str_eq message ""
        then record c { failure_streak = 0; last_delivery_at = some at }
        else record c {
          failure_streak = suc c.failure_streak;
          last_error = clip 500 message;
          last_error_at = some at;
        })
      table

-- A pass over events: the channels that failed in it, whether it was interrupted, and the events
-- that the cursor passed.
pub record Pass : Type 0 where
  pub world : World
  pub tripped : List (ℕ × String)
  pub halted : Bool
  pub passed : List Event

unfoldable pub insert_event : Event → List Event → List Event
insert_event e [] = e ∷ []
insert_event e (f ∷ fs) = if leb e.id f.id then e ∷ f ∷ fs else f ∷ insert_event e fs

unfoldable pub sort_events : List Event → List Event
unfolding insert_event
sort_events [] = []
sort_events (e ∷ es) = insert_event e (sort_events es)

-- `Where("id > ?").Order("id asc").Limit(limit)`.
unfoldable pub events_after : ℕ → ℕ → List Event → List Event
unfolding sort_events
events_after after limit events = take limit (sort_events (select (λ e. ltb after e.id) events))

abbrev pub enabled_channels : List Channel → List Channel
enabled_channels table = select (λ c. c.enabled) table

module _ (out : Outside) where
  -- A failed attempt: `later` is what the next ones give after the pause.
  abbrev pub again : Cause → ℕ → World → World × Option (Cause × ℕ) → World × Option (Cause × ℕ)
  again cause i w later =
      if not (retryable cause)
      then (attempt w, some (cause, i))
      else if out.is_cut (suc w.turn)
      then (slept_for 0 (attempt w), some (cancelled, 1))
      else later

  abbrev pub last_try : ℕ → World → Option Cause → World × Option (Cause × ℕ)
  last_try i w none = (attempt w, none)
  last_try i w (some cause) = (attempt w, some (cause, i))

  abbrev pub next_try :
      ℕ → World → (Cause → World × Option (Cause × ℕ)) → Option Cause → World × Option (Cause × ℕ)
  next_try i w later none = (attempt w, none)
  next_try i w later (some cause) = again cause i w (later cause)

  -- The loop of `deliverWithRetry`, with the attempts that are left after this one and the number of
  -- this one.
  unfoldable pub retry : ℕ → ℕ → ℕ → Channel → Event → World → World × Option (Cause × ℕ)
  retry zero i wait c e w = last_try i w (out.delivery w.turn c e)
  retry (suc rest) i wait c e w =
      next_try i w
        (λ cause. retry rest (suc i) (wait * 2) c e (slept_for (pause_for cause wait) (attempt w)))
        (out.delivery w.turn c e)

  unfoldable pub deliver_with_retry : ℕ → ℕ → Channel → Event → World → World × Option (Cause × ℕ)
  unfolding retry
  deliver_with_retry attempts backoff c e w = retry (attempts - 1) 1 backoff c e w

  -- `record`.
  abbrev pub noted : Channel → Event → String → World → World
  noted c e message w = record w {
    turn = suc w.turn;
    table = record_result c.id (out.clock w.turn) message w.table;
    notes = w.notes ++ (record { channel_id = c.id; event_id = e.id; message = message } ∷ []);
  }

  abbrev pub note : Channel → Event → String → Pass → Pass
  note c e message p = record p { world = noted c e message p.world }

  abbrev pub after_delivery : Channel → Event → Pass → World × Option (Cause × ℕ) → Pass
  after_delivery c e p (w, none) = note c e "" (record p { world = w })
  after_delivery c e p (w, some (cause, i)) =
      if out.is_done w.turn
      then record p { world = w; halted = true }
      else note c e (out.describe cause i)
          (record p { world = w; tripped = (c.id, out.describe cause i) ∷ p.tripped })

  module _ (attempts backoff : ℕ) where
    abbrev pub deliver : Channel → Event → Pass → Pass
    deliver c e p =
        if out.has_config p.world.turn c
        then after_delivery c e p
            (deliver_with_retry attempts backoff c e (record p.world { turn = suc p.world.turn }))
        else note c e "could not read the channel's settings" p

    abbrev pub unless_tripped : Channel → Event → Option (ℕ × String) → Pass → Pass
    unless_tripped c e (some (id, why)) p =
        note c e (str_append "not attempted, the channel was failing: " why) p
    unless_tripped c e none p = deliver c e p

    abbrev pub visit : Event → Channel → Pass → Pass
    visit e c p =
        if p.halted
        then p
        else if matches c e
        then unless_tripped c e (first (λ t. t.0 == c.id) p.tripped) p
        else p

    unfoldable pub dispatch : Event → List Channel → Pass → Pass
    unfolding deliver_with_retry matches record_result
    dispatch e [] p = p
    dispatch e (c ∷ cs) p = dispatch e cs (visit e c p)

    abbrev pub halt : Pass → Pass
    halt p = record p { halted = true }

    -- Sets the cursor, unless the event was interrupted.
    abbrev pub pass_on : Event → Pass → Pass
    pass_on e p = if p.halted || out.is_done p.world.turn then halt p else record p {
      world = record p.world { turn = suc p.world.turn; cursor = e.id };
      passed = p.passed ++ (e ∷ []);
    }

    abbrev pub take_event : List Channel → Event → Pass → Pass
    take_event channels e p =
        if p.halted
        then p
        else if out.is_done p.world.turn
        then halt p
        else pass_on e (dispatch e channels p)

    unfoldable pub drain_all : List Channel → List Event → Pass → Pass
    unfolding dispatch
    drain_all channels [] p = p
    drain_all channels (e ∷ es) p = drain_all channels es (take_event channels e p)

    -- `drain`, over the events of the outbox.
    unfoldable pub drain : ℕ → List Event → World → Pass
    unfolding events_after drain_all
    drain batch events w =
        drain_all (enabled_channels w.table) (events_after w.cursor batch events)
          (record { world = w; tripped = []; halted = false; passed = [] })
