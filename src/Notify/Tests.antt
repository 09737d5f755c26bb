-- ===== src/Notify/Tests.antt =====
-- Two events for a channel that fails and one that does not, and the results of Notify on them.
use quetzal.Prelude.{
  true, false, none, some, [], ◌∷◌, ◌-◌, ◌==◌, ◌≡◌, refl, if◌then◌else◌, has_prefix,
}
use quetzal.Models.User.{contains}
use quetzal.Notify.{
  Channel, Event, Outside, World, network, quiet_by_default, matches, record_result, clip, retry,
  deliver_with_retry, dispatch, drain_all, insert_event, sort_events, events_after,
  enabled_channels, drain,
}
use quetzal.Notify.Attempts.{Spent, deliver_with_retry-Spent}
use quetzal.Notify.Cursor.{Drained, drain-Drained}
use quetzal.Notify.Outcomes.{outcomes}

abbrev hook : Channel
hook = record {
  id = 1;
  enabled = true;
  server_id = 0;
  events = [];
  failure_streak = 0;
  last_error = "";
  last_error_at = none;
  last_delivery_at = none;
}

abbrev mail : Channel
mail = record hook { id = 2 }

abbrev crash : Event
crash = record { id = 8; event_type = "server.crashed"; server_id = 3 }

abbrev start : Event
start = record { id = 7; event_type = "server.started"; server_id = 3 }

abbrev faulty : Outside
faulty = record {
  is_done = λ n. false;
  delivery = λ n c e. if c.id == 1 then some network else none;
  is_cut = λ n. false;
  has_config = λ n c. true;
  clock = λ n. n;
  describe = λ c i. "refused";
}

abbrev fresh : World
fresh = record { turn = 0; slept = 0; tried = 0; table = hook ∷ mail ∷ []; notes = []; cursor = 6 }

-- The failing channel is tried three times for the first event and not for the second.
tried_five_times : (drain faulty 3 2 100 (crash ∷ start ∷ []) fresh).world.tried ≡ 5
unfolding drain drain_all dispatch deliver_with_retry retry record_result clip matches
    quiet_by_default has_prefix contains events_after sort_events insert_event
tried_five_times = refl

all_noted :
    outcomes (drain faulty 3 2 100 (crash ∷ start ∷ []) fresh).world
    ≡ (1, 7) ∷ (2, 7) ∷ (1, 8) ∷ (2, 8) ∷ []
unfolding drain drain_all dispatch deliver_with_retry retry record_result clip matches
    quiet_by_default has_prefix contains events_after sort_events insert_event
all_noted = refl

drain-Drained_example :
    Drained
      (enabled_channels fresh.table)
      (events_after 6 100 (crash ∷ start ∷ []))
      (record { world = fresh; tripped = []; halted = false; passed = [] })
      (drain faulty 3 2 100 (crash ∷ start ∷ []) fresh)
drain-Drained_example = drain-Drained faulty 3 2 100 (crash ∷ start ∷ []) fresh

deliver_with_retry-Spent_example :
    Spent (3 - 1) fresh (deliver_with_retry faulty 3 2 hook start fresh).0
deliver_with_retry-Spent_example = deliver_with_retry-Spent faulty 3 2 hook start fresh
