-- ===== src/Notify/Attempts.antt =====
-- How often a delivery is tried and how long it sleeps (Notify).
use quetzal.Prelude.{
  ℕ, zero, suc, Bool, true, false, not, Option, none, some, ◌+◌, ◌-◌, ◌*◌, ◌≤◌, ◌<◌, ◌≡◌, refl,
  if◌then◌else◌, ltb, arith,
}
use quetzal.Notify.{
  Channel, Event, Cause, cancelled, permanent, blocked, certificate, network, status, mail_reply,
  retryable, Outside, World, max_retry_after, pause_for, attempt, slept_for, again, last_try,
  next_try, retry, deliver_with_retry,
}

-- What a delivery leaves that has `left` further attempts.
pub record Spent (left : ℕ) (w w' : World) : Type 0 where
  pub keeps_notes : w'.notes ≡ w.notes
  pub keeps_table : w'.table ≡ w.table
  pub keeps_cursor : w'.cursor ≡ w.cursor
  pub tries : w.tried < w'.tried
  pub ends : w'.tried ≤ w.tried + suc left
  pub sleeps : w'.slept ≤ w.slept + left * max_retry_after

capped : (n : ℕ) → (if ltb max_retry_after n then max_retry_after else n) ≤ max_retry_after
capped n = ground arith

pause_for-le : (cause : Cause) (wait : ℕ) → pause_for cause wait ≤ max_retry_after
pause_for-le cancelled wait = capped wait
pause_for-le permanent wait = capped wait
pause_for-le blocked wait = capped wait
pause_for-le certificate wait = capped wait
pause_for-le network wait = capped wait
pause_for-le (mail_reply code) wait = capped wait
pause_for-le (status code asked) wait = capped (if ltb 0 asked then asked else wait)

once : (left : ℕ) (w : World) → Spent left w (attempt w)
once left w = record {
  keeps_notes = refl;
  keeps_table = refl;
  keeps_cursor = refl;
  tries = omega arith;
  ends = omega arith;
  sleeps = omega arith;
}

module _ (out : Outside) where
  again-Spent :
      (cause : Cause) (i rest wait : ℕ) (w : World) (later : World × Option (Cause × ℕ))
      → Spent rest (slept_for (pause_for cause wait) (attempt w)) later.0
      → Spent (suc rest) w (again out cause i w later).0
  again-Spent cause i rest wait w later h = tests (not (retryable cause)) (out.is_cut (suc w.turn))
    where
      slept : pause_for cause wait ≤ max_retry_after
      slept = pause_for-le cause wait

      tests :
          (given_up cut : Bool)
          → Spent
              (suc rest)
              w
              (if given_up
                then (attempt w, some (cause, i))
                else if cut
                then (slept_for 0 (attempt w), some (cancelled, 1))
                else later).0
      tests true cut = once (suc rest) w
      tests false true = record {
        keeps_notes = refl;
        keeps_table = refl;
        keeps_cursor = refl;
        tries = omega arith;
        ends = omega arith;
        sleeps = omega arith;
      }
      tests false false = record {
        keeps_notes = h.keeps_notes;
        keeps_table = h.keeps_table;
        keeps_cursor = h.keeps_cursor;
        tries = omega (arith, h.tries);
        ends = omega (arith, h.ends);
        sleeps = omega (arith, h.sleeps, slept);
      }

  next_try-Spent :
      (i rest wait : ℕ) (w : World) (later : Cause → World × Option (Cause × ℕ))
      → ((cause : Cause)
          → Spent rest (slept_for (pause_for cause wait) (attempt w)) (later cause).0)
      → (o : Option Cause) → Spent (suc rest) w (next_try out i w later o).0
  next_try-Spent i rest wait w later h none = once (suc rest) w
  next_try-Spent i rest wait w later h (some cause) =
      again-Spent cause i rest wait w (later cause) (h cause)

  retry-Spent :
      (left i wait : ℕ) (c : Channel) (e : Event) (w : World)
      → Spent left w (retry out left i wait c e w).0
  unfolding retry
  retry-Spent zero i wait c e w = answered (out.delivery w.turn c e)
    where
      answered : (o : Option Cause) → Spent 0 w (last_try out i w o).0
      answered none = once 0 w
      answered (some cause) = once 0 w
  retry-Spent (suc rest) i wait c e w =
      next_try-Spent i rest wait w _
        (λ cause.
          retry-Spent rest (suc i) (wait * 2) c e (slept_for (pause_for cause wait) (attempt w)))
        (out.delivery w.turn c e)

  -- A delivery of an event to a channel is tried at least once and, with a bound of `attempts`, at
  -- most that often, or once where the bound is 0; the pauses that are not cut short come to at most
  -- ten seconds between each two attempts, whatever waits a channel asks for and however the backoff
  -- has grown. It records no outcome and leaves the cursor.
  pub deliver_with_retry-Spent :
      (attempts backoff : ℕ) (c : Channel) (e : Event) (w : World)
      → Spent (attempts - 1) w (deliver_with_retry out attempts backoff c e w).0
  unfolding deliver_with_retry
  deliver_with_retry-Spent attempts backoff c e w = retry-Spent (attempts - 1) 1 backoff c e w
