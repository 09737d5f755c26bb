-- ===== src/Rate.antt =====
-- Rate limiting of attempts by fixed windows: the limiter in memory (internal/ratelimit/ratelimit.go)
-- and its shared counters in the database (internal/store/ratecounter.go).
pub mod Window
pub mod Shared
pub mod Limiter
mod Tests
use quetzal.Prelude.{
  ℕ, String, Bool, true, false, Option, none, some, List, [], ◌∷◌, ◌+◌, ◌-◌, ◌*◌, ◌/◌, ◌==◌,
  if◌then◌else◌, ltb, leb, first, update, delete, str_eq,
}

-- Times and durations are in nanoseconds.
pub record RateCounter : Type 0 where
  pub key : String
  pub count : ℕ
  pub reset_at : ℕ

-- `now.Truncate(time.Microsecond)`.
abbrev pub truncate_us : ℕ → ℕ
truncate_us now = now / 1000 * 1000

abbrev pub on_key : String → RateCounter → Bool
on_key key c = str_eq c.key key

abbrev pub counting : RateCounter → List RateCounter → List RateCounter
counting c rows = update (on_key c.key) (λ _. c) rows

-- The `switch` of the transaction, on the counter that was found.
unfoldable pub record_attempt :
    String → ℕ → ℕ → ℕ → Option RateCounter → List RateCounter → List RateCounter × Bool × ℕ
record_attempt key limit window now none rows =
    (record { key = key; count = 1; reset_at = now + window } ∷ rows, true, now + window)
record_attempt key limit window now (some c) rows =
    if ltb c.reset_at now
    then (counting (record c { count = 1; reset_at = now + window }) rows, true, now + window)
    else if leb limit c.count
    then (rows, false, c.reset_at)
    else (counting (record c { count = c.count + 1 }) rows, true, c.reset_at)

-- The table after an attempt, whether it is allowed, and the end of its window.
unfoldable pub rate_allow : String → ℕ → ℕ → ℕ → List RateCounter → List RateCounter × Bool × ℕ
unfolding record_attempt
rate_allow key limit window now rows =
    record_attempt key limit window (truncate_us now) (first (on_key key) rows) rows

unfoldable pub rate_reset : String → List RateCounter → List RateCounter
rate_reset key rows = delete (on_key key) rows

unfoldable pub rate_gc : ℕ → List RateCounter → List RateCounter
rate_gc now rows = delete (λ c. ltb c.reset_at now) rows
