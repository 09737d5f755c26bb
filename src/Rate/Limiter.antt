-- ===== src/Rate/Limiter.antt =====
-- The limiter of internal/ratelimit/ratelimit.go. A shared backend's answer to a call is an
-- argument: `none` where there is no backend, or it returned an error.
use quetzal.Prelude.{
  ℕ, String, Bool, true, false, Option, none, some, List, [], ◌∷◌, ◌+◌, ◌-◌, ◌/◌, ◌==◌,
  if◌then◌else◌, ltb, leb, first, delete, str_eq,
}

pub record Counter : Type 0 where
  pub key : String
  pub n : ℕ
  pub reset : ℕ

-- A limit of 0 stands for any limit that is not positive.
pub record Limiter : Type 0 where
  pub hits : List Counter
  pub limit : ℕ
  pub window : ℕ

abbrev pub of_key : String → Counter → Bool
of_key key c = str_eq c.key key

unfoldable pub new : ℕ → ℕ → Limiter
new limit window = record { hits = []; limit = limit; window = window }

-- `l.hits[key] = c`.
abbrev pub put : Counter → Limiter → Limiter
put c l = record l { hits = c ∷ delete (of_key c.key) l.hits }

unfoldable pub count_in : String → ℕ → Option Counter → Limiter → Limiter × Bool
count_in key now none l = (put (record { key = key; n = 1; reset = now + l.window }) l, true)
count_in key now (some c) l =
    if ltb c.reset now
    then (put (record { key = key; n = 1; reset = now + l.window }) l, true)
    else if leb l.limit c.n
    then (l, false)
    else (put (record c { n = c.n + 1 }) l, true)

-- The backend's answer is whether it allows the attempt, and the end of the window.
unfoldable pub allow : String → ℕ → Option (Bool × ℕ) → Limiter → Limiter × Bool
unfolding count_in
allow key now shared l = if l.limit == 0 then (l, true) else elim shared [
  | some (ok, reset) ↦ (put (record { key = key; n = 0; reset = reset }) l, ok)
  | none ↦ count_in key now (first (of_key key) l.hits) l
]

unfoldable pub reset_key : String → Limiter → Limiter
reset_key key l = record l { hits = delete (of_key key) l.hits }

seconds_left : Option Counter → ℕ → ℕ
seconds_left none now = 0
seconds_left (some c) now = if leb c.reset now then 0 else (c.reset - now + 999999999) / 1000000000

-- The whole seconds until the key's window ends.
unfoldable pub retry_after : String → ℕ → Limiter → ℕ
unfolding seconds_left
retry_after key now l = if l.limit == 0 then 0 else seconds_left (first (of_key key) l.hits) now

unfoldable pub gc : ℕ → Limiter → Limiter
gc now l = record l { hits = delete (λ c. ltb c.reset now) l.hits }
