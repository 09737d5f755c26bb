-- ===== src/Rate/Window.antt =====
-- What the limit means: in one window, no more attempts of a key are allowed than its limit.
use quetzal.Prelude.{
  ℕ, String, true, false, none, some, List, [], ◌∷◌, ◌+◌, ◌≡◌, ◌≤◌, ◌<◌, if◌then◌else◌, ltb, ltb→lt,
  first, update, All, arith, Bool-cases, inl, inr, refl, ap, ◌∙◌, eq_iff, str_eq,
}
use quetzal.Rate.{RateCounter, rate_allow, counting, on_key, truncate_us}

-- The attempts of one key at the given times, and how many of them were allowed.
unfoldable pub allowed_among : String → ℕ → ℕ → List ℕ → List RateCounter → ℕ
allowed_among key limit window [] rows = 0
allowed_among key limit window (t ∷ ts) rows =
    let (rows', ok, reset) = rate_allow key limit window t rows in
    (if ok then 1 else 0) + allowed_among key limit window ts rows'

first-update_key :
    (key : String) (c' : RateCounter) (rows : List RateCounter) {c : RateCounter}
    → c'.key ≡ key
    → first (on_key key) rows ≡ some c
    → first (on_key key) (update (on_key key) (λ _. c') rows) ≡ some c'
first-update_key key c' [] e h = cc
first-update_key key c' (r ∷ rows) e h = elim (Bool-cases (str_eq r.key key)) [
  | inl same ↦ ground (arith, same, eq_iff c'.key key)
  | inr other ↦ rw other (rw other (first-update_key key c' rows e (rw other at h)))
]

pub first-counting :
    (key : String) (c' : RateCounter) (rows : List RateCounter) {c : RateCounter}
    → c'.key ≡ key
    → first (on_key key) rows ≡ some c
    → first (on_key key) (counting c' rows) ≡ some c'
first-counting key c' rows e h =
    ap (λ q. first (on_key key) (update (on_key q) (λ _. c') rows)) e
    ∙ first-update_key key c' rows e h

module _ (key : String) (limit window : ℕ) (t : ℕ) (rows : List RateCounter) (c : RateCounter)
    (found : first (on_key key) rows ≡ some c) (k : c.key ≡ key)
    (now : truncate_us t ≤ c.reset_at) where
  -- An attempt in an open window, below the limit and at it.
  allow_below :
      c.count < limit
      → rate_allow key limit window t rows
        ≡ (counting (record c { count = c.count + 1 }) rows, true, c.reset_at)
  unfolding rate_allow
  allow_below low = ground (arith, found)

  allow_full : limit ≤ c.count → rate_allow key limit window t rows ≡ (rows, false, c.reset_at)
  unfolding rate_allow
  allow_full high = ground (arith, found)

-- A counter whose window is open counts its attempts up to the limit.
counted :
    (key : String) (limit window reset : ℕ) (ts : List ℕ) (rows : List RateCounter)
    (c : RateCounter)
    → first (on_key key) rows ≡ some c
    → c.key ≡ key
    → c.reset_at ≡ reset
    → c.count ≤ limit
    → All (λ t. truncate_us t ≤ reset) ts
    → allowed_among key limit window ts rows + c.count ≤ limit
unfolding allowed_among
counted key limit window reset [] rows c found k r low h = omega arith
counted key limit window reset (t ∷ ts) rows c found k r low (now, h) =
    elim (Bool-cases (ltb c.count limit)) [
      | inl below ↦
          let c' : RateCounter = record c { count = c.count + 1 } in
          let e =
            allow_below key limit window t rows c found k (rw r now) (ltb→lt c.count limit below) in
          let found' : first (on_key key) (counting c' rows) ≡ some c' =
            first-counting key c' rows k found in
          let rest =
            counted key limit window reset ts (counting c' rows) c' found' k r (ground arith) h in
          rw e (omega (arith, rest))
      | inr full ↦
          let e = allow_full key limit window t rows c found k (rw r now) (ground (arith, full)) in
          let rest = counted key limit window reset ts rows c found k r low h in
          rw e (omega (arith, rest))
    ]

-- The first attempt of a key opens its window.
opened :
    (key : String) (limit window t : ℕ) (rows : List RateCounter)
    → first (on_key key) rows ≡ none
    → rate_allow key limit window t rows ≡ (
      record { key = key; count = 1; reset_at = truncate_us t + window } ∷ rows,
      true,
      truncate_us t + window,
    )
unfolding rate_allow
opened key limit window t rows fresh = rw fresh refl

pub first_self :
    (key : String) (c : RateCounter) (rows : List RateCounter)
    → c.key ≡ key
    → first (on_key key) (c ∷ rows) ≡ some c
first_self key c rows k = ground (arith, eq_iff c.key key)

-- Of the attempts of a key up to the end of the window that its first one opens, at most `limit`
-- are allowed, for a positive limit, and the first is among them.
pub allowed_among-le :
    (key : String) (limit window t : ℕ) (ts : List ℕ) (rows : List RateCounter)
    → first (on_key key) rows ≡ none
    → 0 < limit
    → All (λ u. truncate_us u ≤ truncate_us t + window) ts
    → (allowed_among key limit window (t ∷ ts) rows ≤ limit)
      × (1 ≤ allowed_among key limit window (t ∷ ts) rows)
unfolding allowed_among
allowed_among-le key limit window t ts rows fresh positive h =
    let c : RateCounter = record { key = key; count = 1; reset_at = truncate_us t + window } in
    let rest =
      counted key limit window c.reset_at ts (c ∷ rows) c (first_self key c rows refl) refl refl
        (omega (arith, positive)) h in
    rw (opened key limit window t rows fresh) (omega (arith, rest), omega arith)
