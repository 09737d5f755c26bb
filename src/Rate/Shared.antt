-- ===== src/Rate/Shared.antt =====
-- The limiter in memory and the shared counters give the same answers.
use quetzal.Prelude.{
  ℕ, String, Bool, true, false, Option, none, some, List, ◌+◌, ◌==◌, ◌≡◌, ◌<◌, ltb, leb, first,
  eq_iff, arith, Bool-cases, Option-cases, first-Memᴰ, inl, inr, refl, ap, sym, ◌∙◌,
}
use quetzal.Rate.{RateCounter, rate_allow, counting, on_key, truncate_us}
use quetzal.Rate.Limiter.{Limiter, Counter, allow, put, of_key}
use quetzal.Rate.Window.{first-counting}

-- The attempts counted in a window, and its end.
abbrev pub counter_view : Option Counter → Option (ℕ × ℕ)
counter_view none = none
counter_view (some c) = some (c.n, c.reset)

abbrev pub row_view : Option RateCounter → Option (ℕ × ℕ)
row_view none = none
row_view (some c) = some (c.count, c.reset_at)

-- The limiter and the table count one key alike.
abbrev pub Agree : String → Limiter → List RateCounter → Type 0
Agree key l rows = counter_view (first (of_key key) l.hits) ≡ row_view (first (on_key key) rows)

first-put :
    (key : String) (c : Counter) (l : Limiter)
    → c.key ≡ key
    → first (of_key key) (put c l).hits ≡ some c
first-put key c l k = ground (arith, (eq_iff c.key key).1 k)

module _ (key : String) (now : ℕ) (l : Limiter) (rows : List RateCounter) where
  -- What both give, by the counters that they find.
  abbrev SameAnswer : Type 0
  SameAnswer =
      ((allow key now none l).1 ≡ (rate_allow key l.limit l.window now rows).1)
      × Agree key (allow key now none l).0 (rate_allow key l.limit l.window now rows).0

  answers :
      {l' : Limiter} {rows' : List RateCounter} {b : Bool} {t : ℕ}
      → allow key now none l ≡ (l', b)
      → rate_allow key l.limit l.window now rows ≡ (rows', b, t)
      → Agree key l' rows'
      → SameAnswer
  answers mine shared agree = (
    ap (λ q. q.1) mine ∙ sym (ap (λ q. q.1) shared),
    ap (λ q. counter_view (first (of_key key) q.0.hits)) mine
        ∙ agree
        ∙ sym (ap (λ q. row_view (first (on_key key) q.0)) shared),
  )

  fresh :
      (l.limit == 0) ≡ false
      → truncate_us now ≡ now
      → first (of_key key) l.hits ≡ none
      → first (on_key key) rows ≡ none
      → SameAnswer
  unfolding allow rate_allow
  fresh limited whole absent missing =
      let self = (eq_iff key key).1 refl in
      rw (limited, absent, missing, whole) (rw self (refl, refl))

  module _ (c : Counter) (d : RateCounter) (limited : (l.limit == 0) ≡ false)
      (whole : truncate_us now ≡ now) (mine : first (of_key key) l.hits ≡ some c)
      (shared : first (on_key key) rows ≡ some d) (n : c.n ≡ d.count) (r : c.reset ≡ d.reset_at)
      (own : c.key ≡ key) (same : d.key ≡ key) where
    expired : ltb c.reset now ≡ true → SameAnswer
    unfolding allow rate_allow
    expired past =
        let past' : ltb d.reset_at now ≡ true = rw r at past in
        let c' : Counter = record { key = key; n = 1; reset = now + l.window } in
        let d' : RateCounter = record d { count = 1; reset_at = now + l.window } in
        let counted : allow key now none l ≡ (put c' l, true) = rw (limited, mine, past) refl in
        let stored : rate_allow key l.limit l.window now rows
            ≡ (counting d' rows, true, now + l.window) =
          rw (whole, shared, past') refl in
        answers counted stored (
          ap counter_view (first-put key c' l refl)
          ∙ sym (ap row_view (first-counting key d' rows same shared)))

    full : ltb c.reset now ≡ false → leb l.limit c.n ≡ true → SameAnswer
    unfolding allow rate_allow
    full running most =
        let running' : ltb d.reset_at now ≡ false = rw r at running in
        let most' : leb l.limit d.count ≡ true = rw n at most in
        let counted : allow key now none l ≡ (l, false) = rw (limited, mine, running, most) refl in
        let stored : rate_allow key l.limit l.window now rows ≡ (rows, false, d.reset_at) =
          rw (whole, shared, running', most') refl in
        answers counted stored
          (ap counter_view mine ∙ ap some (λ i. (n i, r i)) ∙ sym (ap row_view shared))

    below : ltb c.reset now ≡ false → leb l.limit c.n ≡ false → SameAnswer
    unfolding allow rate_allow
    below running least =
        let running' : ltb d.reset_at now ≡ false = rw r at running in
        let least' : leb l.limit d.count ≡ false = rw n at least in
        let c' : Counter = record c { n = c.n + 1 } in
        let d' : RateCounter = record d { count = d.count + 1 } in
        let counted : allow key now none l ≡ (put c' l, true) =
          rw (limited, mine, running, least) refl in
        let stored : rate_allow key l.limit l.window now rows
            ≡ (counting d' rows, true, d.reset_at) =
          rw (whole, shared, running', least') refl in
        answers counted stored (
          ap counter_view (first-put key c' l own)
          ∙ ap some (λ i. (n i + 1, r i))
          ∙ sym (ap row_view (first-counting key d' rows same shared)))

    known : SameAnswer
    known = elim (Bool-cases (ltb c.reset now)) [
      | inl past ↦ expired past
      | inr running ↦ elim (Bool-cases (leb l.limit c.n)) [
        | inl most ↦ full running most
        | inr least ↦ below running least
      ]
    ]

-- At a clock of whole microseconds and with a positive limit, the limiter in memory and the shared
-- counters, where they count a key alike, answer an attempt of it alike, and count it alike after it.
pub allow-rate_allow :
    (key : String) (now : ℕ) (l : Limiter) (rows : List RateCounter)
    → 0 < l.limit
    → truncate_us now ≡ now
    → Agree key l rows
    → ((allow key now none l).1 ≡ (rate_allow key l.limit l.window now rows).1)
      × Agree key (allow key now none l).0 (rate_allow key l.limit l.window now rows).0
allow-rate_allow key now l rows positive whole agree =
    let limited : (l.limit == 0) ≡ false = ground (arith, positive) in
    elim (Option-cases (first (of_key key) l.hits)) [
      | inl absent ↦ elim (Option-cases (first (on_key key) rows)) [
        | inl missing ↦ fresh key now l rows limited whole absent missing
        | inr (d, shared) ↦ absurd (ground (arith, absent, shared, agree))
      ]
      | inr (c, mine) ↦ elim (Option-cases (first (on_key key) rows)) [
        | inl missing ↦ absurd (ground (arith, mine, missing, agree))
        | inr (d, shared) ↦
            let alike : some (c.n, c.reset) ≡ some (d.count, d.reset_at) =
              sym (ap counter_view mine) ∙ agree ∙ ap row_view shared in
            let n : c.n ≡ d.count = cc in
            let r : c.reset ≡ d.reset_at = cc in
            let (at, own) = first-Memᴰ (of_key key) l.hits mine in
            let (at', same) = first-Memᴰ (on_key key) rows shared in
            known key now l rows c d limited whole mine shared n r ((eq_iff c.key key).0 own)
              ((eq_iff d.key key).0 same)
      ]
    ]
