-- ===== src/Totp/Window.antt =====
-- The step that a valid code gives is the clock's, or next to it.
use quetzal.Prelude.{
  ℕ, String, Bool, true, false, some, List, [], ◌∷◌, ◌+◌, ◌/◌, ◌≡◌, ◌≤◌, ◌<◌, str_eq, eq_iff, arith,
  Bool-cases, Memᴰ, inl, inr,
}
use quetzal.Totp.{window, hotp, matching, validate_at, period}

module _ {K : Type 0} (mac : K → List ℕ → List ℕ) (shown : ℕ → String) where
  matching-eq :
      (key : K) (code : String) (cs : List ℕ) {c : ℕ}
      → matching mac shown key code cs ≡ some c
      → Memᴰ c cs × (hotp mac shown key c ≡ code)
  unfolding matching
  matching-eq key code [] h = cc
  matching-eq key code (d ∷ cs) {c} h = elim (Bool-cases (str_eq (hotp mac shown key d) code)) [
    | inl hit ↦
        let e : d ≡ c = ground (arith, hit) in
        (Memᴰ.head (ground (arith, e)), rw (← e) ((eq_iff _ code).0 hit))
    | inr miss ↦ let (m, same) = matching-eq key code cs (rw miss at h) in (Memᴰ.tail m, same)
  ]

  near :
      (counter c : ℕ)
      → 0 < counter
      → counter < 18446744073709551615
      → Memᴰ c (window counter)
      → (c ≤ counter + 1) × (counter ≤ c + 1)
  near counter c late early (Memᴰ.head e) = (omega (arith, e), omega (arith, e))
  near counter c late early (Memᴰ.tail (Memᴰ.head e)) = (omega (arith, e), omega (arith, e))
  near counter c late early (Memᴰ.tail (Memᴰ.tail (Memᴰ.head e))) =
      (omega (arith, e), omega (arith, e))
  near counter c late early (Memᴰ.tail (Memᴰ.tail (Memᴰ.tail m))) = elim m [ ]

  -- A code that is valid, at a clock from 30 seconds after the epoch to 2^63, is the code of the step
  -- that the validation gives, and that step is the clock's or next to it.
  pub validate_at-eq :
      (key : K) (sized : Bool) (code : String) (unix c : ℕ)
      → 30 ≤ unix
      → unix < 9223372036854775808
      → validate_at mac shown (some key) sized code unix ≡ some c
      → (hotp mac shown key c ≡ code) × (c ≤ unix / period + 1) × (unix / period ≤ c + 1)
  unfolding validate_at
  validate_at-eq key true code unix c late early h =
      let (m, same) = matching-eq key code (window (unix / period)) h in
      let (below, above) = near (unix / period) c (omega arith) (omega arith) m in
      (same, below, above)
  validate_at-eq key false code unix c late early h = cc
