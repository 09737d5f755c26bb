-- ===== src/Totp/Once.antt =====
-- Each second factor is accepted once.
use quetzal.Prelude.{
  ℕ, Bool, true, false, Option, none, some, List, [], ◌∷◌, ◌==◌, ◌≡◌, ◌≤◌, if◌then◌else◌, count,
  leb, arith, All, Option-cases, inl, inr, refl,
}
use quetzal.Models.User.{User}
use quetzal.Totp.{consume_totp_step, unspent}

-- The account's mark has reached the step.
abbrev pub spent_at : ℕ → Option ℕ → Bool
spent_at step none = false
spent_at step (some last) = leb step last

abbrev pub spent : ℕ → ℕ → User → Bool
spent id step u = if u.id == id then spent_at step u.last_totp_step else true

abbrev mark : ℕ → User → User
mark step u = record u { last_totp_step = some step }

abbrev pub attempts : List (ℕ × ℕ) → List User → List User
attempts [] users = users
attempts ((id, step) ∷ rest) users = attempts rest (consume_totp_step id step users).0

mark-spent :
    (id step id' step' : ℕ) (u : User)
    → spent id step u ≡ true
    → spent id step (if unspent id' step' u then mark step' u else u) ≡ true
mark-spent id step id' step' u h = elim (Option-cases u.last_totp_step) [
  | inl never ↦ ground (arith, never)
  | inr (last, known) ↦ ground (arith, known)
]

first_spent :
    (id step : ℕ) (u : User) → spent id step (if unspent id step u then mark step u else u) ≡ true
first_spent id step u = elim (Option-cases u.last_totp_step) [
  | inl never ↦ ground (arith, never)
  | inr (last, known) ↦ ground (arith, known)
]

spent-unspent :
    (id step step' : ℕ) (u : User)
    → spent id step u ≡ true
    → step' ≤ step
    → unspent id step' u ≡ false
spent-unspent id step step' u h low = elim (Option-cases u.last_totp_step) [
  | inl never ↦ ground (arith, never)
  | inr (last, known) ↦ ground (arith, known)
]

first-All :
    (id step : ℕ) (users : List User)
    → All (λ u. spent id step u ≡ true) (consume_totp_step id step users).0
unfolding consume_totp_step
first-All id step [] = tt
first-All id step (u ∷ users) = (first_spent id step u, first-All id step users)

step-All :
    (id step id' step' : ℕ) (users : List User)
    → All (λ u. spent id step u ≡ true) users
    → All (λ u. spent id step u ≡ true) (consume_totp_step id' step' users).0
unfolding consume_totp_step
step-All id step id' step' [] h = tt
step-All id step id' step' (u ∷ users) (here, h) =
    (mark-spent id step id' step' u here, step-All id step id' step' users h)

attempts-All :
    (id step : ℕ) (tries : List (ℕ × ℕ)) (users : List User)
    → All (λ u. spent id step u ≡ true) users
    → All (λ u. spent id step u ≡ true) (attempts tries users)
attempts-All id step [] users h = h
attempts-All id step ((id', step') ∷ rest) users h =
    attempts-All id step rest _ (step-All id step id' step' users h)

count-spent :
    (id step step' : ℕ) (users : List User)
    → All (λ u. spent id step u ≡ true) users
    → step' ≤ step
    → count (unspent id step') users ≡ 0
count-spent id step step' [] h low = refl
count-spent id step step' (u ∷ users) (here, h) low =
    ground (arith, spent-unspent id step step' u here low, count-spent id step step' users h low)

-- Once a step was tried for an account, no attempt at that step or an earlier one is accepted for
-- it, whatever attempts come between, of that account and of others.
pub consume_totp_step_once :
    (id step step' : ℕ) (tries : List (ℕ × ℕ)) (users : List User)
    → step' ≤ step
    → (consume_totp_step id step' (attempts tries (consume_totp_step id step users).0)).1 ≡ false
unfolding consume_totp_step
consume_totp_step_once id step step' tries users low =
    let used =
      attempts-All id step tries (consume_totp_step id step users).0 (first-All id step users) in
    rw (count-spent id step step' (attempts tries (consume_totp_step id step users).0) used low)
      refl
