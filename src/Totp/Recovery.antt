-- ===== src/Totp/Recovery.antt =====
-- A recovery code that is consumed is gone.
use quetzal.Prelude.{
  ℕ, String, Bool, true, false, Option, none, some, List, [], ◌∷◌, ◌==◌, ◌≡◌, ◌≤◌, first, update,
  delete, count, any, Result, ok, arith, All, Bool-cases, inl, inr, refl, sym, ap, ◌∙◌,
}
use quetzal.Models.User.{User}
use quetzal.Totp.{
  consume_recovery_code, user_id, holding, is_code, with_codes, Round, ended, again, or_later,
  recovery_round,
}

any-delete : (p : String → Bool) (xs : List String) → any p (delete p xs) ≡ false
any-delete p [] = refl
any-delete p (x ∷ xs) = elim (Bool-cases (p x)) [
  | inl hit ↦ ground (arith, hit, any-delete p xs)
  | inr miss ↦ ground (arith, miss, any-delete p xs)
]

-- At most as many rows hold the codes as have the key.
count_holding-le :
    (id : ℕ) (codes : List String) (users : List User)
    → count (holding id codes) users ≤ count (user_id id) users
count_holding-le id codes [] = omega arith
count_holding-le id codes (u ∷ users) = ground (arith, count_holding-le id codes users)

-- The row of the key, where it alone has the key and holds the codes.
first-written :
    (id : ℕ) (codes rest : List String) (users : List User)
    → count (user_id id) users ≡ 1
    → count (holding id codes) users ≡ 1
    → (u : User) × (first (user_id id) (update (holding id codes) (with_codes rest) users) ≡ some u)
      × (u.recovery_codes ≡ rest)
first-written id codes rest [] one held = absurd (omega (arith, one))
first-written id codes rest (u ∷ users) one held = elim (Bool-cases (holding id codes u)) [
  | inl hit ↦
      let own : user_id id u ≡ true = ground (arith, hit) in
      (with_codes rest u, ground (arith, hit, own), refl)
  | inr miss ↦ elim (Bool-cases (user_id id u)) [
    | inl own ↦
        let le = count_holding-le id codes users in
        absurd (ground (arith, own, miss, le, one, held))
    | inr other ↦
        let (v, found, e) =
          first-written id codes rest users (ground (arith, other, one))
            (ground (arith, miss, held)) in
        (v, rw miss (rw other found), e)
  ]
]

refused_round :
    (id : ℕ) (want : String) (u : User) (users : List User)
    → any (is_code want) u.recovery_codes ≡ false
    → recovery_round id want (some u) users ≡ ended (ok (users, false))
unfolding recovery_round
refused_round id want u users absent = rw absent refl

one_round :
    (id : ℕ) (want : String) (users : List User) {r : Result (List User × Bool)}
    → recovery_round id want (first (user_id id) users) users ≡ ended r
    → consume_recovery_code id want ((users, users) ∷ []) ≡ some r
unfolding consume_recovery_code
one_round id want users e = ap (λ r. or_later r none) e

spent_code :
    (id : ℕ) (want : String) (codes : List String) (users : List User)
    → count (user_id id) users ≡ 1
    → count (holding id codes) users ≡ 1
    → let users' = update (holding id codes) (with_codes (delete (is_code want) codes)) users in
      consume_recovery_code id want ((users', users') ∷ []) ≡ some (ok (users', false))
spent_code id want codes users one held =
    let (u, found, e) = first-written id codes (delete (is_code want) codes) users one held in
    let gone : any (is_code want) u.recovery_codes ≡ false =
      ap (any (is_code want)) e ∙ any-delete (is_code want) codes in
    one_round id want _ (rw found (refused_round id want u _ gone))

-- A round that ends with a code consumed.
round_eq :
    (id : ℕ) (want : String) (o : Option User) (users users' : List User)
    → recovery_round id want o users ≡ ended (ok (users', true))
    → (codes : List String) × (count (holding id codes) users ≡ 1)
      × (users' ≡ update (holding id codes) (with_codes (delete (is_code want) codes)) users)
unfolding recovery_round
round_eq id want none users users' h = cc
round_eq id want (some u) users users' h = elim (Bool-cases (any (is_code want) u.recovery_codes)) [
  | inr absent ↦ absurd (ground (arith, absent))
  | inl present ↦ elim (Bool-cases (count (holding id u.recovery_codes) users == 1)) [
    | inl hit ↦ (u.recovery_codes, ground (arith, hit), ground (arith, present, hit))
    | inr miss ↦ absurd (ground (arith, present, miss))
  ]
]

-- A recovery code is consumed once: whatever other writers did between the reads and the writes of
-- the loop, with one account of that id in every table that it wrote to, the table after a
-- consumption has the code no more, and a second consumption from there is refused.
pub consume_recovery_code_once :
    (id : ℕ) (want : String) (rounds : List (List User × List User)) (users' : List User)
    → All (λ r. count (user_id id) r.1 ≡ 1) rounds
    → consume_recovery_code id want rounds ≡ some (ok (users', true))
    → consume_recovery_code id want ((users', users') ∷ []) ≡ some (ok (users', false))
unfolding consume_recovery_code
consume_recovery_code_once id want [] users' one h = cc
consume_recovery_code_once id want ((read, users) ∷ rounds) users' (one, rest) h =
    over (recovery_round id want (first (user_id id) read) users) refl
      (λ e. consume_recovery_code_once id want rounds users' rest (sym (next e) ∙ h))
  where
    next :
        {r : Round}
        → recovery_round id want (first (user_id id) read) users ≡ r
        → consume_recovery_code id want ((read, users) ∷ rounds)
          ≡ or_later r (consume_recovery_code id want rounds)
    next e = ap (λ r. or_later r (consume_recovery_code id want rounds)) e

    over :
        (r : Round)
        → recovery_round id want (first (user_id id) read) users ≡ r
        → (recovery_round id want (first (user_id id) read) users ≡ again
            → consume_recovery_code id want ((users', users') ∷ []) ≡ some (ok (users', false)))
        → consume_recovery_code id want ((users', users') ∷ []) ≡ some (ok (users', false))
    over (ended out) e later =
        let done : out ≡ ok (users', true) = let k = sym (next e) ∙ h in cc in
        let (codes, held, same) =
          round_eq id want (first (user_id id) read) users users' (e ∙ ap ended done) in
        rw same (spent_code id want codes users one held)
    over again e later = later e
