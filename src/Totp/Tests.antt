-- ===== src/Totp/Tests.antt =====
-- An account with a code, and the results of Totp on it.
use quetzal.Prelude.{
  ℕ, String, true, false, some, List, [], ◌∷◌, ◌++◌, ◌≡◌, if◌then◌else◌, ltb, ok, refl, arith,
}
use quetzal.Models.User.{User}
use quetzal.Models.Samples.{ada}
use quetzal.Totp.{hotp, validate_at, recovery_round, consume_totp_step, consume_recovery_code}
use quetzal.Totp.Once.{attempts, consume_totp_step_once}
use quetzal.Totp.Recovery.{consume_recovery_code_once}

-- A code that stands for HMAC: it repeats the counter's bytes, after the key's.
abbrev toy_mac : List ℕ → List ℕ → List ℕ
toy_mac key counter = key ++ (counter ++ counter)

abbrev toy_digits : ℕ → String
toy_digits v = if ltb v 500000 then "000001" else "000002"

abbrev toy_key : List ℕ
toy_key = 7 ∷ 7 ∷ 7 ∷ 7 ∷ []

abbrev toy_code : String
toy_code = hotp toy_mac toy_digits toy_key 2

toy_ok : validate_at toy_mac toy_digits (some toy_key) true toy_code 60 ≡ some 1
unfolding validate_at
toy_ok = refl

abbrev users : List User
users = ada ∷ []

consume_totp_step_once_example :
    (consume_totp_step 2 7 (attempts ((2, 9) ∷ (3, 5) ∷ []) (consume_totp_step 2 8 users).0)).1
    ≡ false
consume_totp_step_once_example =
    consume_totp_step_once 2 8 7 ((2, 9) ∷ (3, 5) ∷ []) users (omega arith)

-- The first round collides: the code "x" goes between its read and its write.
abbrev two_codes : List User
two_codes = record ada { recovery_codes = "x" ∷ "y" ∷ [] } ∷ []

abbrev one_code : List User
one_code = record ada { recovery_codes = "y" ∷ [] } ∷ []

consumed :
    consume_recovery_code 2 "y" ((two_codes, one_code) ∷ (one_code, one_code) ∷ [])
    ≡ some (ok (users, true))
unfolding consume_recovery_code recovery_round
consumed = refl

consume_recovery_code_once_example :
    consume_recovery_code 2 "y" ((users, users) ∷ []) ≡ some (ok (users, false))
consume_recovery_code_once_example =
    consume_recovery_code_once 2 "y" ((two_codes, one_code) ∷ (one_code, one_code) ∷ []) users
      (refl, (refl, tt)) consumed
