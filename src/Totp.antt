-- ===== src/Totp.antt =====
-- Second factors: the code of a time step (internal/totp/totp.go), and what the database does with a
-- step or a recovery code that is used (internal/store/store.go and totp.go).
pub mod Once
pub mod Window
pub mod Recovery
pub mod Enrol
mod Tests
use quetzal.Prelude.{
  ℕ, String, Bool, true, false, not, ◌&&◌, Option, none, some, List, [], ◌∷◌, ◌+◌, ◌*◌, ◌/◌, ◌%◌,
  ◌==◌, if◌then◌else◌, first, update, delete, count, any, ltb, Result, Error, ok, err, str_eq,
  get_elem?, length, ◌-◌,
}
use quetzal.Models.User.{User}

abbrev pub period : ℕ
period = 30

-- `counter - 1`, `counter` and `counter + 1` on a uint64.
abbrev pub window : ℕ → List ℕ
window counter =
    (counter + 18446744073709551615) % 18446744073709551616
    ∷ counter
    ∷ (counter + 1) % 18446744073709551616
    ∷ []

abbrev byte_or_zero : Option ℕ → ℕ
byte_or_zero none = 0
byte_or_zero (some b) = b

-- `sum[i]`: the sum has 20 bytes, so no index is out of range.
abbrev byte_at : List ℕ → ℕ → ℕ
byte_at sum i = byte_or_zero (get_elem? sum i)

-- The big-endian bytes of a uint64.
abbrev pub put_uint64 : ℕ → List ℕ
put_uint64 v =
    v / 72057594037927936 % 256
    ∷ v / 281474976710656 % 256
    ∷ v / 1099511627776 % 256
    ∷ v / 4294967296 % 256
    ∷ v / 16777216 % 256
    ∷ v / 65536 % 256
    ∷ v / 256 % 256
    ∷ v % 256
    ∷ []

-- The four bytes have no bit in common after their shifts, so `|` is a sum.
unfoldable pub truncated : List ℕ → ℕ
truncated sum =
    let offset : ℕ = byte_at sum (length sum - 1) % 16 in
    byte_at sum offset % 128 * 16777216
    + byte_at sum (offset + 1) * 65536
    + byte_at sum (offset + 2) * 256
    + byte_at sum (offset + 3)

-- HMAC-SHA1 under a key, and the six digits of a number as text, are arguments; so are, in
-- `validate_at`, the key that a secret decodes to and whether the trimmed code has six characters.
module _ {K : Type 0} (mac : K → List ℕ → List ℕ) (shown : ℕ → String) where
  unfoldable pub hotp : K → ℕ → String
  unfolding truncated
  hotp key counter = shown (truncated (mac key (put_uint64 counter)) % 1000000)

  unfoldable pub matching : K → String → List ℕ → Option ℕ
  unfolding hotp
  matching key code [] = none
  matching key code (c ∷ cs) = if str_eq (hotp key c) code then some c else matching key code cs

  unfoldable pub validate_at : Option K → Bool → String → ℕ → Option ℕ
  unfolding matching
  validate_at none sized code unix = none
  validate_at (some key) sized code unix =
      if not sized then none else matching key code (window (unix / period))

abbrev pub unspent : ℕ → ℕ → User → Bool
unspent id step u =
    (u.id == id) && elim (u.last_totp_step) [ none ↦ true | some last ↦ ltb last step ]

-- `ConsumeTOTPStep`: the mark moves up in the statement that compares it.
unfoldable pub consume_totp_step : ℕ → ℕ → List User → List User × Bool
consume_totp_step id step users = (
  update (unspent id step) (λ u. record u { last_totp_step = some step }) users,
  count (unspent id step) users == 1,
)

abbrev pub user_id : ℕ → User → Bool
user_id id u = u.id == id

-- `slices.Equal`, as the column's JSON text is compared.
abbrev pub same_codes : List String → List String → Bool
same_codes [] [] = true
same_codes [] (d ∷ ds) = false
same_codes (c ∷ cs) [] = false
same_codes (c ∷ cs) (d ∷ ds) = str_eq c d && same_codes cs ds

abbrev pub is_code : String → String → Bool
is_code want h = str_eq h want

abbrev pub holding : ℕ → List String → User → Bool
holding id previous u = (u.id == id) && same_codes u.recovery_codes previous

abbrev pub with_codes : List String → User → User
with_codes codes u = record u { recovery_codes = codes }

-- The end of a round, or `none`: another writer came between its read and its write.
pub data Round : Type 0 where
  ended : Result (List User × Bool) → Round
  again : Round

-- A round of the loop of `ConsumeRecoveryCode` on the user that it read, and the table that its
-- write finds.
unfoldable pub recovery_round : ℕ → String → Option User → List User → Round
recovery_round id want none users = ended (err Error.record_not_found)
recovery_round id want (some u) users =
    if not (any (is_code want) u.recovery_codes)
    then ended (ok (users, false))
    else if count (holding id u.recovery_codes) users == 1
    then ended (
        ok (
          update (holding id u.recovery_codes) (with_codes (delete (is_code want) u.recovery_codes))
              users,
          true,
        ))
    else again

-- The end of a round that ended, or what the rounds after it give.
abbrev pub or_later :
    Round → Option (Result (List User × Bool)) → Option (Result (List User × Bool))
or_later (ended r) later = some r
or_later again later = later

-- The loop, with the tables that its rounds find: at each read and at the write after it. `none` is
-- a loop that is not over after those rounds.
unfoldable pub consume_recovery_code :
    ℕ → String → List (List User × List User) → Option (Result (List User × Bool))
consume_recovery_code id want [] = none
consume_recovery_code id want ((read, users) ∷ rest) =
    or_later (recovery_round id want (first (user_id id) read) users)
      (consume_recovery_code id want rest)

-- `SetUserTOTPSecret`, with the secret encrypted.
unfoldable pub set_user_totp_secret : ℕ → String → List User → List User
set_user_totp_secret id enc users =
    update (user_id id) (λ u. record u { totp_secret_enc = enc; totp_enabled = false }) users

unfoldable pub enable_user_totp : ℕ → List String → List User → List User
enable_user_totp id hashes users =
    update (user_id id) (λ u. record u { totp_enabled = true; recovery_codes = hashes }) users

abbrev pub cleared : User → User
cleared u = record u {
  totp_secret_enc = "";
  totp_enabled = false;
  recovery_codes = [];
  last_totp_step = some 0;
}

unfoldable pub disable_user_totp : ℕ → List User → List User
disable_user_totp id users = update (user_id id) cleared users
