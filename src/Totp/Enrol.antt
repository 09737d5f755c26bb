-- ===== src/Totp/Enrol.antt =====
-- A new enrolment starts from a clear mark.
use quetzal.Prelude.{
  ℕ, String, true, List, [], ◌∷◌, ◌==◌, ◌≡◌, ◌<◌, update, count, arith, Bool-cases, inl, inr, refl,
}
use quetzal.Models.User.{User}
use quetzal.Totp.{
  consume_totp_step, unspent, user_id, set_user_totp_secret, enable_user_totp, disable_user_totp,
  cleared,
}

-- The three writes of a new enrolment, on one row.
abbrev pub enrolled : String → List String → User → User
enrolled enc hashes u = record (cleared u) {
  totp_secret_enc = enc;
  totp_enabled = true;
  recovery_codes = hashes;
}

writes-eq :
    (id : ℕ) (enc : String) (hashes : List String) (users : List User)
    → enable_user_totp id hashes (set_user_totp_secret id enc (disable_user_totp id users))
      ≡ update (user_id id) (enrolled enc hashes) users
unfolding enable_user_totp set_user_totp_secret disable_user_totp
writes-eq id enc hashes [] = refl
writes-eq id enc hashes (u ∷ users) = elim (Bool-cases (u.id == id)) [
  | inl own ↦ ground (arith, own, writes-eq id enc hashes users)
  | inr other ↦ ground (arith, other, writes-eq id enc hashes users)
]

count-unspent :
    (id step : ℕ) (enc : String) (hashes : List String) (users : List User)
    → 0 < step
    → count (unspent id step) (update (user_id id) (enrolled enc hashes) users)
      ≡ count (user_id id) users
count-unspent id step enc hashes [] later = refl
count-unspent id step enc hashes (u ∷ users) later = elim (Bool-cases (u.id == id)) [
  | inl own ↦ ground (arith, own, later, count-unspent id step enc hashes users later)
  | inr other ↦ ground (arith, other, count-unspent id step enc hashes users later)
]

-- Whoever turns the second factor off and on again, with one account of the id, has a code of any
-- positive step accepted, the step that was used last under the old secret included.
pub enrol-consume_totp_step :
    (id step : ℕ) (enc : String) (hashes : List String) (users : List User)
    → 0 < step
    → count (user_id id) users ≡ 1
    → (consume_totp_step id step
        (enable_user_totp id hashes (set_user_totp_secret id enc (disable_user_totp id users)))).1
      ≡ true
unfolding consume_totp_step
enrol-consume_totp_step id step enc hashes users later one =
    rw (writes-eq id enc hashes users)
      (rw (count-unspent id step enc hashes users later) (rw one refl))
