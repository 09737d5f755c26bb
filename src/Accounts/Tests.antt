-- ===== src/Accounts/Tests.antt =====
-- An account with a session, and the results of Accounts on it.
use quetzal.Prelude.{String, [], ◌∷◌, ◌≡◌, ◌≢◌, refl, ok, err, Error, Memᴰ, ◌==◌, false, eq_iff}
use quetzal.Models.User.{User}
use quetzal.Models.Credentials.{Session, PasswordReset, EmailConfirmation}
use quetzal.Models.Samples.{ada}
use quetzal.Accounts.{
  Vault, lock_user, update_user_password, change_password, reset_password, create_session,
  create_password_reset, start_email_confirmation,
}
use quetzal.Accounts.Stale.{
  more, done, session_created, by_password, IsRefused, stale_proof-IsRefused,
}
use quetzal.Accounts.Revoked.{SignedOut, update_user_password-SignedOut, reset_password-once}

abbrev adas : User
adas = record ada { password_hash = "old" }

abbrev phone : Session
phone = record { token = "phone"; user_id = 2; expires_at = 90; created_at = 1 }

abbrev link : PasswordReset
link = record { id = 1; user_id = 2; token_hash = "t"; expires_at = 50; created_at = 1 }

abbrev letter : EmailConfirmation
letter = record {
  id = 1;
  user_id = 2;
  email = "a@b.c";
  token_hash = "c";
  expires_at = 50;
  created_at = 1;
}

abbrev vault : Vault
vault = record {
  now = 9;
  users = adas ∷ [];
  sessions = phone ∷ record phone { token = "desk" } ∷ [];
  resets = link ∷ [];
  confirmations = [];
}

abbrev changed : Vault
changed = record vault {
  users = record adas { password_hash = "new"; updated_at = 9 } ∷ [];
  sessions = record phone { token = "desk" } ∷ [];
  resets = [];
}

password_changed : update_user_password 2 "new" "old" "desk" vault ≡ ok changed
unfolding update_user_password lock_user change_password
password_changed = refl

abbrev reset : Vault
reset = record changed { sessions = [] }

link_used : reset_password link "new" vault ≡ ok reset
unfolding reset_password lock_user change_password
link_used = refl

abbrev tablet : Session
tablet = record { token = "tablet"; user_id = 2; expires_at = 99; created_at = 9 }

abbrev later : Vault
later = record changed { sessions = tablet ∷ changed.sessions }

signed_in : create_session tablet "new" changed ≡ ok later
unfolding create_session lock_user
signed_in = refl

new_ne_old : ◌≢◌ {A = String} "new" "old"
new_ne_old h = let same = (eq_iff "new" "old").1 h in cc

stale_proof-IsRefused_example :
    IsRefused (create_session phone "old" later)
    × IsRefused (update_user_password 2 "third" "old" "" later)
    × IsRefused (start_email_confirmation 2 letter "old" later)
    × IsRefused (create_password_reset 2 link adas later)
stale_proof-IsRefused_example =
    stale_proof-IsRefused (λ s. s) (λ s. s) 2 "old" vault changed later phone "third" "" 2 letter
      link adas (by_password "new" "old" "desk" new_ne_old password_changed)
      (more (session_created tablet "new" signed_in) done) refl refl refl refl

update_user_password-SignedOut_example : SignedOut 2 "new" "desk" vault changed
update_user_password-SignedOut_example =
    update_user_password-SignedOut 2 "new" "old" "desk" vault changed password_changed

reset_password-once_example :
    ((s : Session) → Memᴰ s reset.sessions → (s.user_id == 2) ≡ false)
    × ((e : Error) × (reset_password link "third" reset ≡ err e))
reset_password-once_example = reset_password-once link link "new" "third" vault reset link_used refl
