-- ===== src/Accounts.antt =====
-- The credentials of an account in the database: passwords, sessions, reset links and the
-- confirmation of addresses (internal/store/credentials.go, email.go and store.go). SQL's lower()
-- and strings.ToLower are arguments.
mod Tests
pub mod Writes
pub mod Stale
pub mod Revoked
use quetzal.Prelude.{
  ℕ, String, Bool, true, false, not, ◌&&◌, ◌||◌, Option, none, some, List, [], ◌∷◌, ◌==◌,
  if◌then◌else◌, ltb, first, update, delete, count, any, Result, Error, ok, err, refuse_if,
  or_error, ◌>>=◌, ◌>>◌, str_eq, trim_space,
}
use quetzal.Models.User.{User}
use quetzal.Models.Credentials.{Session, PasswordReset, EmailConfirmation}

-- `now` is the clock's reading; gorm writes it to `updated_at` with each update of a row.
pub record Vault : Type 0 where
  pub now : ℕ
  pub users : List User
  pub sessions : List Session
  pub resets : List PasswordReset
  pub confirmations : List EmailConfirmation

abbrev pub has_id : ℕ → User → Bool
has_id id u = u.id == id

unfoldable pub lock_user : ℕ → Vault → Result User
lock_user id v = or_error (first (has_id id) v.users) Error.not_found

abbrev pub update_user : ℕ → (User → User) → Vault → Vault
update_user id f v = record v {
  users = update (has_id id) (λ u. record (f u) { updated_at = v.now }) v.users;
}

abbrev pub drop_resets : ℕ → Vault → Vault
drop_resets id v = record v { resets = delete (λ r. r.user_id == id) v.resets }

abbrev pub drop_confirmations : ℕ → Vault → Vault
drop_confirmations id v = record v { confirmations = delete (λ r. r.user_id == id) v.confirmations }

-- Passwords.

-- The sessions that a change of password ends: `keep` is the token of one to keep, or "".
abbrev pub ended_by : ℕ → String → Session → Bool
ended_by id keep s = (s.user_id == id) && (str_eq keep "" || not (str_eq s.token keep))

abbrev pub with_password : String → User → User
with_password hash u = record u { password_hash = hash; pending_email = "" }

unfoldable pub change_password : ℕ → String → String → Vault → Vault
change_password id hash keep v =
    let w = drop_confirmations id (drop_resets id (update_user id (with_password hash) v)) in
    record w { sessions = delete (ended_by id keep) w.sessions }

unfoldable pub update_user_password : ℕ → String → String → String → Vault → Result Vault
unfolding lock_user change_password
update_user_password id hash verified keep v = do
  u ← lock_user id v
  refuse_if (not (str_eq u.password_hash verified)) Error.credentials_changed
  ok (change_password id hash keep v)

-- The link that was read, if it is still there and valid.
abbrev pub same_reset : PasswordReset → ℕ → PasswordReset → Bool
same_reset pr now r =
    ((r.id == pr.id) && (r.user_id == pr.user_id))
    && (str_eq r.token_hash pr.token_hash && ltb now r.expires_at)

unfoldable pub reset_password : PasswordReset → String → Vault → Result Vault
unfolding lock_user change_password
reset_password pr hash v = do
  u ← lock_user pr.user_id v
  refuse_if (not (count (same_reset pr v.now) v.resets == 1)) Error.not_found
  ok (
      change_password pr.user_id hash ""
        (record v { resets = delete (same_reset pr v.now) v.resets }))

unfoldable pub create_password_reset : ℕ → PasswordReset → User → Vault → Result Vault
unfolding lock_user
create_password_reset new_id pr proof v = do
  u ← lock_user pr.user_id v
  refuse_if
      (not (proof.id == u.id)
        || (not (str_eq proof.password_hash u.password_hash) || not (str_eq proof.email u.email)))
      Error.credentials_changed
  let w = drop_resets pr.user_id v
  ok (record w { resets = record pr { id = new_id; created_at = v.now } ∷ w.resets })

unfoldable pub get_password_reset_by_hash : String → Vault → Result PasswordReset
get_password_reset_by_hash hash v =
    or_error (first (λ r. str_eq r.token_hash hash) v.resets) Error.not_found

unfoldable pub delete_expired_password_resets : Vault → Vault
delete_expired_password_resets v = record v {
  resets = delete (λ r. ltb r.expires_at v.now) v.resets;
}

-- Sessions.

unfoldable pub create_session : Session → String → Vault → Result Vault
unfolding lock_user
create_session sess verified v = do
  u ← lock_user sess.user_id v
  refuse_if (not (str_eq u.password_hash verified)) Error.credentials_changed
  refuse_if (any (λ s. str_eq s.token sess.token) v.sessions) Error.duplicate
  ok (record v { sessions = record sess { created_at = v.now } ∷ v.sessions })

unfoldable pub delete_session : String → Vault → Vault
delete_session token v = record v { sessions = delete (λ s. str_eq s.token token) v.sessions }

unfoldable pub delete_expired_sessions : Vault → Vault
delete_expired_sessions v = record v { sessions = delete (λ s. ltb s.expires_at v.now) v.sessions }

unfoldable pub delete_sessions_for_user : ℕ → Vault → Vault
delete_sessions_for_user id v = record v { sessions = delete (λ s. s.user_id == id) v.sessions }

-- Addresses.

unfoldable pub update_user_email : ℕ → String → Vault → Result Vault
unfolding lock_user
update_user_email id email v = do
  u ← lock_user id v
  let w = if str_eq u.email (trim_space email) then v else drop_resets id v
  ok (
      update_user id
        (λ r. record r { email = trim_space email; email_verified = false; pending_email = "" })
        (drop_confirmations id w))

unfoldable pub start_email_confirmation : ℕ → EmailConfirmation → String → Vault → Result Vault
unfolding lock_user
start_email_confirmation new_id c verified v = do
  u ← lock_user c.user_id v
  refuse_if (not (str_eq u.password_hash verified)) Error.credentials_changed
  let pending = if str_eq c.email u.email then "" else c.email
  let w =
      update_user u.id (λ r. record r { pending_email = pending }) (drop_confirmations c.user_id v)
  ok (record w { confirmations = record c { id = new_id; created_at = v.now } ∷ w.confirmations })

unfoldable pub cancel_pending_email : ℕ → Vault → Result Vault
unfolding lock_user
cancel_pending_email id v = do
  u ← lock_user id v
  ok (update_user id (λ r. record r { pending_email = "" }) (drop_confirmations id v))

abbrev pub same_link : EmailConfirmation → String → ℕ → EmailConfirmation → Bool
same_link c token now r = (r.id == c.id) && (str_eq r.token_hash token && ltb now r.expires_at)

abbrev pub confirmed : String → User → User
confirmed email u = record u { email = email; email_verified = true; pending_email = "" }

module _ (sql_lower to_lower : String → String) where
  -- The transaction of `ConfirmEmail`, on the link that was read before it.
  unfoldable pub confirm_link : EmailConfirmation → String → Vault → Result Vault
  unfolding lock_user
  confirm_link c token v = do
    u ← lock_user c.user_id v
    refuse_if (not (count (same_link c token v.now) v.confirmations == 1))
        Error.confirmation_invalid
    refuse_if (not (str_eq c.email u.pending_email) && not (str_eq c.email u.email))
        Error.confirmation_invalid
    refuse_if
        (any (λ r. str_eq (sql_lower r.email) (to_lower c.email) && not (r.id == u.id)) v.users)
        Error.duplicate
    let w = record v { confirmations = delete (same_link c token v.now) v.confirmations }
    ok (
        update_user u.id (confirmed c.email)
          (if str_eq u.email c.email then w else drop_resets u.id w))

  unfoldable pub confirm_email : String → Vault → Result Vault
  unfolding confirm_link
  confirm_email token v = do
    c ← or_error (first (λ r. str_eq r.token_hash token) v.confirmations) Error.confirmation_invalid
    confirm_link c token v

  -- Accounts.

  unfoldable pub create_user : ℕ → User → Vault → Result Vault
  create_user new_id u v = do
    refuse_if (any (λ r. str_eq (sql_lower r.username) (sql_lower u.username)) v.users)
        Error.duplicate
    ok (record v {
      users = record u { id = new_id; created_at = v.now; updated_at = v.now } ∷ v.users;
    })

-- Promoting clears a role that is left over.
unfoldable pub update_user_admin_fields : ℕ → Bool → Option ℕ → Option ℕ → Option ℕ → Vault → Vault
update_user_admin_fields id is_admin servers memory cpu = update_user id (λ u. record u {
  is_admin = is_admin;
  max_servers = servers;
  max_memory_mb = memory;
  max_cpu_milli = cpu;
  admin_role_id = if is_admin then none else u.admin_role_id;
})
