-- ===== src/Accounts/Stale.antt =====
-- Proofs of an old password (Accounts): whoever checked a password that was changed meanwhile.
use quetzal.Prelude.{
  ℕ, String, Bool, true, false, not, ◌||◌, Option, none, List, ◌≡◌, ◌≢◌, ◌==◌, ◌⊎◌, inl, inr, ◌∙◌,
  refl, sym, subst, delete, ◌∷◌, [], if◌then◌else◌, first, first-Memᴰ, All, All-Memᴰ, All-update,
  Result, Error, ok, err, refuse_if, ◌>>=◌, ◌>>◌, arith, Bool-cases, Option-cases, str_eq, eq_iff,
}
use quetzal.Models.User.{User}
use quetzal.Models.Credentials.{Session, PasswordReset, EmailConfirmation}
use quetzal.Accounts.{
  Vault, has_id, lock_user, update_user, with_password, change_password, update_user_password,
  same_reset, reset_password, create_password_reset, create_session, delete_session,
  delete_expired_sessions, delete_sessions_for_user, delete_expired_password_resets,
  update_user_email, start_email_confirmation, cancel_pending_email, confirm_link, create_user,
  update_user_admin_fields,
}
use quetzal.Accounts.Writes.{
  WrittenAt, update_user_password-eq, reset_password-eq, create_password_reset-users,
  create_session-users, create_user-users, update_user_email-users, start_email_confirmation-users,
  cancel_pending_email-users, confirm_link-users,
}

-- The account's password is not the one of `old`.
abbrev pub Changed : ℕ → String → Vault → Type 0
Changed id old v = All (λ u. u.id ≡ id → u.password_hash ≢ old) v.users

module _ (sql_lower to_lower : String → String) (id : ℕ) (old : String) where
  -- A transaction on the tables, where nobody sets the password of `old` again: a hash is salted. The
  -- deletion of accounts is not among them.
  pub data Step (v : Vault) : Vault → Type 0 where
    ticked : (now : ℕ) → Step v (record v { now = now })
    password_updated :
        {w : Vault} (user : ℕ) (hash verified keep : String)
        → hash ≢ old
        → update_user_password user hash verified keep v ≡ ok w
        → Step v w
    password_reset :
        {w : Vault} (pr : PasswordReset) (hash : String)
        → hash ≢ old
        → reset_password pr hash v ≡ ok w
        → Step v w
    reset_created :
        {w : Vault} (new_id : ℕ) (pr : PasswordReset) (proof : User)
        → create_password_reset new_id pr proof v ≡ ok w
        → Step v w
    resets_expired : Step v (delete_expired_password_resets v)
    session_created :
        {w : Vault} (sess : Session) (verified : String)
        → create_session sess verified v ≡ ok w
        → Step v w
    session_deleted : (token : String) → Step v (delete_session token v)
    sessions_expired : Step v (delete_expired_sessions v)
    sessions_ended : (user : ℕ) → Step v (delete_sessions_for_user user v)
    email_updated :
        {w : Vault} (user : ℕ) (email : String) → update_user_email user email v ≡ ok w → Step v w
    confirmation_started :
        {w : Vault} (new_id : ℕ) (c : EmailConfirmation) (verified : String)
        → start_email_confirmation new_id c verified v ≡ ok w
        → Step v w
    email_cancelled : {w : Vault} (user : ℕ) → cancel_pending_email user v ≡ ok w → Step v w
    email_confirmed :
        {w : Vault} (c : EmailConfirmation) (token : String)
        → confirm_link sql_lower to_lower c token v ≡ ok w
        → Step v w
    user_created :
        {w : Vault} (new_id : ℕ) (u : User)
        → new_id ≢ id
        → create_user sql_lower to_lower new_id u v ≡ ok w
        → Step v w
    admin_edited :
        (user : ℕ) (is_admin : Bool) (servers memory cpu : Option ℕ)
        → Step v (update_user_admin_fields user is_admin servers memory cpu v)

  pub data Steps : Vault → Vault → Type 0 where
    done : {v : Vault} → Steps v v
    more : {a b c : Vault} → Step a b → Steps b c → Steps a c

module _ (id : ℕ) (old : String) where
  -- A write to a row that keeps its id and its password.
  update_user-Changed :
      (user : ℕ) (f : User → User) (v : Vault)
      → ((u : User) → (f u).id ≡ u.id)
      → ((u : User) → (f u).password_hash ≡ u.password_hash)
      → Changed id old v
      → Changed id old (update_user user f v)
  update_user-Changed user f v same_id same_hash h =
      All-update _ _ (has_id user) (λ u. record (f u) { updated_at = v.now })
        (λ u k hit same now. k (sym (same_id u) ∙ same) (sym (same_hash u) ∙ now)) (λ u k miss. k)
        v.users h

  change_password-Changed :
      (user : ℕ) (hash keep : String) (v : Vault)
      → hash ≢ old
      → Changed id old v
      → Changed id old (change_password user hash keep v)
  unfolding change_password
  change_password-Changed user hash keep v other h =
      All-update _ _ (has_id user) (λ u. record (with_password hash u) { updated_at = v.now })
        (λ u k hit same. other) (λ u k miss. k) v.users h

  WrittenAt-Changed :
      (user : ℕ) (f : User → User) (v w : Vault)
      → WrittenAt user f v w
      → Changed id old v
      → Changed id old w
  WrittenAt-Changed user f v w (same, users) h =
      subst (λ us. All (λ u. u.id ≡ id → u.password_hash ≢ old) us) (sym users)
        (update_user-Changed user f v (λ u. (same u).0) (λ u. (same u).1) h)

-- The account's own row after a change.
pub change_password-sets :
    (id : ℕ) (old hash keep : String) (v : Vault)
    → hash ≢ old
    → Changed id old (change_password id hash keep v)
unfolding change_password
change_password-sets id old hash keep v other =
    All-update (λ u. Unit {0}) _ (has_id id)
      (λ u. record (with_password hash u) { updated_at = v.now }) (λ u k hit same. other)
      (λ u k miss same now. absurd (ground (arith, miss, same))) v.users (units v.users)
  where
    units : (us : List User) → All (λ u. Unit {0}) us
    units [] = tt
    units (u ∷ us) = (tt, units us)

module _ (sql_lower to_lower : String → String) (id : ℕ) (old : String) where
  -- Nothing but a change of password touches the passwords.
  Step-Changed :
      {v w : Vault} → Step sql_lower to_lower id old v w → Changed id old v → Changed id old w
  unfolding delete_session delete_expired_sessions delete_sessions_for_user
      delete_expired_password_resets update_user_admin_fields
  Step-Changed (ticked now) h = h
  Step-Changed {v} (password_updated user hash verified keep other e) h =
      let now = update_user_password-eq user hash verified keep v e in
      subst (Changed id old) now (change_password-Changed id old user hash keep v other h)
  Step-Changed {v} (password_reset pr hash other e) h =
      let now = reset_password-eq pr hash v e in
      subst (Changed id old) now (
        change_password-Changed id old pr.user_id hash ""
          (record v { resets = delete (same_reset pr v.now) v.resets }) other h)
  Step-Changed {v} (reset_created new_id pr proof e) h =
      subst (λ us. All (λ u. u.id ≡ id → u.password_hash ≢ old) us)
        (sym (create_password_reset-users new_id pr proof v e)) h
  Step-Changed resets_expired h = h
  Step-Changed {v} (session_created sess verified e) h =
      subst (λ us. All (λ u. u.id ≡ id → u.password_hash ≢ old) us)
        (sym (create_session-users sess verified v e)) h
  Step-Changed (session_deleted token) h = h
  Step-Changed sessions_expired h = h
  Step-Changed (sessions_ended user) h = h
  Step-Changed {v} {w} (email_updated user email e) h =
      let (f, written) = update_user_email-users user email v e in
      WrittenAt-Changed id old user f v w written h
  Step-Changed {v} {w} (confirmation_started new_id c verified e) h =
      let (user, f, written) = start_email_confirmation-users new_id c verified v e in
      WrittenAt-Changed id old user f v w written h
  Step-Changed {v} {w} (email_cancelled user e) h =
      let (f, written) = cancel_pending_email-users user v e in
      WrittenAt-Changed id old user f v w written h
  Step-Changed {v} {w} (email_confirmed c token e) h =
      let (user, f, written) = confirm_link-users sql_lower to_lower c token v e in
      WrittenAt-Changed id old user f v w written h
  Step-Changed {v} (user_created new_id u other e) h =
      let users = create_user-users sql_lower to_lower new_id u v e in
      subst (λ us. All (λ r. r.id ≡ id → r.password_hash ≢ old) us) (sym users)
        ((λ same. absurd (other same)), h)
  Step-Changed {v} (admin_edited user is_admin servers memory cpu) h =
      update_user-Changed id old user
        (λ u. record u {
          is_admin = is_admin;
          max_servers = servers;
          max_memory_mb = memory;
          max_cpu_milli = cpu;
          admin_role_id = if is_admin then none else u.admin_role_id;
        })
        v (λ u. refl) (λ u. refl) h

  Steps-Changed :
      {v w : Vault} → Steps sql_lower to_lower id old v w → Changed id old v → Changed id old w
  Steps-Changed done h = h
  Steps-Changed (more step steps) h = Steps-Changed steps (Step-Changed step h)

-- The account is not known, or the proof of its password is too old.
abbrev pub IsRefused {ℓ} : {A : Type ℓ} → Result A → Type ℓ
IsRefused r = (r ≡ err Error.not_found) ⊎ (r ≡ err Error.credentials_changed)

differs : (s t : String) → s ≢ t → str_eq s t ≡ false
differs s t ne = elim (Bool-cases (str_eq s t)) [
  | inl same ↦ absurd (ne ((eq_iff s t).0 same))
  | inr other ↦ other
]

-- A transaction that begins by comparing the password with an old one.
compared :
    (id : ℕ) (old : String) (v : Vault) (rest : User → Result Vault)
    → Changed id old v
    → IsRefused (
        lock_user id v
        >>= (λ u. refuse_if (not (str_eq u.password_hash old)) Error.credentials_changed >> rest u))
unfolding lock_user
compared id old v rest h = elim (Option-cases (first (has_id id) v.users)) [
  | inl unknown ↦ rw unknown (inl refl)
  | inr (u, known) ↦
      let (member, hit) = first-Memᴰ (has_id id) v.users known in
      let differ : str_eq u.password_hash old ≡ false =
        differs u.password_hash old (All-Memᴰ _ v.users h member (ground (arith, hit))) in
      rw known (rw differ (inr refl))
]

-- A snapshot of the account with the old password.
reset-IsRefused :
    (new_id : ℕ) (pr : PasswordReset) (proof : User) (old : String) (v : Vault)
    → proof.password_hash ≡ old
    → Changed pr.user_id old v
    → IsRefused (create_password_reset new_id pr proof v)
unfolding lock_user create_password_reset
reset-IsRefused new_id pr proof old v stale h =
    elim (Option-cases (first (has_id pr.user_id) v.users)) [
      | inl unknown ↦ rw unknown (inl refl)
      | inr (u, known) ↦
          let (member, hit) = first-Memᴰ (has_id pr.user_id) v.users known in
          let other : u.password_hash ≢ old = All-Memᴰ _ v.users h member (ground (arith, hit)) in
          let differ : str_eq proof.password_hash u.password_hash ≡ false =
            differs proof.password_hash u.password_hash (λ same. other (sym same ∙ stale)) in
          rw known (refused (not (proof.id == u.id)) _ _ (rw differ refl))
    ]
  where
    refused :
        (a b : Bool) (rest : Result Vault)
        → b ≡ true
        → IsRefused (refuse_if (a || b) Error.credentials_changed >> rest)
    refused true b rest e = inr refl
    refused false b rest e = rw e (inr refl)

-- An account's password is changed, by its holder or by a link, to one that is not `old`.
pub data Replaced (id : ℕ) (old : String) (v v' : Vault) : Type 0 where
  by_password :
      (hash verified keep : String)
      → hash ≢ old
      → update_user_password id hash verified keep v ≡ ok v'
      → Replaced id old v v'
  by_link :
      (pr : PasswordReset) (hash : String)
      → pr.user_id ≡ id
      → hash ≢ old
      → reset_password pr hash v ≡ ok v'
      → Replaced id old v v'

Replaced-Changed : (id : ℕ) (old : String) (v v' : Vault) → Replaced id old v v' → Changed id old v'
Replaced-Changed id old v v' (by_password hash verified keep other e) =
    subst (Changed id old) (update_user_password-eq id hash verified keep v e)
      (change_password-sets id old hash keep v other)
Replaced-Changed id old v v' (by_link pr hash same other e) =
    subst (Changed id old) (reset_password-eq pr hash v e) (
      subst (λ i. Changed id old (change_password i hash "" freed)) (sym same)
        (change_password-sets id old hash "" freed other))
  where
    freed : Vault
    freed = record v { resets = delete (same_reset pr v.now) v.resets }

-- Once an account's password is changed, by its holder or by a reset link, then whatever
-- transactions follow that do not set the old password again, in any order, one that stands on a
-- check of the old password is refused: no session is created, no other password set and no address
-- put up for confirmation by it, and no reset link made on a snapshot with it.
pub stale_proof-IsRefused :
    (sql_lower to_lower : String → String) (id : ℕ) (old : String) (v v' w : Vault) (sess : Session)
    (hash keep : String) (new_id : ℕ) (c : EmailConfirmation) (pr : PasswordReset) (proof : User)
    → Replaced id old v v'
    → Steps sql_lower to_lower id old v' w
    → sess.user_id ≡ id
    → c.user_id ≡ id
    → pr.user_id ≡ id
    → proof.password_hash ≡ old
    → IsRefused (create_session sess old w)
      × IsRefused (update_user_password id hash old keep w)
      × IsRefused (start_email_confirmation new_id c old w)
      × IsRefused (create_password_reset new_id pr proof w)
unfolding create_session update_user_password start_email_confirmation create_password_reset
stale_proof-IsRefused sql_lower to_lower id old v v' w sess hash keep new_id c pr proof change steps
      own_session own_link own_reset stale =
    let now = Steps-Changed sql_lower to_lower id old steps (Replaced-Changed id old v v' change) in
    (
      compared sess.user_id old w _ (subst (λ i. Changed i old w) (sym own_session) now),
      compared id old w _ now,
      compared c.user_id old w _ (subst (λ i. Changed i old w) (sym own_link) now),
      reset-IsRefused new_id pr proof old w stale
          (subst (λ i. Changed i old w) (sym own_reset) now),
    )
