-- ===== src/Accounts/Writes.antt =====
-- What each transaction on credentials (Accounts) does to the table of accounts.
use quetzal.Prelude.{
  ℕ, String, Bool, true, false, not, ◌&&◌, ◌||◌, ◌≡◌, ◌==◌, ◌∙◌, ap, refl, sym, delete, ◌∷◌,
  if◌then◌else◌, update, any, count, ok, refuse_if-ok, bind-ok, ok-injective, str_eq, trim_space,
}
use quetzal.Models.User.{User}
use quetzal.Models.Credentials.{Session, PasswordReset, EmailConfirmation}
use quetzal.Accounts.{
  Vault, has_id, lock_user, update_user, change_password, update_user_password, same_reset,
  reset_password, create_password_reset, create_session, update_user_email,
  start_email_confirmation, cancel_pending_email, same_link, confirm_link, confirmed, create_user,
  drop_resets, drop_confirmations,
}

abbrev pub Keeps : (User → User) → Type 0
Keeps f = (u : User) → ((f u).id ≡ u.id) × ((f u).password_hash ≡ u.password_hash)

-- The table of accounts after a write to one row.
abbrev pub WrittenAt : ℕ → (User → User) → Vault → Vault → Type 0
WrittenAt user f v w =
    Keeps f × (w.users ≡ update (has_id user) (λ u. record (f u) { updated_at = v.now }) v.users)

pub update_user_password-eq :
    (user : ℕ) (hash verified keep : String) (v : Vault) {w : Vault}
    → update_user_password user hash verified keep v ≡ ok w
    → (change_password user hash keep v ≡ w)
unfolding update_user_password
update_user_password-eq user hash verified keep v e =
    let (u, locked, e1) = bind-ok (lock_user user v) _ e in
    let (same, e2) = refuse_if-ok (not (str_eq u.password_hash verified)) _ _ e1 in ok-injective e2

pub reset_password-eq :
    (pr : PasswordReset) (hash : String) (v : Vault) {w : Vault}
    → reset_password pr hash v ≡ ok w
    → change_password pr.user_id hash ""
        (record v { resets = delete (same_reset pr v.now) v.resets })
      ≡ w
unfolding reset_password
reset_password-eq pr hash v e =
    let (u, locked, e1) = bind-ok (lock_user pr.user_id v) _ e in
    let (there, e2) = refuse_if-ok (not (count (same_reset pr v.now) v.resets == 1)) _ _ e1 in
    ok-injective e2

pub create_password_reset-users :
    (new_id : ℕ) (pr : PasswordReset) (proof : User) (v : Vault) {w : Vault}
    → create_password_reset new_id pr proof v ≡ ok w
    → w.users ≡ v.users
unfolding create_password_reset
create_password_reset-users new_id pr proof v e =
    let (u, locked, e1) = bind-ok (lock_user pr.user_id v) _ e in
    let (same, e2) =
      refuse_if-ok
        (not (proof.id == u.id)
          || (not (str_eq proof.password_hash u.password_hash) || not (str_eq proof.email u.email)))
        _ _ e1 in
    ap (λ q. q.users) (sym (ok-injective e2))

pub create_session-users :
    (sess : Session) (verified : String) (v : Vault) {w : Vault}
    → create_session sess verified v ≡ ok w
    → w.users ≡ v.users
unfolding create_session
create_session-users sess verified v e =
    let (u, locked, e1) = bind-ok (lock_user sess.user_id v) _ e in
    let (same, e2) = refuse_if-ok (not (str_eq u.password_hash verified)) _ _ e1 in
    let (fresh, e3) = refuse_if-ok (any (λ s. str_eq s.token sess.token) v.sessions) _ _ e2 in
    ap (λ q. q.users) (sym (ok-injective e3))

pub create_user-users :
    (sql_lower to_lower : String → String) (new_id : ℕ) (u : User) (v : Vault) {w : Vault}
    → create_user sql_lower to_lower new_id u v ≡ ok w
    → w.users ≡ record u { id = new_id; created_at = v.now; updated_at = v.now } ∷ v.users
unfolding create_user
create_user-users sql_lower to_lower new_id u v e =
    let (fresh, e1) =
      refuse_if-ok (any (λ r. str_eq (sql_lower r.username) (sql_lower u.username)) v.users) _ _
        e in
    ap (λ q. q.users) (sym (ok-injective e1))

pub update_user_email-users :
    (user : ℕ) (email : String) (v : Vault) {w : Vault}
    → update_user_email user email v ≡ ok w
    → (f : (User → User)) × WrittenAt user f v w
unfolding update_user_email
update_user_email-users user email v e =
    let (u, locked, e1) = bind-ok (lock_user user v) _ e in
    let f : User → User =
      λ r. record r { email = trim_space email; email_verified = false; pending_email = "" } in
    let t = str_eq u.email (trim_space email) in
    (f, ((λ r. (refl, refl)), ap (λ q. q.users) (sym (ok-injective e1)) ∙ same_write t u))
  where
    same_write :
        (t : Bool) (u : User)
        → (update_user user
            (λ r. record r { email = trim_space email; email_verified = false; pending_email = "" })
            (drop_confirmations user (if t then v else drop_resets user v))).users
          ≡ update
              (has_id user)
              (λ r. record r {
                email = trim_space email;
                email_verified = false;
                pending_email = "";
                updated_at = v.now;
              })
              v.users
    same_write true u = refl
    same_write false u = refl

pub start_email_confirmation-users :
    (new_id : ℕ) (c : EmailConfirmation) (verified : String) (v : Vault) {w : Vault}
    → start_email_confirmation new_id c verified v ≡ ok w
    → (user : ℕ) × (f : (User → User)) × WrittenAt user f v w
unfolding start_email_confirmation
start_email_confirmation-users new_id c verified v e =
    let (u, locked, e1) = bind-ok (lock_user c.user_id v) _ e in
    let (same, e2) = refuse_if-ok (not (str_eq u.password_hash verified)) _ _ e1 in
    let pending = if str_eq c.email u.email then "" else c.email in
    (
      u.id,
      (λ r. record r { pending_email = pending }),
      ((λ r. (refl, refl)), ap (λ q. q.users) (sym (ok-injective e2))),
    )

pub cancel_pending_email-users :
    (user : ℕ) (v : Vault) {w : Vault}
    → cancel_pending_email user v ≡ ok w
    → (f : (User → User)) × WrittenAt user f v w
unfolding cancel_pending_email
cancel_pending_email-users user v e =
    let (u, locked, e1) = bind-ok (lock_user user v) _ e in
    (
      (λ r. record r { pending_email = "" }),
      ((λ r. (refl, refl)), ap (λ q. q.users) (sym (ok-injective e1))),
    )

pub confirm_link-users :
    (sql_lower to_lower : String → String) (c : EmailConfirmation) (token : String) (v : Vault)
    {w : Vault}
    → confirm_link sql_lower to_lower c token v ≡ ok w
    → (user : ℕ) × (f : (User → User)) × WrittenAt user f v w
unfolding confirm_link
confirm_link-users sql_lower to_lower c token v e =
    let (u, locked, e1) = bind-ok (lock_user c.user_id v) _ e in
    let (there, e2) =
      refuse_if-ok (not (count (same_link c token v.now) v.confirmations == 1)) _ _ e1 in
    let (asked, e3) =
      refuse_if-ok (not (str_eq c.email u.pending_email) && not (str_eq c.email u.email)) _ _ e2 in
    let (free, e4) =
      refuse_if-ok
        (any (λ r. str_eq (sql_lower r.email) (to_lower c.email) && not (r.id == u.id)) v.users) _ _
        e3 in
    (
      u.id,
      confirmed c.email,
      (
        (λ r. (refl, refl)),
        ap (λ q. q.users) (sym (ok-injective e4)) ∙ same_write (str_eq u.email c.email) u,
      ),
    )
  where
    same_write :
        (t : Bool) (u : User)
        → (update_user u.id (confirmed c.email) (
            if t
            then record v { confirmations = delete (same_link c token v.now) v.confirmations }
            else drop_resets u.id (record v {
              confirmations = delete (same_link c token v.now) v.confirmations;
            }))).users
          ≡ update (has_id u.id) (λ r. record (confirmed c.email r) { updated_at = v.now }) v.users
    same_write true u = refl
    same_write false u = refl
