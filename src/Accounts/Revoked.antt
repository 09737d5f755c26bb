-- ===== src/Accounts/Revoked.antt =====
-- What a change of password takes from an account (Accounts).
use quetzal.Prelude.{
  ℕ, String, Bool, true, false, List, ◌≡◌, ◌≢◌, ◌⊎◌, ◌==◌, refl, subst, ap, ◌∙◌, delete, update,
  Memᴰ-update, str_eq, eq_iff, Bool-cases, count, first, Memᴰ, Memᴰ-delete, delete-Memᴰ, Error, ok,
  err, arith, Option-cases, inl, inr, count-none,
}
use quetzal.Models.User.{User}
use quetzal.Models.Credentials.{Session, PasswordReset}
use quetzal.Accounts.{
  Vault, lock_user, change_password, update_user_password, reset_password, ended_by, same_reset,
  has_id,
}
use quetzal.Accounts.Writes.{update_user_password-eq, reset_password-eq}

-- `after` holds exactly the rows of `before` that may stay.
abbrev pub Leaves : {A : Type 0} → (A → Type 0) → List A → List A → Type 0
Leaves {A = A} P before after =
    ((x : A) → Memᴰ x after → Memᴰ x before × P x) × ((x : A) → Memᴰ x before → P x → Memᴰ x after)

delete-Leaves :
    {A : Type 0} (P : A → Type 0) (p : A → Bool) (xs : List A)
    → ((x : A) → p x ≡ false → P x)
    → ((x : A) → P x → p x ≡ false)
    → Leaves P xs (delete p xs)
delete-Leaves P p xs holds misses = (
  (λ x m. let (old, miss) = Memᴰ-delete p xs m in (old, holds x miss)),
  (λ x m h. delete-Memᴰ p xs m (misses x h)),
)

-- A session that a change of password leaves: another account's, or the one to be kept.
abbrev pub Survives : ℕ → String → Session → Type 0
Survives id keep s = (s.user_id ≢ id) ⊎ ((keep ≢ "") × (s.token ≡ keep))

-- The account has the new password, and the rows that are left are those of other accounts and the
-- session to be kept.
pub record SignedOut (id : ℕ) (hash keep : String) (v v' : Vault) : Type 0 where
  pub password_set : (u : User) → Memᴰ u v'.users → u.id ≡ id → u.password_hash ≡ hash
  pub sessions_left : Leaves (Survives id keep) v.sessions v'.sessions
  pub resets_left : Leaves (λ r. r.user_id ≢ id) v.resets v'.resets
  pub confirmations_left : Leaves (λ r. r.user_id ≢ id) v.confirmations v'.confirmations

ended_by-Survives :
    (id : ℕ) (keep : String) (s : Session) → ended_by id keep s ≡ false → Survives id keep s
ended_by-Survives id keep s h = elim (Bool-cases (s.user_id == id)) [
  | inr other ↦ inl (ground (arith, other))
  | inl own ↦
      let none_kept : str_eq keep "" ≡ false = ground (arith, own, h) in
      let same : str_eq s.token keep ≡ true = ground (arith, own, h) in
      inr (
        (λ e. let blank = (eq_iff keep "").1 e in absurd (ground (arith, blank, none_kept))),
        (eq_iff s.token keep).0 same,
      )
]

Survives-ended_by :
    (id : ℕ) (keep : String) (s : Session) → Survives id keep s → ended_by id keep s ≡ false
Survives-ended_by id keep s (inl other) = ground (arith, other)
Survives-ended_by id keep s (inr (kept, same)) =
    let e = (eq_iff s.token keep).1 same in
    elim (Bool-cases (str_eq keep "")) [
      | inl blank ↦ absurd (kept ((eq_iff keep "").0 blank))
      | inr some_kept ↦ ground (arith, e, some_kept)
    ]

other_owner : (i id : ℕ) → (i == id) ≡ false → i ≢ id
other_owner i id h = ground (arith, h)

owner_other : (i id : ℕ) → i ≢ id → (i == id) ≡ false
owner_other i id h = ground (arith, h)

password_set_on :
    (id : ℕ) (hash : String) (f : User → User) (users : List User) (u : User)
    → ((r : User) → (f r).password_hash ≡ hash)
    → Memᴰ u (update (has_id id) f users)
    → u.id ≡ id
    → u.password_hash ≡ hash
password_set_on id hash f users u sets m own =
    let (old, was, e) = Memᴰ-update (has_id id) f users m in
    elim (Bool-cases (has_id id old)) [
      | inl hit ↦ let e' : u ≡ f old = rw hit at e in ap (λ r. r.password_hash) e' ∙ sets old
      | inr miss ↦
          let e' : u ≡ old = rw miss at e in
          let same : u.id ≡ old.id = ap (λ r. r.id) e' in absurd (ground (arith, miss, own, same))
    ]

-- A password that is changed with a check of the current one is the account's from then on. It takes
-- with it the account's reset links, its confirmations and its sessions but for one: the sessions
-- that are left are those of other accounts and, if a token is given to keep, the account's session
-- with that token; the links that are left are other accounts', and none of these is lost.
pub update_user_password-SignedOut :
    (id : ℕ) (hash verified keep : String) (v v' : Vault)
    → update_user_password id hash verified keep v ≡ ok v'
    → SignedOut id hash keep v v'
unfolding change_password
update_user_password-SignedOut id hash verified keep v v' h =
    subst (SignedOut id hash keep v) (update_user_password-eq id hash verified keep v h) (record {
      password_set = λ u m own. password_set_on id hash _ v.users u (λ r. refl) m own;
      sessions_left =
          delete-Leaves (Survives id keep) (ended_by id keep) v.sessions (ended_by-Survives id keep)
            (Survives-ended_by id keep);
      resets_left =
          delete-Leaves (λ r. r.user_id ≢ id) (λ r. r.user_id == id) v.resets
            (λ r. other_owner r.user_id id) (λ r. owner_other r.user_id id);
      confirmations_left =
          delete-Leaves (λ r. r.user_id ≢ id) (λ r. r.user_id == id) v.confirmations
            (λ r. other_owner r.user_id id) (λ r. owner_other r.user_id id);
    })

-- A link that is no longer in the table changes nothing.
no_link :
    (pr : PasswordReset) (hash : String) (w : Vault)
    → ((r : PasswordReset) → Memᴰ r w.resets → (r.user_id == pr.user_id) ≡ false)
    → (e : Error) × (reset_password pr hash w ≡ err e)
unfolding reset_password lock_user
no_link pr hash w none_left =
    let nothing : count (same_reset pr w.now) w.resets ≡ 0 =
      count-none (same_reset pr w.now) w.resets
        (λ r m. let other = none_left r m in ground (arith, other)) in
    elim (Option-cases (first (has_id pr.user_id) w.users)) [
      | inl unknown ↦ (Error.not_found, rw unknown refl)
      | inr (u, known) ↦ (Error.not_found, rw known (rw nothing refl))
    ]

-- A reset link that is used ends every session and every link of its account, and no link of the
-- account that was read before, itself included, can be used on what is left.
pub reset_password-once :
    (pr again : PasswordReset) (hash hash' : String) (v v' : Vault)
    → reset_password pr hash v ≡ ok v'
    → again.user_id ≡ pr.user_id
    → ((s : Session) → Memᴰ s v'.sessions → (s.user_id == pr.user_id) ≡ false)
      × ((e : Error) × (reset_password again hash' v' ≡ err e))
unfolding change_password
reset_password-once pr again hash hash' v v' h same =
    let now = reset_password-eq pr hash v h in
    (
      subst (λ q. (s : Session) → Memᴰ s q.sessions → (s.user_id == pr.user_id) ≡ false) now
          (λ s m.
            let (old, gone) = Memᴰ-delete (ended_by pr.user_id "") v.sessions m in
            ground (arith, gone)),
      no_link again hash' v' (
          subst (λ q. (r : PasswordReset) → Memᴰ r q.resets → (r.user_id == again.user_id) ≡ false)
            now
            (λ r m.
              let (old, gone) = Memᴰ-delete (λ r. r.user_id == pr.user_id) _ m in
              ground (arith, gone, same))),
    )
