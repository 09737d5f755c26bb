-- ===== src/Models/User.antt =====
-- Accounts, subuser grants and their permissions (internal/models/user.go, access.go,
-- adminrole.go and username.go).
use quetzal.Prelude.{
  ℕ, String, Bool, true, false, Option, none, some, List, [], ◌∷◌, if◌then◌else◌, str_eq,
}

-- A quota of `none` is `QuotaUnlimited`, which has no bound; the last step is `none`
-- where the column is NULL.
pub record User : Type 0 where
  pub id : ℕ
  pub username : String
  pub password_hash : String
  pub email : String
  pub email_verified : Bool
  pub pending_email : String
  pub is_admin : Bool
  pub admin_role_id : Option ℕ
  pub created_at : ℕ
  pub updated_at : ℕ
  pub admin_perms : List String
  pub max_servers : Option ℕ
  pub max_memory_mb : Option ℕ
  pub max_cpu_milli : Option ℕ
  pub totp_secret_enc : String
  pub totp_enabled : Bool
  pub last_totp_step : Option ℕ
  pub recovery_codes : List String

pub record ServerAccess : Type 0 where
  pub id : ℕ
  pub created_at : ℕ
  pub updated_at : ℕ
  pub server_id : ℕ
  pub user_id : ℕ
  pub permissions : List String
  pub username : String

-- The loop `for _, x := range xs { if x == p { return true } }`.
unfoldable pub contains : List String → String → Bool
contains [] p = false
contains (x ∷ xs) p = if str_eq x p then true else contains xs p

abbrev pub all_permissions : List String
all_permissions =
    "view" ∷ "power" ∷ "console" ∷ "schedules" ∷ "backups" ∷ "files" ∷ "settings" ∷ "databases"
    ∷ "delete" ∷ []

unfoldable pub valid_permission : String → Bool
unfolding contains
valid_permission p = contains all_permissions p

unfoldable pub access_has : ServerAccess → String → Bool
unfolding contains
access_has a p = contains a.permissions p

-- A nil user holds nothing.
unfoldable pub has_admin_perm : Option User → String → Bool
unfolding contains
has_admin_perm none p = false
has_admin_perm (some u) p = if u.is_admin then true else contains u.admin_perms p
