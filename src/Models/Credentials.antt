-- ===== src/Models/Credentials.antt =====
-- Rows that hang on a server or on an account (internal/models/invite.go, upload.go,
-- sftpcursor.go, apikey.go, sshkey.go, passwordreset.go and user.go): invitations, uploads,
-- credentials and sessions.
use quetzal.Prelude.{ℕ, String, Option, List}

pub record ServerInvite : Type 0 where
  pub id : ℕ
  pub created_at : ℕ
  pub server_id : ℕ
  pub email : String
  pub permissions : List String
  pub invited_by : ℕ
  pub token_hash : String
  pub expires_at : ℕ

pub record FileUpload : Type 0 where
  pub id : String
  pub created_at : ℕ
  pub server_id : ℕ
  pub user_id : ℕ
  pub path : String
  pub kind : String
  pub format : String
  pub size : ℕ
  pub expires_at : ℕ
  pub locked_until : ℕ

pub record SftpCursor : Type 0 where
  pub server_id : ℕ
  pub seen : ℕ

pub record ApiKey : Type 0 where
  pub id : ℕ
  pub created_at : ℕ
  pub user_id : ℕ
  pub name : String
  pub prefix : String
  pub hash : String
  pub last_used_at : Option ℕ

pub record Session : Type 0 where
  pub token : String
  pub user_id : ℕ
  pub expires_at : ℕ
  pub created_at : ℕ

pub record SshKey : Type 0 where
  pub id : ℕ
  pub created_at : ℕ
  pub user_id : ℕ
  pub name : String
  pub public_key : String
  pub fingerprint : String

pub record PasswordReset : Type 0 where
  pub id : ℕ
  pub user_id : ℕ
  pub token_hash : String
  pub expires_at : ℕ
  pub created_at : ℕ

pub record EmailConfirmation : Type 0 where
  pub id : ℕ
  pub user_id : ℕ
  pub email : String
  pub token_hash : String
  pub expires_at : ℕ
  pub created_at : ℕ
