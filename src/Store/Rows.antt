-- ===== src/Store/Rows.antt =====
-- internal/store/store.go: the rows of the tables, and the database that `migrate` sets up.
use xx_drive.Prelude.{ℕ, Bool, List, [], Option}
use xx_drive.Prelude.Bytes.{Bytes}

-- `fabric_id` is NULL for a local password user.
pub record User : Type 0 where
  pub id : ℕ
  pub username : Bytes
  pub password_hash : Bytes
  pub is_admin : Bool
  pub disabled : Bool
  pub created_at : ℕ
  pub fabric_id : Option Bytes

pub record Session : Type 0 where
  pub token_hash : Bytes
  pub user_id : ℕ
  pub label : Bytes
  pub created_at : ℕ
  pub last_seen : ℕ
  pub expires_at : ℕ

-- An `expires_at` of 0 means never.
pub record Share : Type 0 where
  pub id : ℕ
  pub token_hash : Bytes
  pub user_id : ℕ
  pub path : Bytes
  pub has_password : Bool
  pub password_hash : Bytes
  pub allow_download : Bool
  pub expires_at : ℕ
  pub created_at : ℕ
  pub revoked : Bool

pub record Star : Type 0 where
  pub user_id : ℕ
  pub path : Bytes

pub record Event : Type 0 where
  pub id : ℕ
  pub user_id : ℕ
  pub kind : Bytes
  pub detail : Bytes
  pub created_at : ℕ

pub record Version : Type 0 where
  pub id : ℕ
  pub user_id : ℕ
  pub path : Bytes
  pub version_id : Bytes
  pub size : ℕ
  pub created_at : ℕ

pub record Etag : Type 0 where
  pub user_id : ℕ
  pub path : Bytes
  pub size : ℕ
  pub mtime : ℕ
  pub sha256 : Bytes

-- The tables, and for each AUTOINCREMENT key a number above all that were given out.
pub record Db : Type 0 where
  pub users : List User
  pub sessions : List Session
  pub shares : List Share
  pub stars : List Star
  pub events : List Event
  pub versions : List Version
  pub etags : List Etag
  pub next_user : ℕ
  pub next_share : ℕ
  pub next_event : ℕ
  pub next_version : ℕ

abbrev pub empty : Db
empty = record {
  users = [];
  sessions = [];
  shares = [];
  stars = [];
  events = [];
  versions = [];
  etags = [];
  next_user = 1;
  next_share = 1;
  next_event = 1;
  next_version = 1;
}
