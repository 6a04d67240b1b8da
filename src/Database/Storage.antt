-- ===== src/Database/Storage.antt =====
-- app/database.py, the tables of administrators, of storage cleanup and of downloads; and the files of
-- the server's data directory, which the stores read and write beside the tables.
use cloudlink.Prelude.{ℕ, Bool, String, List, Option}
use cloudlink.Database.Tasks.{Time}

pub record Credential : Type 0 where
  pub username : String
  pub password_hash : String
  pub updated_at : Time

pub data RunStatus : Type 0 where
  running completed : RunStatus

pub record CleanupRun : Type 0 where
  pub id : String
  pub cleanup_type : String
  pub dry_run : Bool
  pub requested_by : String
  pub reason : String
  pub filter : Option String
  pub candidate_count : ℕ
  pub processed_count : ℕ
  pub skipped_count : ℕ
  pub estimated_bytes : ℕ
  pub released_bytes : ℕ
  pub status : RunStatus
  pub created_at : Time
  pub completed_at : Option Time

pub data ItemStatus : Type 0 where
  preview released purging purged skipped : ItemStatus

pub record CleanupItem : Type 0 where
  pub run_id : String
  pub object_type : String
  pub object_id : String
  pub action : String
  pub status : ItemStatus
  pub size_bytes : ℕ
  pub reason : String
  pub created_at : Time

pub record DownloadLease : Type 0 where
  pub id : String
  pub artifact_id : String
  pub expires_at : Time
  pub created_at : Time

pub data FileKind : Type 0 where
  regular symlink other : FileKind

-- A file by its path; the content is its bytes, of a link those that it leads to.
pub record File : Type 0 where
  pub path : String
  pub kind : FileKind
  pub content : List ℕ
