-- ===== src/Database/Action.antt =====
-- A store function as a computation over the database: it returns or raises, and what it wrote
-- before it raised stays written, since the connection is in autocommit mode (`isolation_level =
-- None`). `transaction` is BEGIN IMMEDIATE with ROLLBACK on an exception.
use cloudlink.Prelude.{ℕ, String, List}
use cloudlink.Errors.{Error, Result, ok, err}
use cloudlink.Database.Tasks.{Task, Artifact}
use cloudlink.Database.Workers.{Worker, UninstallInvite, InstallInvite, AuditEntry}
use cloudlink.Database.Storage.{Credential, CleanupRun, CleanupItem, DownloadLease, File}
use cloudlink.Database.Datasets.{Dataset, DatasetVersion, Cache}

pub record Db : Type 0 where
  pub tasks : List Task
  pub artifacts : List Artifact
  pub workers : List Worker
  pub datasets : List Dataset
  pub versions : List DatasetVersion
  pub caches : List Cache
  pub install_invites : List InstallInvite
  pub uninstall_invites : List UninstallInvite
  pub audit : List AuditEntry
  pub credentials : List Credential
  pub cleanup_runs : List CleanupRun
  pub cleanup_items : List CleanupItem
  pub download_leases : List DownloadLease
  pub files : List File

-- `Settings` of app/config.py, as far as the modelled code reads it.
pub record Settings : Type 0 where
  pub cloudlink_version : String
  pub minimum_worker_version : String
  pub minimum_gpu_worker_version : String
  pub task_lock_seconds : ℕ
  pub max_pending_tasks : ℕ
  pub queue_timeout_seconds : ℕ
  pub starvation_protection_seconds : ℕ
  pub worker_online_seconds : ℕ
  pub allowed_task_types : List String
  pub max_json_bytes : ℕ
  pub max_text_bytes : ℕ
  pub artifact_retention_seconds : ℕ
  pub admin_username : String
  pub admin_password : String
  pub worker_secret : String
  pub internal_api_secret : String
  pub codex_tokens : List (String × String)

abbrev pub Action : Type 0 → Type 0
Action A = Db → Result A × Db

module _ {A : Type 0} where
  unfoldable pub pure : A → Action A
  pure a db = (ok a, db)

  unfoldable pub raise : Error → Action A
  raise e db = (err e, db)

  -- A query: it reads the tables and may raise.
  unfoldable pub query : (Db → Result A) → Action A
  query f db = (f db, db)

  abbrev pub rollback : Db → Result A × Db → Result A × Db
  rollback before (ok a, after) = (ok a, after)
  rollback before (err e, after) = (err e, before)

  unfoldable pub transaction : Action A → Action A
  transaction m db = rollback db (m db)

abbrev pub bind_result : {A B : Type 0} → Result A × Db → (A → Action B) → Result B × Db
bind_result (ok a, db) f = f a db
bind_result (err e, db) f = (err e, db)

infixl 5 ◌>>=◌ ◌>>◌
unfoldable pub ◌>>=◌ : {A B : Type 0} → Action A → (A → Action B) → Action B
◌>>=◌ m f db = bind_result (m db) f

abbrev pub ◌>>◌ : {A B : Type 0} → Action A → Action B → Action B
m >> k = m >>= λ _. k

-- A statement that writes.
unfoldable pub execute : (Db → Db) → Action (Unit {0})
execute f db = (ok tt, f db)
