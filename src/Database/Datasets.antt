-- ===== src/Database/Datasets.antt =====
-- app/database.py, the tables `datasets`, `dataset_versions` and `worker_dataset_caches`.
use cloudlink.Prelude.{ℕ, Bool, String, Option}
use cloudlink.Database.Tasks.{Time}

pub data CacheStatus : Type 0 where
  downloading cached extracted delete_requested deleted orphaned : CacheStatus
  other_status : String → CacheStatus

pub data CopyStatus : Type 0 where
  available releasing released : CopyStatus

pub record Dataset : Type 0 where
  pub id : String
  pub name : String
  pub title : String
  pub description : String
  pub created_at : Time
  pub updated_at : Time
  pub archived_at : Option Time

pub record DatasetVersion : Type 0 where
  pub id : String
  pub dataset_id : String
  pub version : String
  pub source_kind : String
  pub server_path : String
  pub original_path : Option String
  pub size_bytes : ℕ
  pub checksum_sha256 : Option String
  pub content_type : Option String
  pub archive_format : Option String
  pub extract_required : Bool
  pub manifest : String
  pub created_by : String
  pub created_at : Time
  pub deleted_at : Option Time
  pub server_copy_status : CopyStatus
  pub server_copy_released_at : Option Time
  pub server_copy_release_reason : Option String

pub record Cache : Type 0 where
  pub worker_id : String
  pub dataset_version_id : String
  pub status : CacheStatus
  pub local_archive_path : Option String
  pub local_extracted_path : Option String
  pub size_bytes : ℕ
  pub extracted_size_bytes : ℕ
  pub checksum_sha256 : Option String
  pub data_root_path : Option String
  pub last_used_at : Option Time
  pub last_error : Option String
  pub updated_at : Time
