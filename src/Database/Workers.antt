-- ===== src/Database/Workers.antt =====
-- app/database.py, the tables `worker_nodes`, `worker_uninstall_invites`, `worker_install_invites`
-- and `worker_lifecycle_audit`. The JSON profiles are records of the keys that the server reads.
use cloudlink.Prelude.{ℕ, Bool, String, List, Option}
use cloudlink.Database.Tasks.{Time}
use cloudlink.ResourceModel.Types.{Capacity}
use cloudlink.ResourceModel.Profile.{RawProfile, ReserveOverrides}

pub record HardwareProfile : Type 0 where
  pub raw : Option RawProfile
  pub scheduler : Option Capacity

pub record GpuRuntime : Type 0 where
  pub enabled : Bool
  pub verified : Bool

pub record DatasetRoot : Type 0 where
  pub path : String
  pub mode : String
  pub label : Option String

pub record RuntimeProfile : Type 0 where
  pub cloudlink_version : Option String
  pub system : Option String
  pub gpu_runtime : Option GpuRuntime
  pub dataset_root : Option String
  pub dataset_roots : List DatasetRoot
  pub job_root : Option String

-- What a worker reports to be free, under the canonical keys and under the older names.
pub record CapacityState : Type 0 where
  pub canonical : Capacity
  pub memory_available_bytes : Option ℕ
  pub job_disk_free_bytes : Option ℕ
  pub dataset_disk_free_bytes : Option ℕ

pub data Lifecycle : Type 0 where
  active uninstalling lost : Lifecycle

pub record Worker : Type 0 where
  pub worker_id : String
  pub display_name : String
  pub supported_types : List String
  pub install_platform : Option String
  pub enabled : Bool
  pub hardware_profile : Option HardwareProfile
  pub runtime_profile : Option RuntimeProfile
  pub capacity_state : Option CapacityState
  pub worker_secret_hash : Option String
  pub dataset_root_checks : Option String
  pub max_concurrent_tasks : ℕ
  pub active_task_count : ℕ
  pub configured_job_root : Option String
  pub configured_dataset_roots : List DatasetRoot
  pub configured_reserve_overrides : Option ReserveOverrides
  pub registered_at : Time
  pub updated_at : Time
  pub last_seen_at : Option Time
  pub last_claimed_at : Option Time
  pub last_error : Option String
  pub lifecycle_status : Lifecycle
  pub lifecycle_updated_at : Option Time
  pub gpu_requested : Bool
  pub gpu_environment_path : Option String

pub record UninstallInvite : Type 0 where
  pub token_hash : String
  pub token_preview : String
  pub worker_id : String
  pub public_base_url : String
  pub expires_at : Time
  pub begun_at : Option Time
  pub completed_at : Option Time
  pub created_at : Time

pub record InstallInvite : Type 0 where
  pub token_hash : String
  pub token_preview : String
  pub worker_id : String
  pub display_name : String
  pub platform : String
  pub public_base_url : String
  pub expires_at : Time
  pub used_at : Option Time
  pub created_at : Time
  pub gpu_requested : Bool
  pub gpu_environment_path : Option String

pub data AuditAction : Type 0 where
  uninstalled archived_lost : AuditAction

pub record AuditEntry : Type 0 where
  pub id : String
  pub worker_id : String
  pub display_name : String
  pub platform : Option String
  pub action : AuditAction
  pub reason : String
  pub registered_at : Option Time
  pub last_seen_at : Option Time
  pub created_at : Time
