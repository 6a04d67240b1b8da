-- ===== src/ResourceModel/Types.antt =====
-- The dictionaries of app/resource_model.py as records. A key that may be missing is optional, and in a stored
-- profile `null` is read as a missing key.
use cloudlink.Prelude.{ℕ, Bool, String, List, Option}

-- The readings that are copied from a raw device as they are.
pub record Telemetry : Type 0 where
  pub driver_version : Option String
  pub utilization_percent : Option String
  pub temperature_c : Option String
  pub power_draw_watts : Option String
  pub power_limit_watts : Option String

pub record GpuDevice : Type 0 where
  pub name : String
  pub memory_bytes : ℕ
  pub memory_free_bytes : ℕ
  pub telemetry : Telemetry

pub record GpuRequest : Type 0 where
  pub required : Bool
  pub count : ℕ
  pub memory_bytes : ℕ

pub record ResourceRequest : Type 0 where
  pub cpu_cores : ℕ
  pub memory_bytes : ℕ
  pub job_disk_bytes : ℕ
  pub dataset_disk_bytes : ℕ
  pub expected_runtime_seconds : ℕ
  pub concurrency_slots : ℕ
  pub gpu : GpuRequest

pub record Capacity : Type 0 where
  pub cpu_cores : Option ℕ
  pub memory_bytes : Option ℕ
  pub job_disk_bytes : Option ℕ
  pub dataset_disk_bytes : Option ℕ
  pub gpu_devices : List GpuDevice

pub data Resource : Type 0 where
  cpu_cores memory_bytes job_disk_bytes dataset_disk_bytes : Resource

pub data Shortage : Type 0 where
  short : Resource → ℕ → Option ℕ → Shortage
  gpu_short : (requested_count requested_memory count max_memory : ℕ) → Shortage
