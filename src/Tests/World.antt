-- ===== src/Tests/World.antt =====
-- A small system: two workers, three tasks, one of them held by the first worker, and one dataset
-- version that has been deleted.
use cloudlink.Prelude.{true, false, String, [], ◌∷◌, none, some}
use cloudlink.ResourceModel.Types.{ResourceRequest, Capacity}
use cloudlink.Database.Tasks.{Task, Payload, pending, running}
use cloudlink.Database.Workers.{Worker, active}
use cloudlink.Database.Action.{Db, Settings}
use cloudlink.TaskStore.Submit.{NewTask}

abbrev pub settings : Settings
settings = record {
  cloudlink_version = "2026.07.29.1";
  minimum_worker_version = "2026.07.01";
  minimum_gpu_worker_version = "2026.07.01";
  task_lock_seconds = 60;
  max_pending_tasks = 10;
  queue_timeout_seconds = 3600;
  starvation_protection_seconds = 300;
  worker_online_seconds = 30;
  allowed_task_types = "script_job" ∷ [];
  max_json_bytes = 1000;
  max_text_bytes = 1000;
  artifact_retention_seconds = 86400;
  admin_username = "admin";
  admin_password = "";
  worker_secret = "worker-key";
  internal_api_secret = "";
  codex_tokens = [];
}

abbrev pub plain_payload : Payload
plain_payload = record {
  encoded = "{}";
  runtime = none;
  resource_request = none;
  datasets = [];
  context_group_id = none;
}

abbrev pub two_cores : ResourceRequest
two_cores = record {
  cpu_cores = 2;
  memory_bytes = 1000;
  job_disk_bytes = 0;
  dataset_disk_bytes = 0;
  expected_runtime_seconds = 0;
  concurrency_slots = 1;
  gpu = record { required = false; count = 0; memory_bytes = 0 };
}

abbrev pub new_task : NewTask
new_task = record {
  task_type = "script_job";
  payload = plain_payload;
  title = "train";
  description = "";
  submitter_id = some "ann";
  group_id = none;
}

abbrev pub waiting : String → Task
waiting id = record {
  id = id;
  type = "script_job";
  status = pending;
  title = "train";
  description = "";
  payload = plain_payload;
  result = none;
  error = none;
  logs = none;
  created_at = 5000000;
  updated_at = 5000000;
  started_at = none;
  finished_at = none;
  locked_by = none;
  locked_until = none;
  lease_id = none;
  completion_lease_id = none;
  result_sha256 = none;
  resource_request = some two_cores;
  resource_reservation = none;
  submitter_id = some "ann";
  group_id = none;
  error_code = none;
  cancel_requested_at = none;
  cancel_reason = none;
  retry_count = 0;
}

-- Held by the first worker until the 40th second.
abbrev pub held : Task
held = record (waiting "held") {
  status = running;
  started_at = some 6000000;
  locked_by = some "w1";
  locked_until = some 40000000;
  lease_id = some "l0";
  resource_reservation = some two_cores;
}

abbrev pub lost_data : Task
lost_data = record (waiting "lost_data") {
  payload = record plain_payload {
    datasets = record { required = none; dataset_version_id = some "gone" } ∷ [];
  };
}

abbrev pub eight_cores : Capacity
eight_cores = record {
  cpu_cores = some 8;
  memory_bytes = some 100000;
  job_disk_bytes = some 100000;
  dataset_disk_bytes = some 100000;
  gpu_devices = [];
}

abbrev pub worker : String → Worker
worker id = record {
  worker_id = id;
  display_name = id;
  supported_types = "script_job" ∷ [];
  install_platform = some "linux";
  enabled = true;
  hardware_profile = some (record { raw = none; scheduler = some eight_cores });
  runtime_profile = some (record {
    cloudlink_version = some "2026.07.29";
    system = some "Linux";
    gpu_runtime = none;
    dataset_root = none;
    dataset_roots = [];
    job_root = none;
  });
  capacity_state = none;
  worker_secret_hash = none;
  dataset_root_checks = none;
  max_concurrent_tasks = 2;
  active_task_count = 0;
  configured_job_root = none;
  configured_dataset_roots = [];
  configured_reserve_overrides = none;
  registered_at = 1000000;
  updated_at = 1000000;
  last_seen_at = some 9000000;
  last_claimed_at = none;
  last_error = none;
  lifecycle_status = active;
  lifecycle_updated_at = none;
  gpu_requested = false;
  gpu_environment_path = none;
}

abbrev pub world : Db
world = record {
  tasks = held ∷ waiting "t1" ∷ waiting "t2" ∷ [];
  artifacts = [];
  workers = worker "w1" ∷ worker "w2" ∷ [];
  datasets = [];
  versions = [];
  caches = [];
  install_invites = [];
  uninstall_invites = [];
  audit = [];
  credentials = [];
  cleanup_runs = [];
  cleanup_items = [];
  download_leases = [];
  files = [];
}
