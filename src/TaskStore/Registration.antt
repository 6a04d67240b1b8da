-- ===== src/TaskStore/Registration.antt =====
-- `register_worker`, `update_worker_settings` and what the worker is told of its settings.
pub mod Registered
use cloudlink.Prelude.{
  ℕ, zero, suc, Bool, true, false, ◌&&◌, ◌||◌, not, String, List, [], ◌∷◌, ◌++◌, map, Option, none,
  some, if◌then◌else◌, ◌==◌, string_eq, ltb, nat_eq, any, contains, select, find, update_where,
  coalesce, or_else, or_none, strip, text_of, text_or, non_empty, codes, ℤ, pos, negsuc, is_some,
}
use cloudlink.Prelude.Double.{float}
use cloudlink.Errors.{Result, ok, err, raise_if, task_conflict}
use cloudlink.Prelude.Paths.{◌+++◌}
use cloudlink.Database.Tasks.{Time}
use cloudlink.Database.Workers.{
  Worker, HardwareProfile, RuntimeProfile, CapacityState, DatasetRoot, active,
}
use cloudlink.ResourceModel.Profile.{ReserveOverrides}
use cloudlink.Database.Action.{Db, Settings, Action, ◌>>=◌, ◌>>◌, query, execute}
use cloudlink.TaskStore.Workers.{get_worker, has_worker_id}
use cloudlink.TaskStore.Touch.{on_worker, at_least_one, non_negative}
use cloudlink.TaskStore.Roots.{
  Root, stored_root, normalize_dataset_roots, preserve_existing_dataset_roots,
  effective_dataset_roots,
}

abbrev codes_before : List ℕ → List ℕ → Bool
codes_before [] [] = false
codes_before [] (b ∷ t) = true
codes_before (a ∷ s) [] = false
codes_before (a ∷ s) (b ∷ t) = ltb a b || (a == b && codes_before s t)

-- `sorted(set(...))`
abbrev insert_text : String → List String → List String
insert_text x [] = x ∷ []
insert_text x (y ∷ ys) =
    let rest = insert_text x ys in
    if x == y then y ∷ ys else if codes_before (codes x) (codes y) then x ∷ y ∷ ys else y ∷ rest

unfoldable pub sorted_set : List String → List String
sorted_set [] = []
sorted_set (x ∷ xs) = insert_text x (sorted_set xs)

-- The arguments of `register_worker`.
pub record Registration : Type 0 where
  pub worker_id : String
  pub display_name : String
  pub supported_types : List String
  pub enabled : Bool
  pub install_platform : Option String
  pub hardware_profile : Option HardwareProfile
  pub runtime_profile : Option RuntimeProfile
  pub capacity_state : Option CapacityState
  pub max_concurrent_tasks : ℤ
  pub active_task_count : ℤ
  pub worker_secret_hash : Option String
  pub gpu_requested : Bool
  pub gpu_environment_path : Option String

abbrev pub registered_row : Time → Registration → List String → ℕ → ℕ → Worker
registered_row now r types concurrent running = record {
  worker_id = r.worker_id;
  display_name = text_or r.display_name r.worker_id;
  supported_types = types;
  install_platform = r.install_platform;
  enabled = r.enabled;
  hardware_profile = r.hardware_profile;
  runtime_profile = r.runtime_profile;
  capacity_state = r.capacity_state;
  worker_secret_hash = r.worker_secret_hash;
  dataset_root_checks = none;
  max_concurrent_tasks = concurrent;
  active_task_count = running;
  configured_job_root = none;
  configured_dataset_roots = [];
  configured_reserve_overrides = none;
  registered_at = now;
  updated_at = now;
  last_seen_at = none;
  last_claimed_at = none;
  last_error = none;
  lifecycle_status = active;
  lifecycle_updated_at = some now;
  gpu_requested = r.gpu_requested;
  gpu_environment_path = r.gpu_environment_path;
}

-- `ON CONFLICT(worker_id) DO UPDATE`
abbrev pub registered_again : Worker → Worker → Worker
registered_again new w = record w {
  display_name = new.display_name;
  supported_types = new.supported_types;
  install_platform = coalesce new.install_platform w.install_platform;
  enabled = new.enabled;
  hardware_profile = new.hardware_profile;
  runtime_profile = new.runtime_profile;
  capacity_state = new.capacity_state;
  worker_secret_hash = coalesce new.worker_secret_hash w.worker_secret_hash;
  max_concurrent_tasks = new.max_concurrent_tasks;
  active_task_count = new.active_task_count;
  lifecycle_status = active;
  lifecycle_updated_at = new.lifecycle_updated_at;
  gpu_requested = new.gpu_requested;
  gpu_environment_path = new.gpu_environment_path;
  updated_at = new.updated_at;
}

abbrev pub upsert_worker : Worker → Db → Db
upsert_worker new db =
    if any (has_worker_id new.worker_id) db.workers
    then on_worker new.worker_id (registered_again new) db
    else record db { workers = db.workers ++ new ∷ [] }

abbrev pub allowed_types : Settings → List String → List String
allowed_types settings supported =
    sorted_set (select (λ t. contains t settings.allowed_task_types) supported)

abbrev pub is_nil : List String → Bool
is_nil [] = true
is_nil (x ∷ xs) = false

unfoldable pub register_worker : Settings → Time → Registration → Action Worker
register_worker settings now r = do
  query (λ db.
      raise_if (is_nil (allowed_types settings r.supported_types))
        (task_conflict "Worker must support at least one allowed task type"))
  concurrent ← query (λ db. at_least_one (some r.max_concurrent_tasks))
  running ← query (λ db. non_negative (some r.active_task_count))
  execute (
      upsert_worker (
        registered_row now r (allowed_types settings r.supported_types) (or_else concurrent 1)
          (or_else running 0)))
  query (λ db. get_worker db r.worker_id)

-- A value of `reserve_overrides`: absent or blank, an integer, another number by its sign, or what
-- `float` refuses.
pub data ReserveValue : Type 0 where
  absent : ReserveValue
  integer : ℤ → ReserveValue
  fraction : Bool → ReserveValue
  no_number : ReserveValue

abbrev pub read_reserve : String → ReserveValue → Result (Option ℕ)
read_reserve key absent = ok none
read_reserve key (integer (pos n)) = ok (some (float n))
read_reserve key (integer (negsuc n)) = err (task_conflict (key +++ " must be non-negative"))
read_reserve key (fraction true) = err (task_conflict (key +++ " must be non-negative"))
read_reserve key (fraction false) = err (task_conflict (key +++ " must be an integer"))
read_reserve key no_number = err (task_conflict (key +++ " must be a number"))

pub record ReserveRequest : Type 0 where
  pub cpu_cores : ReserveValue
  pub memory_bytes : ReserveValue
  pub job_disk_bytes : ReserveValue
  pub dataset_disk_bytes : ReserveValue
  pub gpu_memory_bytes : ReserveValue

unfoldable pub normalize_reserve_overrides : ReserveRequest → Action ReserveOverrides
normalize_reserve_overrides r = do
  cpu ← query (λ db. read_reserve "cpu_cores" r.cpu_cores)
  memory ← query (λ db. read_reserve "memory_bytes" r.memory_bytes)
  job_disk ← query (λ db. read_reserve "job_disk_bytes" r.job_disk_bytes)
  dataset_disk ← query (λ db. read_reserve "dataset_disk_bytes" r.dataset_disk_bytes)
  gpu_memory ← query (λ db. read_reserve "gpu_memory_bytes" r.gpu_memory_bytes)
  query (λ db. ok (record {
    cpu_cores = cpu;
    memory_bytes = memory;
    job_disk_bytes = job_disk;
    dataset_disk_bytes = dataset_disk;
    disk_bytes = none;
    gpu_memory_bytes = gpu_memory;
  }))

-- The optional arguments of `update_worker_settings`.
pub record SettingsChange : Type 0 where
  pub job_root : Option String
  pub dataset_roots : Option (List DatasetRoot)
  pub reserve_overrides : Option ReserveRequest

abbrev new_roots : Db → Worker → Option (List DatasetRoot) → Result (List DatasetRoot)
new_roots db w none = ok w.configured_dataset_roots
new_roots db w (some roots) = elim (normalize_dataset_roots roots) [
  | err e ↦ err e
  | ok submitted ↦ elim (preserve_existing_dataset_roots db w submitted) [
    | err e ↦ err e
    | ok kept ↦ ok (map stored_root kept)
  ]
]

abbrev new_reserve : Worker → Option ReserveRequest → Action (Option ReserveOverrides)
new_reserve w none = query (λ db. ok w.configured_reserve_overrides)
new_reserve w (some r) = normalize_reserve_overrides r >>= λ o. query (λ db. ok (some o))

abbrev pub settings_changed :
    Time → Option ℕ → Option String → List DatasetRoot → Option ReserveOverrides → Worker → Worker
settings_changed now concurrent job_root roots reserve w = record w {
  max_concurrent_tasks = or_else concurrent w.max_concurrent_tasks;
  configured_job_root = job_root;
  configured_dataset_roots = roots;
  configured_reserve_overrides = reserve;
  updated_at = now;
}

unfoldable pub update_worker_settings : Time → String → ℤ → SettingsChange → Action Worker
update_worker_settings now worker_id max_concurrent_tasks change = do
  concurrent ← query (λ db. at_least_one (some max_concurrent_tasks))
  worker ← query (λ db. get_worker db worker_id)
  roots ← query (λ db. new_roots db worker change.dataset_roots)
  reserve ← new_reserve worker change.reserve_overrides
  execute (
      on_worker worker_id (
        settings_changed now concurrent
          (coalesce (or_none (strip (text_of change.job_root))) worker.configured_job_root) roots
          reserve))
  query (λ db. get_worker db worker_id)

-- What a worker is told.
pub record WorkerSettings : Type 0 where
  pub max_concurrent_tasks : ℕ
  pub job_root : Option String
  pub dataset_roots : List Root
  pub reserve_overrides : Option ReserveOverrides

abbrev runtime_job_root : Option RuntimeProfile → Option String
runtime_job_root none = none
runtime_job_root (some p) = p.job_root

abbrev one_or_more : ℕ → ℕ
one_or_more zero = 1
one_or_more (suc n) = suc n

-- `a or b` of optional texts.
abbrev filled_or : Option String → Option String → Option String
filled_or none b = b
filled_or (some a) b = if non_empty a then some a else b

unfoldable pub effective_worker_settings : Worker → Result WorkerSettings
effective_worker_settings w = elim (effective_dataset_roots w) [
  | err e ↦ err e
  | ok roots ↦ ok (record {
    max_concurrent_tasks = one_or_more w.max_concurrent_tasks;
    job_root = filled_or w.configured_job_root (runtime_job_root w.runtime_profile);
    dataset_roots = roots;
    reserve_overrides = w.configured_reserve_overrides;
  })
]
