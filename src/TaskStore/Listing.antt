-- ===== src/TaskStore/Listing.antt =====
-- `list_workers`: every worker with what its running tasks hold taken off, and the totals over them.
use cloudlink.Prelude.{
  ℕ, ◌+◌, ◌*◌, min, Bool, true, false, ◌&&◌, ◌||◌, not, String, List, [], ◌∷◌, map, Option, none,
  some, if◌then◌else◌, ◌==◌, nat_eq, string_eq, ltb, codes, sum_of, length, or_else, is_some,
  count_where,
}
use cloudlink.Prelude.Double.{float}
use cloudlink.ResourceModel.Types.{GpuDevice, ResourceRequest, Capacity}
use cloudlink.ResourceModel.Fits.{count_or_one}
use cloudlink.ResourceModel.Profile.{ReserveOverrides, subtract_reserved_profile}
use cloudlink.Database.Tasks.{Time}
use cloudlink.Database.Workers.{Worker, HardwareProfile, CapacityState}
use cloudlink.Database.Action.{Db, Settings}
use cloudlink.TaskStore.Workers.{worker_is_schedulable}
use cloudlink.TaskStore.Capacity.{
  empty_capacity, empty_state, scheduler_of, reservations, subtract_running_reservations,
}

pub record Totals : Type 0 where
  pub cpu_cores : ℕ
  pub memory_bytes : ℕ
  pub job_disk_bytes : ℕ
  pub dataset_disk_bytes : ℕ
  pub gpu_count : ℕ
  pub gpu_memory_bytes : ℕ

abbrev gpu_count_of : ResourceRequest → ℕ
gpu_count_of r = if r.gpu.required then count_or_one r.gpu.count else 0

abbrev totals_of : List ResourceRequest → Totals
totals_of rs = record {
  cpu_cores = sum_of (λ r. r.cpu_cores) rs;
  memory_bytes = sum_of (λ r. r.memory_bytes) rs;
  job_disk_bytes = sum_of (λ r. r.job_disk_bytes) rs;
  dataset_disk_bytes = sum_of (λ r. r.dataset_disk_bytes) rs;
  gpu_count = sum_of gpu_count_of rs;
  gpu_memory_bytes = sum_of (λ r. gpu_count_of r * r.gpu.memory_bytes) rs;
}

running_resource_totals : Db → Time → String → Totals
running_resource_totals db now worker_id = totals_of (reservations worker_id now db.tasks)

abbrev is_set : Option ℕ → Bool
is_set o = is_some o

-- The truth of the dictionary of overrides.
abbrev has_overrides : ReserveOverrides → Bool
has_overrides o =
    is_set o.cpu_cores
    || is_set o.memory_bytes
    || is_set o.job_disk_bytes
    || is_set o.dataset_disk_bytes
    || is_set o.disk_bytes
    || is_set o.gpu_memory_bytes

configured_hardware : Option HardwareProfile → Option ReserveOverrides → Option HardwareProfile
configured_hardware none overrides = none
configured_hardware (some p) none = some p
configured_hardware (some p) (some o) = elim p.raw [
  | none ↦ some p
  | some raw ↦
      if has_overrides o
      then some
          (record { raw = some raw; scheduler = some (subtract_reserved_profile raw o).scheduler })
      else some p
]

worker_with_configured_resource_view : Worker → Worker
unfolding configured_hardware
worker_with_configured_resource_view w = record w {
  hardware_profile = configured_hardware w.hardware_profile w.configured_reserve_overrides;
}

abbrev capped : Option ℕ → Option ℕ → Option ℕ
capped none scheduled = none
capped (some c) none = some c
capped (some c) (some s) = some (min c s)

abbrev known_cpu : Option ℕ → Option ℕ → Option ℕ
known_cpu none reported = reported
known_cpu (some s) reported = some (float s)

abbrev capped_capacity : Capacity → Capacity → Capacity
capped_capacity scheduler c = record {
  cpu_cores = capped (known_cpu scheduler.cpu_cores c.cpu_cores) scheduler.cpu_cores;
  memory_bytes = capped c.memory_bytes scheduler.memory_bytes;
  job_disk_bytes = capped c.job_disk_bytes scheduler.job_disk_bytes;
  dataset_disk_bytes = capped c.dataset_disk_bytes scheduler.dataset_disk_bytes;
  gpu_devices = c.gpu_devices;
}

pub record WorkerView : Type 0 where
  pub worker : Worker
  pub reserved_resources : Totals

worker_with_running_resource_summary : Db → Time → Worker → WorkerView
unfolding worker_with_configured_resource_view subtract_running_reservations running_resource_totals
worker_with_running_resource_summary db now row =
    let w : Worker = worker_with_configured_resource_view row in
    let state : CapacityState = or_else w.capacity_state empty_state in
    let capacity : Capacity = capped_capacity (scheduler_of w.hardware_profile) state.canonical in
    record {
      worker = record w {
        capacity_state = some (record state {
          canonical = subtract_running_reservations db now row.worker_id capacity;
        });
      };
      reserved_resources = running_resource_totals db now row.worker_id;
    }

-- `ORDER BY enabled DESC, worker_id ASC`
codes_le : List ℕ → List ℕ → Bool
codes_le [] t = true
codes_le (a ∷ s) [] = false
codes_le (a ∷ s) (b ∷ t) = if a == b then codes_le s t else ltb a b

abbrev listed_before : Worker → Worker → Bool
listed_before a b =
    if a.enabled
    then not b.enabled || codes_le (codes a.worker_id) (codes b.worker_id)
    else not b.enabled && codes_le (codes a.worker_id) (codes b.worker_id)

insert_worker : Worker → List Worker → List Worker
unfolding codes_le
insert_worker w [] = w ∷ []
insert_worker w (v ∷ vs) =
    let rest = insert_worker w vs in if listed_before w v then w ∷ v ∷ vs else v ∷ rest

ordered_workers : List Worker → List Worker
unfolding insert_worker
ordered_workers [] = []
ordered_workers (w ∷ ws) = insert_worker w (ordered_workers ws)

unfoldable pub list_workers : Db → Time → List WorkerView
unfolding ordered_workers worker_with_running_resource_summary
list_workers db now = map (worker_with_running_resource_summary db now) (ordered_workers db.workers)

pub record ResourceTotals : Type 0 where
  pub scheduler : Totals
  pub available : Totals
  pub reserved : Totals

device_memory : List GpuDevice → ℕ
device_memory ds = sum_of (λ d. d.memory_bytes) ds

capacity_totals : ℕ → Capacity → Totals
unfolding device_memory
capacity_totals gpus c = record {
  cpu_cores = or_else c.cpu_cores 0;
  memory_bytes = or_else c.memory_bytes 0;
  job_disk_bytes = or_else c.job_disk_bytes 0;
  dataset_disk_bytes = or_else c.dataset_disk_bytes 0;
  gpu_count = gpus;
  gpu_memory_bytes = device_memory c.gpu_devices;
}

abbrev add_totals : Totals → Totals → Totals
add_totals a b = record {
  cpu_cores = a.cpu_cores + b.cpu_cores;
  memory_bytes = a.memory_bytes + b.memory_bytes;
  job_disk_bytes = a.job_disk_bytes + b.job_disk_bytes;
  dataset_disk_bytes = a.dataset_disk_bytes + b.dataset_disk_bytes;
  gpu_count = a.gpu_count + b.gpu_count;
  gpu_memory_bytes = a.gpu_memory_bytes + b.gpu_memory_bytes;
}

abbrev zero_totals : Totals
zero_totals = totals_of []

abbrev state_capacity : Option CapacityState → Capacity
state_capacity none = empty_capacity
state_capacity (some s) = s.canonical

worker_totals : WorkerView → ResourceTotals
unfolding capacity_totals
worker_totals v =
    let scheduler : Capacity = scheduler_of v.worker.hardware_profile in
    let available : Capacity = state_capacity v.worker.capacity_state in
    record {
      scheduler = capacity_totals (length scheduler.gpu_devices) scheduler;
      available =
          capacity_totals (count_where (λ d. ltb 0 d.memory_bytes) available.gpu_devices) available;
      reserved = v.reserved_resources;
    }

unfoldable pub aggregate_worker_resources : Settings → Time → List WorkerView → ResourceTotals
unfolding worker_totals
aggregate_worker_resources settings now [] = record {
  scheduler = zero_totals;
  available = zero_totals;
  reserved = zero_totals;
}
aggregate_worker_resources settings now (v ∷ vs) =
    let rest = aggregate_worker_resources settings now vs in
    if worker_is_schedulable settings now v.worker
    then record {
      scheduler = add_totals (worker_totals v).scheduler rest.scheduler;
      available = add_totals (worker_totals v).available rest.available;
      reserved = add_totals (worker_totals v).reserved rest.reserved;
    }
    else rest
