-- ===== src/TaskStore/Capacity.antt =====
-- What a worker has, what its running tasks hold, and what is left: `worker_ideal_capacity`,
-- `worker_current_capacity`, `subtract_running_reservations` and the view of `list_workers`.
pub mod Devices
use cloudlink.Prelude.{
  ℕ, zero, suc, ◌-◌, min, Bool, true, false, ◌&&◌, String, List, [], ◌∷◌, Option, none, some,
  if◌then◌else◌, ◌==◌, nat_eq, string_eq, option_eq, ltb, leb, length, select, count_where,
  contains, order_by, or_else, coalesce,
}
use cloudlink.Prelude.Double.{float}
use cloudlink.ResourceModel.Types.{GpuDevice, GpuRequest, ResourceRequest, Capacity}
use cloudlink.ResourceModel.Fits.{count_or_one}
use cloudlink.Database.Tasks.{Time, Task, Status, running}
use cloudlink.Database.Workers.{Worker, HardwareProfile, CapacityState}
use cloudlink.Database.Action.{Db}

abbrev pub empty_capacity : Capacity
empty_capacity = record {
  cpu_cores = none;
  memory_bytes = none;
  job_disk_bytes = none;
  dataset_disk_bytes = none;
  gpu_devices = [];
}

abbrev pub scheduler_of : Option HardwareProfile → Capacity
scheduler_of none = empty_capacity
scheduler_of (some p) = or_else p.scheduler empty_capacity

abbrev whole_cpu_capacity : Option ℕ → Option ℕ
whole_cpu_capacity none = none
whole_cpu_capacity (some n) = some (float n)

unfoldable pub worker_ideal_capacity : Worker → Capacity
worker_ideal_capacity w =
    let scheduler : Capacity = scheduler_of w.hardware_profile in
    record scheduler { cpu_cores = whole_cpu_capacity scheduler.cpu_cores }

-- `min(float(state), float(ideal))`, or the one that is known.
abbrev smaller : Option ℕ → Option ℕ → Option ℕ
smaller none ideal = ideal
smaller (some s) none = some s
smaller (some s) (some i) = some (min (float s) (float i))

abbrev pub empty_state : CapacityState
empty_state = record {
  canonical = empty_capacity;
  memory_available_bytes = none;
  job_disk_free_bytes = none;
  dataset_disk_free_bytes = none;
}

abbrev non_empty_or : List GpuDevice → List GpuDevice → List GpuDevice
non_empty_or [] ds = ds
non_empty_or (x ∷ xs) ds = x ∷ xs

unfoldable pub worker_current_capacity : Worker → Capacity
unfolding worker_ideal_capacity
worker_current_capacity w =
    let ideal : Capacity = worker_ideal_capacity w in
    let state : CapacityState = or_else w.capacity_state empty_state in
    record {
      cpu_cores = whole_cpu_capacity ideal.cpu_cores;
      memory_bytes =
          smaller (coalesce state.canonical.memory_bytes state.memory_available_bytes)
            ideal.memory_bytes;
      job_disk_bytes =
          smaller (coalesce state.canonical.job_disk_bytes state.job_disk_free_bytes)
            ideal.job_disk_bytes;
      dataset_disk_bytes =
          smaller (coalesce state.canonical.dataset_disk_bytes state.dataset_disk_free_bytes)
            ideal.dataset_disk_bytes;
      gpu_devices = non_empty_or state.canonical.gpu_devices ideal.gpu_devices;
    }

-- `locked_until IS NULL OR locked_until > now`
abbrev lease_runs : Time → Option Time → Bool
lease_runs now none = true
lease_runs now (some until) = ltb now until

abbrev pub is_running : Status → Bool
is_running running = true
is_running _ = false

-- The tasks that a worker is working on.
abbrev pub runs_on : String → Time → Task → Bool
runs_on worker_id now t =
    is_running t.status && t.locked_by == some worker_id && lease_runs now t.locked_until

-- What a task that runs on the worker has reserved.
abbrev pub reservations : String → Time → List Task → List ResourceRequest
reservations worker_id now [] = []
reservations worker_id now (t ∷ ts) =
    let rest = reservations worker_id now ts in
    if runs_on worker_id now t
    then elim t.resource_reservation [ none ↦ rest | some r ↦ r ∷ rest ]
    else rest

-- The devices by index and memory, and the indices that a reservation takes.
unfoldable pub indexed : ℕ → List GpuDevice → List (ℕ × ℕ)
indexed i [] = []
indexed i (d ∷ ds) = (i, d.memory_bytes) ∷ indexed (suc i) ds

unfoldable pub take_indices : ℕ → List (ℕ × ℕ) → List ℕ
take_indices zero ps = []
take_indices (suc n) [] = []
take_indices (suc n) ((i, m) ∷ ps) = i ∷ take_indices n ps

unfoldable pub selected_indices : GpuRequest → List GpuDevice → List ℕ
unfolding indexed take_indices
selected_indices r ds =
    take_indices (count_or_one r.count)
      (select (λ p. leb r.memory_bytes p.1) (order_by (λ p. p.1) (indexed 0 ds)))

unfoldable pub reduce_at : ℕ → List ℕ → ℕ → List GpuDevice → List GpuDevice
reduce_at memory selected i [] = []
reduce_at memory selected i (d ∷ ds) =
    (if contains i selected then record d { memory_bytes = d.memory_bytes - memory } else d)
    ∷ reduce_at memory selected (suc i) ds

unfoldable pub subtract_gpu_reservation : List GpuDevice → GpuRequest → List GpuDevice
unfolding selected_indices reduce_at
subtract_gpu_reservation ds r =
    if r.required
    then if ltb (length (selected_indices r ds)) (count_or_one r.count)
      then ds
      else reduce_at r.memory_bytes (selected_indices r ds) 0 ds
    else ds

abbrev pub less : Option ℕ → ℕ → Option ℕ
less none n = none
less (some c) n = some (c - n)

abbrev pub subtract_reservation : Capacity → ResourceRequest → Capacity
subtract_reservation c r = record {
  cpu_cores = less c.cpu_cores r.cpu_cores;
  memory_bytes = less c.memory_bytes r.memory_bytes;
  job_disk_bytes = less c.job_disk_bytes r.job_disk_bytes;
  dataset_disk_bytes = less c.dataset_disk_bytes r.dataset_disk_bytes;
  gpu_devices = subtract_gpu_reservation c.gpu_devices r.gpu;
}

unfoldable pub subtract_all : Capacity → List ResourceRequest → Capacity
subtract_all c [] = c
subtract_all c (r ∷ rs) = subtract_all (subtract_reservation c r) rs

unfoldable pub subtract_running_reservations : Db → Time → String → Capacity → Capacity
unfolding subtract_all
subtract_running_reservations db now worker_id capacity =
    subtract_all capacity (reservations worker_id now db.tasks)

unfoldable pub running_task_count : Db → Time → String → ℕ
running_task_count db now worker_id = count_where (runs_on worker_id now) db.tasks
