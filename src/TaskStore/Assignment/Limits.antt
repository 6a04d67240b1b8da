-- ===== src/TaskStore/Assignment/Limits.antt =====
-- A claim stays within the worker's concurrency and within what the worker has.
use cloudlink.Prelude.{
  ℕ, ℤ, suc, ◌+◌, ◌*◌, ◌≤◌, max, false, length, String, List, Option, none, some, ◌≡◌, sym,
  coalesce, arith, find, count_where, sum_of, string_eq, option_eq, eq_of_beq, find_sound, ◌⊎◌,
}
use cloudlink.Errors.{ok}
use cloudlink.ResourceModel.Types.{GpuDevice, GpuRequest, ResourceRequest, Capacity}
use cloudlink.ResourceModel.Fits.{count_or_one, matching}
use cloudlink.Database.Tasks.{Time, Task}
use cloudlink.Database.Workers.{Worker, CapacityState}
use cloudlink.Database.Action.{Db, Settings}
use cloudlink.TaskStore.Workers.{get_worker, has_worker_id}
use cloudlink.TaskStore.Capacity.{
  subtract_gpu_reservation, runs_on, reservations, subtract_all, running_task_count,
}
use cloudlink.TaskStore.Claim.{Claimed, locked, claim_task, is_busy}
use cloudlink.TaskStore.Lifecycle.{IsValid}
use cloudlink.TaskStore.Assignment.{claim_task-Granted}
use cloudlink.TaskStore.Assignment.Sums.{count-update_where-le, others}

pub worker_named : (db : Db) (id : String) (w : Worker) → get_worker db id ≡ ok w → w.worker_id ≡ id
unfolding get_worker
worker_named db id w h =
    let found : find (has_worker_id id) db.workers ≡ some w = ground arith in
    eq_of_beq w.worker_id id (find_sound (has_worker_id id) db.workers w found)

-- What a worker's running tasks hold after a grant that asked for `requested`: all of it fits, unless
-- nothing was asked for.
abbrev Allots : (requested held : ℕ) → Option ℕ → Type 0
Allots requested held none = requested ≡ 0
Allots requested held (some has) = (requested ≡ 0) ⊎ (held ≤ has)

-- A GPU request against the devices that are left for it: enough of them have the memory, and its
-- reservation takes that memory from as many devices.
abbrev pub FitsDevices : GpuRequest → List GpuDevice → Type 0
FitsDevices r ds =
    (r.required ≡ false)
    ⊎ ((count_or_one r.count ≤ length (matching r.memory_bytes ds))
        × (sum_of (λ d. d.memory_bytes) (subtract_gpu_reservation ds r)
              + count_or_one r.count * r.memory_bytes
            ≡ sum_of (λ d. d.memory_bytes) ds))

-- What the running tasks of a worker hold, against what it has.
pub record FitsWorker (later : Time) (worker id : String) (has : Capacity) (r : ResourceRequest)
    (ts : List Task) : Type 0 where
  pub cpu :
      Allots r.cpu_cores (sum_of (λ q. q.cpu_cores) (reservations worker later ts)) has.cpu_cores
  pub memory :
      Allots r.memory_bytes
        (sum_of (λ q. q.memory_bytes) (reservations worker later ts))
        has.memory_bytes
  pub job_disk :
      Allots r.job_disk_bytes
        (sum_of (λ q. q.job_disk_bytes) (reservations worker later ts))
        has.job_disk_bytes
  pub dataset_disk :
      Allots r.dataset_disk_bytes
        (sum_of (λ q. q.dataset_disk_bytes) (reservations worker later ts))
        has.dataset_disk_bytes
  pub gpu :
      FitsDevices r.gpu (subtract_all has (reservations worker later (others id ts))).gpu_devices

-- A worker as a claim with this report of its free resources sees it.
abbrev reporting : Option CapacityState → Worker → Worker
reporting state w = record w { capacity_state = coalesce state w.capacity_state }

module _ (settings : Settings) (now later : Time) (lease worker : String) (supported : List String)
    (state : Option CapacityState) (active : Option ℤ) (c : Claimed) (db db' : Db) where
  -- From a well-formed table, a claim that hands out a task never takes a worker above its limit on concurrent tasks, which is
  -- at least one, counting the task that was handed out.
  pub claim_task-within_concurrency :
      IsValid db
      → claim_task settings now later lease worker supported state active db ≡ (ok (some c), db')
      → (w : Worker) × (get_worker db worker ≡ ok w)
        × (running_task_count db' later worker ≤ max 1 w.max_concurrent_tasks)
  unfolding running_task_count
  claim_task-within_concurrency v h =
      let g =
        claim_task-Granted settings now later lease worker supported state active c db db' h in
      let same = worker_named g.before worker g.w g.read in
      let grows =
        count-update_where-le g.t.id (locked settings now later lease worker g.r)
          (runs_on worker later) g.before.tasks (g.expired v).valid.unique in
      let free : is_busy g.before later g.w ≡ false = g.choice.free in
      let room : suc (count_where (runs_on g.w.worker_id later) g.before.tasks)
          ≤ max 1 g.w.max_concurrent_tasks =
        ground arith in
      (g.registered, g.known, rw (g.tasks, sym g.limit) (ground arith))
