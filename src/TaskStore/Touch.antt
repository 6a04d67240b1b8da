-- ===== src/TaskStore/Touch.antt =====
-- `touch_worker` and `update_worker_concurrency`: what a worker says of itself, and what an
-- administrator sets.
use cloudlink.Prelude.{
  ℕ, zero, suc, Bool, false, not, String, Option, none, some, if◌then◌else◌, ℤ, pos, negsuc,
  coalesce, or_else, update_where,
}
use cloudlink.Errors.{Result, ok, err, raise_if, worker_not_registered, task_conflict}
use cloudlink.Database.Tasks.{Time}
use cloudlink.Database.Workers.{Worker, HardwareProfile, RuntimeProfile, CapacityState}
use cloudlink.Database.Action.{Db, Action, ◌>>=◌, ◌>>◌, query, execute}
use cloudlink.TaskStore.Workers.{get_worker, has_worker_id}

abbrev pub on_worker : String → (Worker → Worker) → Db → Db
on_worker worker_id f db = record db {
  workers = update_where (has_worker_id worker_id) f db.workers;
}

-- The optional arguments of `touch_worker`.
pub record Heartbeat : Type 0 where
  pub last_error : Option String
  pub claimed : Bool
  pub hardware_profile : Option HardwareProfile
  pub runtime_profile : Option RuntimeProfile
  pub capacity_state : Option CapacityState
  pub dataset_root_checks : Option String
  pub max_concurrent_tasks : Option ℤ
  pub active_task_count : Option ℤ

abbrev pub silent : Heartbeat
silent = record {
  last_error = none;
  claimed = false;
  hardware_profile = none;
  runtime_profile = none;
  capacity_state = none;
  dataset_root_checks = none;
  max_concurrent_tasks = none;
  active_task_count = none;
}

-- `if n is not None: if n < 1: raise`
abbrev pub at_least_one : Option ℤ → Result (Option ℕ)
at_least_one none = ok none
at_least_one (some (pos zero)) = err (task_conflict "max_concurrent_tasks must be at least 1")
at_least_one (some (pos (suc n))) = ok (some (suc n))
at_least_one (some (negsuc n)) = err (task_conflict "max_concurrent_tasks must be at least 1")

abbrev pub non_negative : Option ℤ → Result (Option ℕ)
non_negative none = ok none
non_negative (some (pos n)) = ok (some n)
non_negative (some (negsuc n)) = err (task_conflict "active_task_count must be non-negative")

abbrev pub touched : Time → Heartbeat → Option ℕ → Option ℕ → Worker → Worker
touched now h concurrent active w = record w {
  last_seen_at = some now;
  updated_at = now;
  last_error = h.last_error;
  last_claimed_at = if h.claimed then some now else w.last_claimed_at;
  hardware_profile = coalesce h.hardware_profile w.hardware_profile;
  runtime_profile = coalesce h.runtime_profile w.runtime_profile;
  capacity_state = coalesce h.capacity_state w.capacity_state;
  dataset_root_checks = coalesce h.dataset_root_checks w.dataset_root_checks;
  max_concurrent_tasks = or_else concurrent w.max_concurrent_tasks;
  active_task_count = or_else active w.active_task_count;
}

unfoldable pub touch_worker : Time → String → Heartbeat → Action Worker
touch_worker now worker_id h = do
  worker ← query (λ db. get_worker db worker_id)
  query (λ db. raise_if (not worker.enabled) (worker_not_registered worker_id))
  concurrent ← query (λ db. at_least_one h.max_concurrent_tasks)
  active ← query (λ db. non_negative h.active_task_count)
  execute (on_worker worker_id (touched now h concurrent active))
  query (λ db. get_worker db worker_id)

abbrev with_concurrency : Time → Option ℕ → Worker → Worker
with_concurrency now concurrent w = record w {
  max_concurrent_tasks = or_else concurrent w.max_concurrent_tasks;
  updated_at = now;
}

update_worker_concurrency : Time → String → ℤ → Action Worker
update_worker_concurrency now worker_id max_concurrent_tasks = do
  concurrent ← query (λ db. at_least_one (some max_concurrent_tasks))
  query (λ db. get_worker db worker_id)
  execute (on_worker worker_id (with_concurrency now concurrent))
  query (λ db. get_worker db worker_id)
