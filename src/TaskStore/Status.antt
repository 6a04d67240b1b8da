-- ===== src/TaskStore/Status.antt =====
-- `task_summary` and `queue_status`, which expires tasks before it counts them. `now` is its reading of
-- the clock, `later` that of the functions that it calls.
use cloudlink.Prelude.{
  ℕ, ◌+◌, Bool, true, false, String, List, [], ◌∷◌, Option, none, some, ◌==◌, string_eq, option_eq,
  length, select, count_where,
}
use cloudlink.Errors.{ok}
use cloudlink.Database.Tasks.{Time, Task, Status}
use cloudlink.Database.Action.{Db, Settings, Action, ◌>>◌, query, execute}
use cloudlink.TaskStore.Workers.{worker_is_schedulable}
use cloudlink.TaskStore.Capacity.{is_running}
use cloudlink.TaskStore.Listing.{ResourceTotals, list_workers, aggregate_worker_resources}
use cloudlink.TaskStore.Queue.{
  is_pending, is_waiting, oldest_first, pending_age_seconds, expire_pending_tasks,
  expire_locked_tasks,
}
use cloudlink.TaskStore.Claim.{expire_unavailable_dataset_tasks}

pub record TaskSummary : Type 0 where
  pub pending : ℕ
  pub running : ℕ
  pub success : ℕ
  pub failed : ℕ
  pub timeout : ℕ
  pub cancelled : ℕ
  pub total : ℕ

abbrev is_success_status : Status → Bool
is_success_status Status.success = true
is_success_status _ = false

abbrev is_failed_status : Status → Bool
is_failed_status Status.failed = true
is_failed_status _ = false

abbrev is_timeout_status : Status → Bool
is_timeout_status Status.timeout = true
is_timeout_status _ = false

abbrev is_cancelled_status : Status → Bool
is_cancelled_status Status.cancelled = true
is_cancelled_status _ = false

-- `WHERE submitter_id = ?`, when there is one.
abbrev submitted_by : Option String → Task → Bool
submitted_by none t = true
submitted_by (some id) t = t.submitter_id == some id

-- `COUNT(*)` of the rows of a status.
abbrev count_status : (Status → Bool) → List Task → ℕ
count_status p ts = count_where (λ t. p t.status) ts

unfoldable pub task_summary : Db → Option String → TaskSummary
task_summary db submitter_id =
    let rows : List Task = select (submitted_by submitter_id) db.tasks in
    record {
      pending = count_status is_pending rows;
      running = count_status is_running rows;
      success = count_status is_success_status rows;
      failed = count_status is_failed_status rows;
      timeout = count_status is_timeout_status rows;
      cancelled = count_status is_cancelled_status rows;
      total =
          count_status is_pending rows
          + count_status is_running rows
          + count_status is_success_status rows
          + count_status is_failed_status rows
          + count_status is_timeout_status rows
          + count_status is_cancelled_status rows;
    }

pub record QueueStatus : Type 0 where
  pub pending_count : ℕ
  pub running_count : ℕ
  pub max_pending : ℕ
  pub queue_timeout_seconds : ℕ
  pub oldest_pending_age_seconds : Option ℕ
  pub online_worker_count : ℕ
  pub worker_count : ℕ
  pub resource_totals : ResourceTotals

abbrev oldest_age : Time → List Task → Option ℕ
oldest_age now [] = none
oldest_age now (t ∷ ts) = some (pending_age_seconds t now)

abbrev pub status_of : Settings → Time → Time → Db → QueueStatus
status_of settings now later db =
    let counts : TaskSummary = task_summary db none in
    let workers = list_workers db later in
    record {
      pending_count = counts.pending;
      running_count = counts.running;
      max_pending = settings.max_pending_tasks;
      queue_timeout_seconds = settings.queue_timeout_seconds;
      oldest_pending_age_seconds = oldest_age now (oldest_first (select is_waiting db.tasks));
      online_worker_count =
          length (select (λ v. worker_is_schedulable settings later v.worker) workers);
      worker_count = length workers;
      resource_totals = aggregate_worker_resources settings later workers;
    }

unfoldable pub queue_status : Settings → Time → Time → Action QueueStatus
queue_status settings now later = do
  execute (expire_pending_tasks now settings.queue_timeout_seconds)
  execute (expire_locked_tasks now)
  expire_unavailable_dataset_tasks settings later
  query (λ db. ok (status_of settings now later db))
