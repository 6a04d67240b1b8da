-- ===== src/TaskStore/Claim.antt =====
-- `claim_task`: a worker asks for work. `now` is the clock's first reading, `later` the reading for
-- everything after it, and `lease_id` the fresh `uuid4`.
use cloudlink.Prelude.{
  ℕ, suc, ◌+◌, Bool, true, false, ◌&&◌, ◌||◌, not, String, List, [], ◌∷◌, Option, none, some,
  if◌then◌else◌, string_eq, leb, max, select, contains, update_where, or_else, ℤ,
}
use cloudlink.Errors.{Error, Result, ok, err, raise_if, worker_not_registered, Rejection}
use cloudlink.Errors
use cloudlink.ResourceModel.Types.{ResourceRequest, Capacity}
use cloudlink.ResourceModel.Fits.{fits_capacity}
use cloudlink.DatasetStore.Queries.{released_dataset_ids, worker_has_verified_caches}
use cloudlink.Database.Tasks.{Time, seconds, Task, running, failed, Payload}
use cloudlink.Database.Workers.{Worker, CapacityState}
use cloudlink.Database.Action.{Db, Settings, Action, ◌>>=◌, ◌>>◌, query, execute, pure, transaction}
use cloudlink.TaskStore.Workers.{
  get_worker, needs_update, is_active, worker_supports_runtime, gpu_enabled,
}
use cloudlink.TaskStore.Capacity.{
  worker_ideal_capacity, worker_current_capacity, subtract_running_reservations, running_task_count,
}
use cloudlink.TaskStore.Scheduling.{
  default_request, dataset_availability_rejection, cpu_worker_currently_available,
}
use cloudlink.TaskStore.Queue.{
  get_task, set_task, on_tasks, has_id, is_waiting, is_pending, oldest_first, expire_pending_tasks,
  expire_locked_tasks, pending_age_seconds,
}
use cloudlink.TaskStore.Touch.{touch_worker, silent}

abbrev pub request_of : Task → ResourceRequest
request_of t = or_else t.resource_request default_request

abbrev is_nil : List String → Bool
is_nil [] = true
is_nil (x ∷ xs) = false

abbrev pub dataset_gone : Time → Task → Task
dataset_gone now t = record t {
  status = failed;
  error_code = some "dataset_became_unavailable";
  error = some "Required released dataset cache is no longer available";
  updated_at = now;
  finished_at = some now;
}

-- `WHERE id = ? AND status = 'pending'`
abbrev pub fail_waiting : Time → String → Db → Db
fail_waiting now id =
    on_tasks (update_where (λ t. has_id id t && is_pending t.status) (dataset_gone now))

abbrev pub unavailable : Settings → Time → Task → Db → Result (Option Rejection)
unavailable settings now t db =
    dataset_availability_rejection db now t.type t.payload (request_of t) settings

-- The rounds of the loop over the waiting tasks; the number counts those that failed.
unfoldable pub expire_each : Settings → Time → List Task → ℕ → Action ℕ
expire_each settings now [] n = pure n
expire_each settings now (t ∷ ts) n = do
  rejection ← query (unavailable settings now t)
  elim rejection [
    | none ↦ expire_each settings now ts n
    | some r ↦ execute (fail_waiting now t.id) >> expire_each settings now ts (suc n)
  ]

unfoldable pub expire_unavailable_dataset_tasks : Settings → Time → Action ℕ
unfolding expire_each
expire_unavailable_dataset_tasks settings now db =
    expire_each settings now (oldest_first (select is_waiting db.tasks)) 0 db

pub data Selection : Type 0 where
  nothing starved : Selection
  chosen : Task → ResourceRequest → Selection

-- A GPU worker leaves to a CPU worker what a CPU worker could take now.
abbrev pub yields_to_cpu : Db → Settings → Time → Worker → Task → Bool
yields_to_cpu db settings later w t =
    not (request_of t).gpu.required
    && gpu_enabled w.runtime_profile
    && cpu_worker_currently_available db later settings w.worker_id t.type (request_of t)

abbrev pub lacks_datasets : Db → Worker → List String → Bool
lacks_datasets db w released =
    not (is_nil released) && not (worker_has_verified_caches db w.worker_id released)

abbrev pub fits_ideal : Worker → Task → Bool
fits_ideal w t = (fits_capacity (request_of t) (worker_ideal_capacity w)).0

abbrev pub fits_now : Capacity → Task → Bool
fits_now available t = (fits_capacity (request_of t) available).0

abbrev pub has_aged : Settings → Time → Task → Bool
has_aged settings now t = leb settings.starvation_protection_seconds (pending_age_seconds t now)

abbrev pub weigh : Settings → Time → Worker → Capacity → Task → Result Selection → Result Selection
weigh settings now w available t rest =
    if fits_ideal w t
    then if fits_now available t
      then ok (chosen t (request_of t))
      else if is_pending t.status && has_aged settings now t
      then ok starved
      else rest
    else rest

-- The loop over the candidates, oldest first.
unfoldable pub pick : Db → Settings → Time → Time → Worker → Capacity → List Task → Result Selection
pick db settings now later w available [] = ok nothing
pick db settings now later w available (t ∷ ts) =
    let rest = pick db settings now later w available ts in
    let checked : Result Selection =
      Errors.◌>>=◌ (released_dataset_ids db t.payload.datasets) λ released.
        if lacks_datasets db w released then rest else weigh settings now w available t rest in
    if not (worker_supports_runtime w t.payload)
    then rest
    else if yields_to_cpu db settings later w t
    then rest
    else checked

abbrev pub locked : Settings → Time → Time → String → String → ResourceRequest → Task → Task
locked settings now later lease_id worker_id request t = record t {
  status = running;
  updated_at = now;
  started_at = some (or_else t.started_at now);
  finished_at = none;
  locked_by = some worker_id;
  locked_until = some (later + seconds settings.task_lock_seconds);
  lease_id = some lease_id;
  resource_reservation = some request;
  cancel_requested_at = none;
  cancel_reason = none;
}

pub record Claimed : Type 0 where
  pub id : String
  pub type : String
  pub payload : Payload
  pub lease_id : Option String

abbrev pub claimed : Task → Claimed
claimed t = record { id = t.id; type = t.type; payload = t.payload; lease_id = t.lease_id }

-- Lock the chosen task, note the claim, and read the task back.
abbrev pub finish : Settings → Time → Time → String → String → Selection → Action (Option Claimed)
finish settings now later lease_id worker_id nothing = pure none
finish settings now later lease_id worker_id starved = pure none
finish settings now later lease_id worker_id (chosen t request) = do
  execute (set_task t.id (locked settings now later lease_id worker_id request))
  touch_worker later worker_id (record silent { claimed = true })
  task ← query (λ db. get_task db t.id)
  pure (some (claimed task))

abbrev pub allowed : Settings → Worker → List String → List String
allowed settings w supported =
    select (λ type. contains type w.supported_types && contains type settings.allowed_task_types)
      supported

abbrev pub candidates : List String → Db → List Task
candidates types db =
    oldest_first (select (λ t. contains t.type types && is_pending t.status) db.tasks)

-- `current_active >= max_concurrent`
abbrev pub is_busy : Db → Time → Worker → Bool
is_busy db later w =
    leb (max 1 w.max_concurrent_tasks)
      (max w.active_task_count (running_task_count db later w.worker_id))

-- What the worker may get once it has been touched.
unfoldable pub choose : Settings → Time → Time → List String → Worker → Db → Result Selection
choose settings now later types w db =
    if needs_update settings w
      || not (is_active w.lifecycle_status)
      || is_nil types
      || is_busy db later w
    then ok nothing
    else pick db settings now later w
        (subtract_running_reservations db later w.worker_id (worker_current_capacity w))
        (candidates types db)

unfoldable pub claim_body :
    Settings
    → Time
    → Time
    → String
    → String
    → List String
    → Option CapacityState
    → Option ℤ
    → Action (Option Claimed)
claim_body settings now later lease_id worker_id supported capacity_state active_task_count = do
  worker ← query (λ db. get_worker db worker_id)
  query (λ db. raise_if (not worker.enabled) (worker_not_registered worker_id))
  execute (expire_pending_tasks now settings.queue_timeout_seconds)
  expire_unavailable_dataset_tasks settings later
  execute (expire_locked_tasks now)
  touched ←
      touch_worker later worker_id
        (record silent { capacity_state = capacity_state; active_task_count = active_task_count })
  selection ← query (choose settings now later (allowed settings worker supported) touched)
  finish settings now later lease_id worker_id selection

unfoldable pub claim_task :
    Settings
    → Time
    → Time
    → String
    → String
    → List String
    → Option CapacityState
    → Option ℤ
    → Action (Option Claimed)
claim_task settings now later lease_id worker_id supported capacity_state active_task_count =
    transaction
      (claim_body settings now later lease_id worker_id supported capacity_state active_task_count)
