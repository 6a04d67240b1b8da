-- ===== src/TaskStore/Report.antt =====
-- The end of a task, and the calls of the worker that holds it: `renew_task_lease`,
-- `report_success`, `report_failed` and `cancel_task`. `digest` is `result_sha256` on JSON texts.
use cloudlink.Prelude.{
  ◌+◌, Bool, true, false, ◌&&◌, not, String, Option, none, some, if◌then◌else◌, ◌==◌, string_eq,
  option_eq, or_else, is_some, strip, text_of, text_or, or_none, non_empty,
}
use cloudlink.Errors.{Result, ok, err, raise_if, task_conflict, task_not_found}
use cloudlink.Database.Tasks.{Time, seconds, Task, Status, success, failed, timeout, cancelled}
use cloudlink.Database.Action.{Db, Settings, Action, ◌>>=◌, ◌>>◌, query, execute, pure, raise}
use cloudlink.TaskStore.Capacity.{is_running}
use cloudlink.TaskStore.Queue.{
  get_task, set_task, is_terminal, is_pending, expire_pending_tasks, expire_locked_tasks,
  validate_json_size, validate_text_size, set_task_artifact_expiry,
}

-- `_assert_owned_running_task`, on the row that was read.
abbrev pub owned_check : String → String → Task → Result Task
owned_check worker_id lease_id t =
    if is_terminal t.status
    then err (task_conflict "Task is already finished")
    else if not (is_running t.status)
    then err (task_conflict "Task is not running")
    else if not (t.locked_by == some worker_id)
    then err (task_conflict "Task is not locked by this worker")
    else if not (t.lease_id == some lease_id)
    then err (task_conflict "Task lease does not match")
    else ok t

abbrev pub assert_owned_running_task : String → String → String → Action Task
assert_owned_running_task task_id worker_id lease_id = do
  task ← query (λ db. get_task db task_id)
  query (λ db. owned_check worker_id lease_id task)

pub record Renewal : Type 0 where
  pub locked_until : Time
  pub cancel_requested : Bool
  pub cancel_reason : String

abbrev pub renewed : Settings → Time → Task → Task
renewed settings now t = record t {
  locked_until = some (now + seconds settings.task_lock_seconds);
  updated_at = now;
}

unfoldable pub renew_task_lease : Settings → Time → String → String → String → Action Renewal
renew_task_lease settings now task_id worker_id lease_id = do
  execute (expire_locked_tasks now)
  task ← assert_owned_running_task task_id worker_id lease_id
  execute (set_task task_id (renewed settings now))
  pure (record {
    locked_until = now + seconds settings.task_lock_seconds;
    cancel_requested = is_some task.cancel_requested_at;
    cancel_reason = text_of task.cancel_reason;
  })

abbrev cancel_message : String
cancel_message = "Task cancelled by submitter"

-- `task.get("cancel_reason") or "Task cancelled by submitter"`
abbrev pub reason_of : Task → String
reason_of t = text_or (text_of t.cancel_reason) cancel_message

abbrev pub cancelled_by : String → Time → Task → Task
cancelled_by message now t = record t {
  status = cancelled;
  error = some message;
  error_code = some "cancelled";
  updated_at = now;
  finished_at = some now;
  locked_until = none;
  lease_id = none;
}

abbrev pub succeeded : String → String → String → Option String → Time → Task → Task
succeeded result sha256 lease logs now t = record t {
  status = success;
  result = some result;
  result_sha256 = some sha256;
  completion_lease_id = some lease;
  logs = logs;
  error = none;
  error_code = none;
  updated_at = now;
  finished_at = some now;
  locked_until = none;
  lease_id = none;
}

-- Write the end of the task, start the retention of its artifacts, and read it back.
abbrev pub conclude : Settings → Time → String → (Task → Task) → Action Task
conclude settings now task_id f = do
  execute (set_task task_id f)
  execute (set_task_artifact_expiry settings task_id now)
  query (λ db. get_task db task_id)

abbrev pub is_replay : String → String → Task → Bool
is_replay lease sha256 t = t.completion_lease_id == some lease && t.result_sha256 == some sha256

abbrev pub is_success : Status → Bool
is_success success = true
is_success _ = false

module _ (digest : String → String) where
  abbrev pub mismatches : Option String → String → Bool
  mismatches reported result =
      non_empty (text_of reported) && not (text_of reported == digest result)

  -- What is left to do once the task is known not to have succeeded before.
  abbrev pub complete :
      Settings → Time → String → String → String → String → Option String → Action Task
  complete settings now task_id worker_id lease_id result logs = do
    task ← assert_owned_running_task task_id worker_id lease_id
    if is_some task.cancel_requested_at
        then conclude settings now task_id (cancelled_by (reason_of task) now)
        else conclude settings now task_id (succeeded result (digest result) lease_id logs now)

  unfoldable pub report_success :
      Settings
      → Time
      → String
      → String
      → String
      → Option String
      → String
      → Option String
      → Action Task
  report_success settings now task_id worker_id lease_id reported result logs = do
    query (λ db. validate_json_size result settings)
    query (λ db. validate_text_size logs settings)
    query (λ db.
        raise_if (mismatches reported result)
          (task_conflict "Result SHA-256 does not match payload"))
    existing ← query (λ db. get_task db task_id)
    if is_success existing.status
        then if is_replay lease_id (digest result) existing
          then pure existing
          else raise (task_conflict "Task already succeeded with a different completion")
        else complete settings now task_id worker_id lease_id result logs

-- The status, the error and its code with which a failed task ends.
pub record Outcome : Type 0 where
  pub status : Status
  pub error : String
  pub error_code : Option String

abbrev pub failure_outcome : Task → String → Option String → Outcome
failure_outcome t error code =
    if is_some t.cancel_requested_at
    then record { status = cancelled; error = reason_of t; error_code = some "cancelled" }
    else if code == some "execution_timeout"
    then record { status = timeout; error = error; error_code = code }
    else if code == some "cancelled"
    then record { status = cancelled; error = error; error_code = code }
    else record { status = failed; error = error; error_code = code }

abbrev pub ended : Outcome → Option String → Time → Task → Task
ended o logs now t = record t {
  status = o.status;
  error = some o.error;
  error_code = o.error_code;
  logs = logs;
  updated_at = now;
  finished_at = some now;
  locked_until = none;
  lease_id = none;
}

unfoldable pub report_failed :
    Settings
    → Time
    → String
    → String
    → String
    → String
    → Option String
    → Option String
    → Action Task
report_failed settings now task_id worker_id lease_id error logs error_code = do
  query (λ db. validate_text_size (some error) settings)
  query (λ db. validate_text_size logs settings)
  task ← assert_owned_running_task task_id worker_id lease_id
  conclude settings now task_id
      (ended (failure_outcome task error (or_none (strip (text_of error_code)))) logs now)

abbrev pub visible_to : Option String → Task → Bool
visible_to none t = true
visible_to (some submitter) t = t.submitter_id == some submitter

unfoldable pub get_task_for_submitter : Db → String → Option String → Result Task
get_task_for_submitter db task_id submitter = elim (get_task db task_id) [
  | err e ↦ err e
  | ok t ↦ if visible_to submitter t then ok t else err (task_not_found task_id)
]

abbrev pub cancel_asked : String → Time → Task → Task
cancel_asked message now t = record t {
  cancel_requested_at = some (or_else t.cancel_requested_at now);
  cancel_reason = some message;
  updated_at = now;
}

-- `reason.strip() if reason.strip() else "Task cancelled by submitter"`
abbrev pub message_of : String → String
message_of reason = text_or (strip reason) cancel_message

abbrev pub cancel_row : Settings → Time → String → String → Task → Action Task
cancel_row settings now task_id message task =
    if is_terminal task.status
    then pure task
    else if is_running task.status
    then (do
      query (λ db. validate_text_size (some message) settings)
      execute (set_task task_id (cancel_asked message now))
      query (λ db. get_task db task_id))
    else if not (is_pending task.status)
    then raise (task_conflict "Task cannot be cancelled")
    else (do
      query (λ db. validate_text_size (some message) settings)
      conclude settings now task_id (cancelled_by message now))

unfoldable pub cancel_task : Settings → Time → String → Option String → String → Action Task
cancel_task settings now task_id submitter reason = do
  execute (expire_pending_tasks now settings.queue_timeout_seconds)
  task ← query (λ db. get_task_for_submitter db task_id submitter)
  cancel_row settings now task_id (message_of reason) task
