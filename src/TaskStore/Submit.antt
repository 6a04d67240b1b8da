-- ===== src/TaskStore/Submit.antt =====
-- `create_task` and what it checks. `task_id` is the fresh `uuid4`; `now` is the clock's first
-- reading and `later` the one for the workers. The
-- primary key of `tasks` refuses an identifier that is taken.
use cloudlink.Prelude.{
  any, Bool, ◌&&◌, ◌||◌, not, String, [], ◌∷◌, ◌++◌, Option, none, some, if◌then◌else◌, ◌==◌,
  string_eq, strip, text_of, or_none, non_empty,
}
use cloudlink.Errors.{
  Result, ok, err, raise_if, integrity_error, resource_unsatisfiable, Rejection,
  gpu_runtime_declaration_invalid,
}
use cloudlink.ResourceModel.Types.{ResourceRequest}
use cloudlink.Database.Tasks.{Time, Task, pending, Payload}
use cloudlink.Database.Action.{Db, Settings, Action, ◌>>=◌, ◌>>◌, query, execute}
use cloudlink.TaskStore.Workers.{payload_runtime}
use cloudlink.TaskStore.Scheduling.{
  normalize_task_resource_request, has_resource_requirements, resource_request_rejection,
  dataset_availability_rejection,
}
use cloudlink.TaskStore.Queue.{
  get_task, has_id, on_tasks, validate_json_size, validate_text_size, expire_pending_tasks,
  check_pending_limit,
}

-- `normalize_submitter_id` and `normalize_group_id`
unfoldable pub normalize_id : Option String → Option String
normalize_id value = or_none (strip (text_of value))

-- `group_id or task_context_value(payload, "group_id")`
abbrev group_or_context : Option String → Option String → Option String
group_or_context group context = if non_empty (text_of group) then group else context

pub record NewTask : Type 0 where
  pub task_type : String
  pub payload : Payload
  pub title : String
  pub description : String
  pub submitter_id : Option String
  pub group_id : Option String

abbrev raise_rejection : Option Rejection → Result (Unit {0})
raise_rejection none = ok tt
raise_rejection (some r) = err (resource_unsatisfiable r)

-- `(runtime == "pytorch-cuda") != gpu_required` of a script job.
abbrev declares_gpu_wrongly : NewTask → ResourceRequest → Bool
declares_gpu_wrongly n request =
    n.task_type == "script_job"
    && (if payload_runtime n.payload == "pytorch-cuda"
        then not request.gpu.required
        else request.gpu.required)

abbrev capacity_rejection : Settings → Time → NewTask → ResourceRequest → Db → Option Rejection
capacity_rejection settings now n request db =
    if has_resource_requirements request || payload_runtime n.payload == "pytorch-cuda"
    then resource_request_rejection db now n.task_type request settings n.payload
    else none

abbrev pub pending_task : Time → String → NewTask → ResourceRequest → Task
pending_task now task_id n request = record {
  id = task_id;
  type = n.task_type;
  status = pending;
  title = n.title;
  description = n.description;
  payload = n.payload;
  result = none;
  error = none;
  logs = none;
  created_at = now;
  updated_at = now;
  started_at = none;
  finished_at = none;
  locked_by = none;
  locked_until = none;
  lease_id = none;
  completion_lease_id = none;
  result_sha256 = none;
  resource_request = some request;
  resource_reservation = none;
  submitter_id = normalize_id n.submitter_id;
  group_id = normalize_id (group_or_context n.group_id n.payload.context_group_id);
  error_code = none;
  cancel_requested_at = none;
  cancel_reason = none;
  retry_count = 0;
}

-- Everything that is checked before a task is stored.
unfoldable pub accept : Settings → Time → NewTask → Action ResourceRequest
accept settings now n = do
  query (λ db. validate_json_size n.payload.encoded settings)
  query (λ db. validate_text_size (some n.title) settings)
  query (λ db. validate_text_size (some n.description) settings)
  query (λ db. check_pending_limit db settings)
  request ← query (λ db. normalize_task_resource_request n.task_type n.payload)
  query (λ db.
      raise_if (declares_gpu_wrongly n request)
        (resource_unsatisfiable gpu_runtime_declaration_invalid))
  query (λ db. raise_rejection (capacity_rejection settings now n request db))
  rejection ←
      query (λ db. dataset_availability_rejection db now n.task_type n.payload request settings)
  query (λ db. raise_rejection rejection)
  query (λ db. ok request)

unfoldable pub create_task : Settings → Time → Time → String → NewTask → Action Task
create_task settings now later task_id n = do
  execute (expire_pending_tasks now settings.queue_timeout_seconds)
  request ← accept settings later n
  query (λ db. raise_if (any (has_id task_id) db.tasks) (integrity_error "tasks.id"))
  execute (on_tasks (λ ts. ts ++ pending_task now task_id n request ∷ []))
  query (λ db. get_task db task_id)
