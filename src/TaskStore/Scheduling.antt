-- ===== src/TaskStore/Scheduling.antt =====
-- Whether any worker can take a task: `resource_request_rejection`, `dataset_availability_rejection`
-- and `cpu_worker_currently_available`.
use cloudlink.Prelude.{
  Bool, true, false, ◌&&◌, ◌||◌, not, String, List, [], ◌∷◌, map, Option, none, some, if◌then◌else◌,
  ◌==◌, string_eq, ltb, any, contains, select, or_else, max,
}
use cloudlink.Errors.{
  Result, ok, ◌>>=◌, Candidate, Rejection, resource_request_unsatisfiable, dataset_unavailable,
}
use cloudlink.ResourceModel.Types.{ResourceRequest}
use cloudlink.ResourceModel.Fits.{fits_capacity}
use cloudlink.ResourceModel.Request.{no_source, normalize_resource_request}
use cloudlink.DatasetStore.Queries.{released_dataset_ids, worker_has_verified_caches}
use cloudlink.Database.Tasks.{Time, Payload}
use cloudlink.Database.Workers.{Worker}
use cloudlink.Database.Action.{Db, Settings}
use cloudlink.TaskStore.Workers.{
  needs_update, worker_is_schedulable, worker_supports_runtime, gpu_enabled,
}
use cloudlink.TaskStore.Capacity.{
  worker_ideal_capacity, worker_current_capacity, subtract_running_reservations, running_task_count,
}
use cloudlink.TaskStore.Listing.{list_workers}

-- `normalize_resource_request({})`
abbrev pub default_request : ResourceRequest
default_request = record {
  cpu_cores = 0;
  memory_bytes = 0;
  job_disk_bytes = 0;
  dataset_disk_bytes = 0;
  expected_runtime_seconds = 0;
  concurrency_slots = 1;
  gpu = record { required = false; count = 0; memory_bytes = 0 };
}

-- `normalize_task_resource_request`
unfoldable pub normalize_task_resource_request : String → Payload → Result ResourceRequest
normalize_task_resource_request type payload =
    if type == "script_job"
    then normalize_resource_request (or_else payload.resource_request no_source)
    else normalize_resource_request no_source

unfoldable pub has_resource_requirements : ResourceRequest → Bool
has_resource_requirements r =
    ltb 0 r.cpu_cores
    || ltb 0 r.memory_bytes
    || ltb 0 r.job_disk_bytes
    || ltb 0 r.dataset_disk_bytes
    || r.gpu.required

abbrev is_candidate : Settings → String → Payload → Worker → Bool
is_candidate settings type payload w =
    w.enabled
    && not (needs_update settings w)
    && contains type w.supported_types
    && contains type settings.allowed_task_types
    && worker_supports_runtime w payload

abbrev candidate : Worker → Candidate
candidate w = record {
  worker_id = w.worker_id;
  supported_types = w.supported_types;
  capacity = worker_ideal_capacity w;
}

unfoldable pub resource_request_rejection :
    Db → Time → String → ResourceRequest → Settings → Payload → Option Rejection
resource_request_rejection db now type request settings payload =
    let candidates : List Worker =
      select (is_candidate settings type payload) (map (λ v. v.worker) (list_workers db now)) in
    if any (λ w. (fits_capacity request (worker_ideal_capacity w)).0) candidates
    then none
    else some (
        resource_request_unsatisfiable request (map candidate candidates) (
          map (λ w. (w.worker_id, (fits_capacity request (worker_ideal_capacity w)).1)) candidates))

abbrev is_eligible :
    Db → Time → Settings → String → Payload → ResourceRequest → List String → Worker → Bool
is_eligible db now settings type payload request released w =
    worker_is_schedulable settings now w
    && contains type w.supported_types
    && worker_supports_runtime w payload
    && worker_has_verified_caches db w.worker_id released
    && (fits_capacity request (worker_ideal_capacity w)).0

abbrev unless_eligible : Bool → List String → Option Rejection
unless_eligible true released = none
unless_eligible false released = some (dataset_unavailable released)

unfoldable pub availability :
    Db → Time → String → Payload → ResourceRequest → Settings → List String → Option Rejection
availability db now type payload request settings [] = none
availability db now type payload request settings (id ∷ ids) =
    unless_eligible
      (any (λ v. is_eligible db now settings type payload request (id ∷ ids) v.worker)
        (list_workers db now))
      (id ∷ ids)

unfoldable pub dataset_availability_rejection :
    Db → Time → String → Payload → ResourceRequest → Settings → Result (Option Rejection)
unfolding availability
dataset_availability_rejection db now type payload request settings = do
  released ← released_dataset_ids db payload.datasets
  ok (availability db now type payload request settings released)

-- A worker without a GPU runtime, other than the one that asks, that has room for the request now.
abbrev could_take : Db → Time → Settings → String → String → ResourceRequest → Worker → Bool
could_take db now settings exclude type request w =
    not (w.worker_id == exclude)
    && worker_is_schedulable settings now w
    && contains type w.supported_types
    && not (gpu_enabled w.runtime_profile)
    && ltb (running_task_count db now w.worker_id) (max 1 w.max_concurrent_tasks)
    && (fits_capacity request
        (subtract_running_reservations db now w.worker_id (worker_current_capacity w))).0

unfoldable pub cpu_worker_currently_available :
    Db → Time → Settings → String → String → ResourceRequest → Bool
cpu_worker_currently_available db now settings exclude type request =
    any (λ v. could_take db now settings exclude type request v.worker) (list_workers db now)
