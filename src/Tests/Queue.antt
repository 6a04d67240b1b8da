-- ===== src/Tests/Queue.antt =====
-- The queue's theorems at the sample system.
use cloudlink.Prelude.{
  contains, string_eq, lower, strip, non_empty, inl, ◌≤◌, true, String, List, [], ◌∷◌, none, some,
  ◌≡◌, refl, arith, max,
}
use cloudlink.Errors.{ok, err, dataset_not_found}
use cloudlink.Database.Workers.{Worker}
use cloudlink.ResourceModel.Types.{Capacity}
use cloudlink.Database.Tasks.{Task, pending, running}
use cloudlink.Database.Action.{Db, ◌>>=◌, query, execute, pure, transaction}
use cloudlink.Tests.World.{settings, plain_payload, waiting, lost_data, worker, world}
use cloudlink.TaskStore.Workers.{
  get_worker, needs_update, worker_uses_unsupported_platform, worker_supports_runtime,
}
use cloudlink.TaskStore.Capacity.{
  worker_ideal_capacity, worker_current_capacity, subtract_running_reservations, running_task_count,
  subtract_gpu_reservation,
}
use cloudlink.TaskStore.Queue.{
  set_task_artifact_expiry, validate_text_size, get_task, expire_pending_tasks, expire_locked_tasks,
}
use cloudlink.TaskStore.Touch.{touch_worker}
use cloudlink.TaskStore.Claim.{
  Claimed, claimed, claim_task, claim_body, expire_unavailable_dataset_tasks, expire_each, pick,
  choose,
}
use cloudlink.TaskStore.Scheduling.{dataset_availability_rejection, availability}
use cloudlink.DatasetStore.Queries.{released_dataset_ids}
use cloudlink.ResourceModel.Fits.{fits_capacity, shortages, field_shortage, gpu_shortage}
use cloudlink.Prelude.Double.{float}
use cloudlink.Version.{version_at_least}
use cloudlink.TaskStore.Lifecycle.{IsValid}
use cloudlink.TaskStore.Status.{queue_status}
use cloudlink.TaskStore.History.{
  Call, touches, renews, cancels, fails, asks_status, run, run-IsValid, run-Evolves,
}
use cloudlink.TaskStore.Lifecycle.{Evolves}
use cloudlink.TaskStore.Touch.{silent}
use cloudlink.TaskStore.Assignment.{Granted, claim_task-Granted}
use cloudlink.TaskStore.Assignment.Types.{claim_task_type}
use cloudlink.TaskStore.Assignment.Limits.{claim_task-within_concurrency}
use cloudlink.TaskStore.Assignment.Once.{claim_task_fresh, claim_task_runs, claim_task_once}
use cloudlink.TaskStore.Report.{
  renew_task_lease, cancel_task, report_failed, get_task_for_submitter,
}
use cloudlink.TaskStore.Dangling.{claim_task_dangling}

abbrev types : List String
types = "script_job" ∷ []

abbrev claimed_as : String → String → Claimed
claimed_as id lease = record {
  id = id;
  type = "script_job";
  payload = plain_payload;
  lease_id = some lease;
}

abbrev after_first : Db
after_first = (claim_task settings 10000000 10000001 "l1" "w1" types none none world).1

world-IsValid : IsValid world
unfolding get_task
world-IsValid = record { sound = ground arith; unique = ground arith }

first_claim :
    claim_task settings 10000000 10000001 "l1" "w1" types none none world
    ≡ (ok (some (claimed_as "t1" "l1")), after_first)
unfolding claim_task claim_body transaction ◌>>=◌ query execute pure get_worker expire_pending_tasks
    expire_locked_tasks expire_unavailable_dataset_tasks expire_each dataset_availability_rejection
    availability released_dataset_ids touch_worker choose needs_update
    worker_uses_unsupported_platform version_at_least running_task_count pick
    worker_supports_runtime fits_capacity shortages field_shortage gpu_shortage float
    worker_ideal_capacity worker_current_capacity subtract_running_reservations
    subtract_gpu_reservation get_task lower
first_claim = refl

-- What goes on between the two claims.
abbrev calls : List Call
calls =
    renews 11000000 "t1" "w1" "l1"
    ∷ cancels 12000000 "t1" (some "bob") ""
    ∷ fails 13000000 "t1" "w1" "l1" "broken" none none
    ∷ touches 14000000 "w2" silent
    ∷ asks_status 14500000 14500001
    ∷ []

-- The digest of results, which the theorems leave open.
abbrev digest : String → String
digest result = result

abbrev after_calls : Db
after_calls = run digest settings calls after_first

abbrev after_second : Db
after_second = (claim_task settings 15000000 15000001 "l2" "w2" types none none after_calls).1

second_claim :
    claim_task settings 15000000 15000001 "l2" "w2" types none none after_calls
    ≡ (ok (some (claimed_as "t2" "l2")), after_second)
unfolding claim_task claim_body transaction ◌>>=◌ query execute pure get_worker expire_pending_tasks
    expire_locked_tasks expire_unavailable_dataset_tasks expire_each dataset_availability_rejection
    availability released_dataset_ids touch_worker choose needs_update
    worker_uses_unsupported_platform version_at_least running_task_count pick
    worker_supports_runtime fits_capacity shortages field_shortage gpu_shortage float
    worker_ideal_capacity worker_current_capacity subtract_running_reservations
    subtract_gpu_reservation get_task lower run queue_status renew_task_lease cancel_task
    report_failed get_task_for_submitter set_task_artifact_expiry validate_text_size
second_claim = refl

claim_task_once_example : ¬ ((claimed_as "t1" "l1").id ≡ (claimed_as "t2" "l2").id)
claim_task_once_example =
    claim_task_once digest settings 10000000 10000001 15000000 15000001 "l1" "w1" "l2" "w2" types
      types none none none none (claimed_as "t1" "l1") (claimed_as "t2" "l2") calls world
      after_first after_second world-IsValid first_claim second_claim

run-IsValid_example : IsValid (run digest settings calls world)
run-IsValid_example = run-IsValid digest settings calls world world-IsValid

run-Evolves_example : Evolves world.tasks (run digest settings calls world).tasks
run-Evolves_example = run-Evolves digest settings calls world world-IsValid

claim_task-within_concurrency_example :
    (w : Worker) × (get_worker world "w1" ≡ ok w)
    × (running_task_count after_first 10000001 "w1" ≤ max 1 w.max_concurrent_tasks)
claim_task-within_concurrency_example =
    claim_task-within_concurrency settings 10000000 10000001 "l1" "w1" types none none
      (claimed_as "t1" "l1") world after_first world-IsValid first_claim

first_worker : get_worker world "w1" ≡ ok (worker "w1")
unfolding get_worker
first_worker = refl

first_task : get_task world "t1" ≡ ok (waiting "t1")
unfolding get_task
first_task = refl

abbrev eight_cores_now : Capacity
eight_cores_now = worker_current_capacity (worker "w1")

claim_task-Granted_example :
    Granted settings 10000000 10000001 "l1" "w1" types none (claimed_as "t1" "l1") world after_first
claim_task-Granted_example =
    claim_task-Granted settings 10000000 10000001 "l1" "w1" types none none (claimed_as "t1" "l1")
      world after_first first_claim

claim_task_type_example :
    ((worker "w1").enabled ≡ true)
    × (contains (claimed_as "t1" "l1").type types ≡ true)
    × (contains (claimed_as "t1" "l1").type (worker "w1").supported_types ≡ true)
    × (contains (claimed_as "t1" "l1").type settings.allowed_task_types ≡ true)
claim_task_type_example =
    claim_task_type settings 10000000 10000001 "l1" "w1" types none none (claimed_as "t1" "l1")
      (worker "w1") world after_first world-IsValid first_claim first_worker

claim_task_fresh_example : (waiting "t1").status ≡ pending
claim_task_fresh_example =
    claim_task_fresh settings 10000000 10000001 "l1" "w1" types none none (claimed_as "t1" "l1")
      world after_first (waiting "t1") world-IsValid first_claim first_task

claim_task_runs_example :
    (t : Task) × (get_task after_first "t1" ≡ ok t)
    × (t.status ≡ running)
    × (t.locked_by ≡ some "w1")
    × (t.lease_id ≡ some "l1")
    × (claimed_as "t1" "l1" ≡ claimed t)
claim_task_runs_example =
    claim_task_runs settings 10000000 10000001 "l1" "w1" types none none (claimed_as "t1" "l1")
      world after_first world-IsValid first_claim

abbrev blocked : Db
blocked = record world { tasks = lost_data ∷ world.tasks }

blocked_worker : get_worker blocked "w2" ≡ ok (worker "w2")
unfolding get_worker
blocked_worker = refl

gone_is_named : non_empty (strip "gone") ≡ true
unfolding strip
gone_is_named = refl

claim_task_dangling_example :
    (id : String) × (claim_task settings 10000000 10000001 "l1" "w2" types none none blocked
      ≡ (err (dataset_not_found id), blocked))
claim_task_dangling_example =
    claim_task_dangling settings 10000000 10000001 "l1" "w2" types none none (worker "w2") blocked
      blocked_worker refl (inl (((inl (gone_is_named, refl)), refl), refl))
