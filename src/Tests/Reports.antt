-- ===== src/Tests/Reports.antt =====
-- The theorems on reports, cancellations and expiry at the sample system.
use cloudlink.Prelude.{◌≤◌, ◌++◌, String, [], ◌∷◌, none, some, ◌≡◌, refl, inl, strip}
use cloudlink.Prelude.Double.{float}
use cloudlink.Errors.{ok, err, task_not_found, task_conflict}
use cloudlink.Database.Tasks.{Task, pending, cancelled}
use cloudlink.Database.Action.{Db, ◌>>=◌, query, execute, pure}
use cloudlink.ResourceModel.Request.{number, int, ceil_int, normalize_resource_request}
use cloudlink.DatasetStore.Queries.{released_dataset_ids}
use cloudlink.TaskStore.Queue.{
  get_task, expire_pending_tasks, expire_locked_tasks, set_task_artifact_expiry, validate_text_size,
  validate_json_size, pending_count, check_pending_limit, lose_lease,
}
use cloudlink.TaskStore.Scheduling.{
  default_request, normalize_task_resource_request, has_resource_requirements,
  dataset_availability_rejection, availability,
}
use cloudlink.TaskStore.Submit.{create_task, accept, normalize_id}
use cloudlink.TaskStore.Report.{
  report_success, report_failed, renew_task_lease, cancel_task, get_task_for_submitter, succeeded,
  cancel_asked, cancelled_by,
}
use cloudlink.TaskStore.Expiry.{
  expiry_complete, renew_lost_lease, create_task_within_limit, Expires, LeaseIsOver, WaitIsOver,
  worker_lost, waited_in_vain,
}
use cloudlink.TaskStore.Outcomes.{Holds, success_row, report_success_outcome, report_success_replay}
use cloudlink.TaskStore.Outcomes.Cancellation.{cancellation_wins}
use cloudlink.TaskStore.Outcomes.Strangers.{report_by_stranger, cancel_by_stranger}
use cloudlink.Tests.World.{settings, waiting, held, world, new_task}

-- The digest of results, which the theorems leave open.
abbrev digest : String → String
digest result = result

abbrev done : Task
done = succeeded "{}" "{}" "l0" none 20000000 held

abbrev after_success : Db
after_success = (report_success digest settings 20000000 "held" "w1" "l0" none "{}" none world).1

reported :
    report_success digest settings 20000000 "held" "w1" "l0" none "{}" none world
    ≡ (ok done, after_success)
unfolding report_success ◌>>=◌ query execute pure validate_json_size validate_text_size get_task
    set_task_artifact_expiry
reported = refl

held_task : get_task world "held" ≡ ok held
unfolding get_task
held_task = refl

report_success_outcome_example :
    Holds "w1" "l0" held
    × (done ≡ success_row digest 20000000 "l0" "{}" none held)
    × (get_task after_success "held" ≡ ok done)
report_success_outcome_example =
    report_success_outcome digest settings 20000000 "held" "w1" "l0" none "{}" none held done world
      after_success held_task refl reported

report_success_replay_example :
    report_success digest settings 30000000 "held" "w2" "l0" none "{}" none after_success
    ≡ (ok done, after_success)
report_success_replay_example =
    report_success_replay digest settings "held" "l0" none "{}" none 20000000 30000000 "w1" "w2"
      done world after_success reported refl

abbrev asked : Task
asked = cancel_asked "no longer needed" 15000000 held

abbrev after_cancel : Db
after_cancel = (cancel_task settings 15000000 "held" (some "ann") "no longer needed" world).1

cancel_accepted :
    cancel_task settings 15000000 "held" (some "ann") "no longer needed" world
    ≡ (ok asked, after_cancel)
unfolding cancel_task ◌>>=◌ query execute expire_pending_tasks get_task_for_submitter get_task
    validate_text_size strip
cancel_accepted = refl

abbrev stopped : Task
stopped = cancelled_by "no longer needed" 20000000 asked

abbrev after_stop : Db
after_stop =
    (report_success digest settings 20000000 "held" "w1" "l0" none "{}" none after_cancel).1

stop_reported :
    report_success digest settings 20000000 "held" "w1" "l0" none "{}" none after_cancel
    ≡ (ok stopped, after_stop)
unfolding report_success ◌>>=◌ query execute pure validate_json_size validate_text_size get_task
    set_task_artifact_expiry cancel_task expire_pending_tasks get_task_for_submitter strip
stop_reported = refl

cancellation_wins_example : (stopped.status ≡ cancelled) × (get_task after_stop "held" ≡ ok stopped)
cancellation_wins_example =
    cancellation_wins digest settings 15000000 20000000 "held" "w1" "l0" "no longer needed" "{}" ""
      (some "ann") none none none asked stopped world after_cancel after_stop cancel_accepted refl
      (inl stop_reported)

report_by_stranger_example :
    ((report_success digest settings 20000000 "held" "w2" "l0" none "{}" none world).1 ≡ world)
    × ((report_failed settings 20000000 "held" "w2" "l0" "broken" none none world).1 ≡ world)
report_by_stranger_example =
    report_by_stranger digest settings 20000000 "held" "w2" "l0" "{}" "broken" none none none held
      world held_task refl

unseen : get_task_for_submitter world "t1" (some "bob") ≡ err (task_not_found "t1")
unfolding get_task_for_submitter get_task
unseen = refl

cancel_by_stranger_example :
    cancel_task settings 15000000 "t1" (some "bob") "" world
    ≡ (err (task_not_found "t1"), expire_pending_tasks 15000000 3600 world)
cancel_by_stranger_example = cancel_by_stranger settings 15000000 "t1" (some "bob") "" world unseen

expiry_complete_example :
    Expires
      (LeaseIsOver 50000000)
      (worker_lost 50000000)
      world.tasks
      (expire_locked_tasks 50000000 world).tasks
    × Expires
        (WaitIsOver 20 50000000)
        (waited_in_vain 50000000)
        world.tasks
        (expire_pending_tasks 50000000 20 world).tasks
expiry_complete_example = expiry_complete 50000000 20 world

renew_lost_lease_example :
    (renew_task_lease settings 50000000 "held" "w1" "l0" world
      ≡ (err (task_conflict "Task is already finished"), expire_locked_tasks 50000000 world))
    × (get_task (expire_locked_tasks 50000000 world) "held" ≡ ok (lose_lease 50000000 held))
renew_lost_lease_example =
    renew_lost_lease settings 50000000 "held" "w1" "l0" held world held_task refl

-- A submission that asks for nothing.
abbrev accepted : Task
accepted = record (waiting "t3") {
  created_at = 16000000;
  updated_at = 16000000;
  resource_request = some default_request;
}

abbrev after_create : Db
after_create = (create_task settings 16000000 16000001 "t3" new_task world).1

created : create_task settings 16000000 16000001 "t3" new_task world ≡ (ok accepted, after_create)
unfolding create_task accept ◌>>=◌ query execute expire_pending_tasks validate_json_size
    validate_text_size check_pending_limit normalize_task_resource_request
    normalize_resource_request int ceil_int number float has_resource_requirements strip
    dataset_availability_rejection availability released_dataset_ids get_task normalize_id
created = refl

create_task_within_limit_example :
    (get_task after_create "t3" ≡ ok accepted)
    × (accepted.status ≡ pending)
    × (after_create.tasks ≡ (expire_pending_tasks 16000000 3600 world).tasks ++ accepted ∷ [])
    × (pending_count after_create ≤ 10)
create_task_within_limit_example =
    create_task_within_limit settings 16000000 16000001 "t3" new_task accepted world after_create
      created
