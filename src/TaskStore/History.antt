-- ===== src/TaskStore/History.antt =====
-- Any sequence of calls to the queue, of all its functions that change tasks, in any order and by any
-- workers and submitters.
use cloudlink.Prelude.{String, List, [], ◌∷◌, Option, ℤ}
use cloudlink.Database.Tasks.{Time}
use cloudlink.Database.Workers.{CapacityState}
use cloudlink.Database.Action.{Db, Settings}
use cloudlink.TaskStore.Submit.{NewTask, create_task}
use cloudlink.TaskStore.Touch.{Heartbeat, touch_worker}
use cloudlink.TaskStore.Claim.{claim_task}
use cloudlink.TaskStore.Report.{renew_task_lease, report_success, report_failed, cancel_task}
use cloudlink.TaskStore.Status.{queue_status}
use cloudlink.TaskStore.Lifecycle.{IsValid, Evolves}
use cloudlink.TaskStore.Lifecycle.Updates.{Later, Later-refl, Later-trans}
use cloudlink.TaskStore.Lifecycle.Steps.{
  renew_task_lease-Keeps, report_success-Keeps, report_failed-Keeps, cancel_task-Keeps,
}
use cloudlink.TaskStore.Lifecycle.Claiming.{
  touch_worker-Keeps, claim_task-Keeps, create_task-Keeps, queue_status-Keeps,
}

-- A call with its arguments; `now` and `later` are the readings of the clock.
pub data Call : Type 0 where
  creates : (now later : Time) (task_id : String) → NewTask → Call
  touches : (now : Time) (worker_id : String) → Heartbeat → Call
  claims :
      (now later : Time) (lease_id worker_id : String)
      → List String
      → Option CapacityState
      → Option ℤ
      → Call
  renews : (now : Time) (task_id worker_id lease_id : String) → Call
  succeeds :
      (now : Time) (task_id worker_id lease_id : String)
      → Option String
      → String
      → Option String
      → Call
  fails :
      (now : Time) (task_id worker_id lease_id error : String)
      → (logs error_code : Option String) → Call
  cancels : (now : Time) (task_id : String) → Option String → String → Call
  asks_status : (now later : Time) → Call

module _ (digest : String → String) (settings : Settings) where
  -- What a call leaves behind, whether it returns or raises.
  step : Call → Db → Db
  step (creates now later id n) db = (create_task settings now later id n db).1
  step (touches now worker h) db = (touch_worker now worker h db).1
  step (claims now later lease worker types state active) db =
      (claim_task settings now later lease worker types state active db).1
  step (renews now id worker lease) db = (renew_task_lease settings now id worker lease db).1
  step (succeeds now id worker lease reported result logs) db =
      (report_success digest settings now id worker lease reported result logs db).1
  step (fails now id worker lease error logs code) db =
      (report_failed settings now id worker lease error logs code db).1
  step (cancels now id submitter reason) db = (cancel_task settings now id submitter reason db).1
  step (asks_status now later) db = (queue_status settings now later db).1

  unfoldable pub run : List Call → Db → Db
  unfolding step
  run [] db = db
  run (c ∷ cs) db = run cs (step c db)

  step-Later : (c : Call) (db : Db) → IsValid db → Later db (step c db)
  unfolding step
  step-Later (creates now later id n) db v = create_task-Keeps settings now later id n db v
  step-Later (touches now worker h) db v = touch_worker-Keeps now worker h db v
  step-Later (claims now later lease worker types state active) db v =
      claim_task-Keeps settings now later lease worker types state active db v
  step-Later (renews now id worker lease) db v =
      renew_task_lease-Keeps settings now id worker lease db v
  step-Later (succeeds now id worker lease reported result logs) db v =
      report_success-Keeps digest settings now id worker lease reported result logs db v
  step-Later (fails now id worker lease error logs code) db v =
      report_failed-Keeps settings now id worker lease error logs code db v
  step-Later (cancels now id submitter reason) db v =
      cancel_task-Keeps settings now id submitter reason db v
  step-Later (asks_status now later) db v = queue_status-Keeps settings now later db v

  run-Later : (cs : List Call) (db : Db) → IsValid db → Later db (run cs db)
  unfolding run
  run-Later [] db v = Later-refl db v
  run-Later (c ∷ cs) db v =
      let first = step-Later c db v in
      Later-trans db (step c db) (run cs (step c db)) first (run-Later cs (step c db) first.valid)

  -- From a well-formed table every history of calls leads to a well-formed one: the key stays unique,
  -- a running task has an owner, a lease with its end, a start and a reservation, no other task has a
  -- lease, exactly the tasks with a terminal status are finished, and a success has its result.
  pub run-IsValid : (cs : List Call) (db : Db) → IsValid db → IsValid (run cs db)
  run-IsValid cs db v = (run-Later cs db v).valid

  -- Along every history from a well-formed table a task keeps its identifier, type, payload, request, submitter
  -- and creation time, its status only goes forward, and once the status is terminal the row does not
  -- change at all; rows are never lost, and new ones come behind the old.
  pub run-Evolves : (cs : List Call) (db : Db) → IsValid db → Evolves db.tasks (run cs db).tasks
  run-Evolves cs db v = (run-Later cs db v).evolves
