-- ===== src/TaskStore/Lifecycle/Claiming.antt =====
-- Submissions, heartbeats and claims keep the rows well formed and move tasks forward.
use cloudlink.Prelude.{
  ℕ, suc, Bool, true, false, ◌&&◌, String, List, [], ◌∷◌, Option, none, some, ◌≡◌, refl, arith, ℤ,
  select, contains, string_eq,
}
use cloudlink.Errors.{Error, ok, raise_if}
use cloudlink.ResourceModel.Types.{ResourceRequest}
use cloudlink.Database.Tasks.{Time, Task}
use cloudlink.Database.Workers.{Worker, CapacityState}
use cloudlink.Database.Action.{Db, Settings}
use cloudlink.TaskStore.Workers.{needs_update, is_active}
use cloudlink.TaskStore.Capacity.{worker_current_capacity, subtract_running_reservations}
use cloudlink.TaskStore.Queue.{has_id, is_pending, oldest_first, is_waiting}
use cloudlink.TaskStore.Submit.{NewTask, pending_task, accept, create_task}
use cloudlink.TaskStore.Touch.{Heartbeat, touch_worker}
use cloudlink.TaskStore.Claim.{
  dataset_gone, fail_waiting, expire_each, expire_unavailable_dataset_tasks, Selection, nothing,
  starved, chosen, locked, finish, allowed, candidates, choose, claim_body, claim_task, is_busy,
}
use cloudlink.TaskStore.Status.{queue_status}
use cloudlink.TaskStore.Lifecycle.{IsValid}
use cloudlink.TaskStore.Lifecycle.Updates.{
  Advances, Later, Later-refl, Later-same_tasks, update_where-Later, set_task-Later, append-Later,
}
use cloudlink.TaskStore.Lifecycle.Rules.{
  Keeps, query_rule, write_rule, Keeps-query, Keeps-query_last, Keeps-then, Keeps-bind, Keeps-pure,
  Keeps-transaction,
}
use cloudlink.TaskStore.Lifecycle.Found.{IsIn, candidates-IsIn, Serves, pick-Serves, Serves-All}
use cloudlink.TaskStore.Lifecycle.Steps.{expire_locked_tasks-Later, expire_pending_tasks-Later}

pub touch_worker-Keeps : (now : Time) (id : String) (h : Heartbeat) → Keeps (touch_worker now id h)
unfolding touch_worker
touch_worker-Keeps now id h = Keeps-query _ _ λ _. Keeps-query _ _ λ _.
    Keeps-query _ _ λ concurrent.
      Keeps-query _ _
        λ active. Keeps-then _ _ (λ db v. Later-same_tasks db _ refl v) (Keeps-query_last _)

dataset_gone-Later :
    (now : Time) (id : String) (db : Db) → IsValid db → Later db (fail_waiting now id db)
dataset_gone-Later now id =
    update_where-Later (λ t. has_id id t && is_pending t.status) (dataset_gone now)
      (λ t h s. ground arith)

expire_each-Keeps :
    (settings : Settings) (now : Time) (ts : List Task) (n : ℕ)
    → Keeps (expire_each settings now ts n)
unfolding expire_each
expire_each-Keeps settings now [] n = Keeps-pure n
expire_each-Keeps settings now (t ∷ ts) n = Keeps-query _ _ (elim [
  | none ↦ expire_each-Keeps settings now ts n
  | some r ↦
      Keeps-then _ _ (dataset_gone-Later now t.id) (expire_each-Keeps settings now ts (suc n))
])

locked-Advances :
    (settings : Settings) (now later : Time) (lease worker id : String) (r : ResourceRequest)
    → Advances (λ t. has_id id t && is_pending t.status) (locked settings now later lease worker r)
locked-Advances settings now later lease worker id r t h s = ground arith

pub expire_unavailable-Keeps :
    (settings : Settings) (now : Time) → Keeps (expire_unavailable_dataset_tasks settings now)
expire_unavailable-Keeps settings now db v =
    unfold expire_unavailable_dataset_tasks in
    expire_each-Keeps settings now (oldest_first (select is_waiting db.tasks)) 0 db v

-- What `choose` has seen to when it names a task.
pub record Choice (settings : Settings) (now later : Time) (types : List String) (w : Worker)
    (db : Db) (t : Task) (r : ResourceRequest) : Type 0 where
  pub updated : needs_update settings w ≡ false
  pub active : is_active w.lifecycle_status ≡ true
  pub free : is_busy db later w ≡ false
  pub served :
      Serves db settings now later w
        (subtract_running_reservations db later w.worker_id (worker_current_capacity w))
        (candidates types db)
        t
        r

pub choose-Choice :
    (settings : Settings) (now later : Time) (types : List String) (w : Worker) (db : Db) (t : Task)
    (r : ResourceRequest)
    → choose settings now later types w db ≡ ok (chosen t r)
    → Choice settings now later types w db t r
unfolding choose
choose-Choice settings now later types w db t r h =
    let taken =
      pick-Serves db settings now later w
        (subtract_running_reservations db later w.worker_id (worker_current_capacity w))
        (candidates types db) t r in
    record {
      updated = ground arith;
      active = ground arith;
      free = ground arith;
      served = taken (ground arith);
    }

finish-Later :
    (settings : Settings) (now later : Time) (lease worker : String) (types : List String)
    (w : Worker) (db : Db) (x : Selection)
    → choose settings now later types w db ≡ ok x
    → IsValid db
    → Later db (finish settings now later lease worker x db).1
finish-Later settings now later lease worker types w db nothing h v = Keeps-pure _ db v
finish-Later settings now later lease worker types w db starved h v = Keeps-pure _ db v
finish-Later settings now later lease worker types w db (chosen t r) h v =
    let choice = choose-Choice settings now later types w db t r h in
    let found =
      Serves-All db settings now later w
        (subtract_running_reservations db later w.worker_id (worker_current_capacity w))
        (λ u. IsIn db.tasks u × ((contains u.type types && is_pending u.status) ≡ true))
        (candidates types db) t r (candidates-IsIn types db v.unique) choice.served in
    write_rule _ _ db
      (set_task-Later t.id (locked settings now later lease worker r) (λ u. is_pending u.status) db
        t found.0.0 (ground arith) (locked-Advances settings now later lease worker t.id r) v)
      (Keeps-bind _ _ (touch_worker-Keeps later worker _) λ _. Keeps-query _ _ λ _. Keeps-pure _)

claim_body-Keeps :
    (settings : Settings) (now later : Time) (lease worker : String) (supported : List String)
    (state : Option CapacityState) (active : Option ℤ)
    → Keeps (claim_body settings now later lease worker supported state active)
unfolding claim_body
claim_body-Keeps settings now later lease worker supported state active = Keeps-query _ _ λ w.
    Keeps-query _ _ λ _.
      Keeps-then _ _ (expire_pending_tasks-Later now settings.queue_timeout_seconds) (
        Keeps-bind _ _ (expire_unavailable-Keeps settings later) λ _.
          Keeps-then _ _ (expire_locked_tasks-Later now) (
            Keeps-bind _ _ (touch_worker-Keeps later worker _) λ touched db v.
              query_rule _ _ db (λ out. Later db out.1) (λ e _. Later-refl db v)
                λ x h.
                  finish-Later settings now later lease worker (allowed settings w supported)
                    touched db x h v))

-- A claim keeps the table well formed and moves its tasks forward.
pub claim_task-Keeps :
    (settings : Settings) (now later : Time) (lease worker : String) (supported : List String)
    (state : Option CapacityState) (active : Option ℤ)
    → Keeps (claim_task settings now later lease worker supported state active)
unfolding claim_task
claim_task-Keeps settings now later lease worker supported state active =
    Keeps-transaction _ (claim_body-Keeps settings now later lease worker supported state active)

unused : (b : Bool) (e : Error) → raise_if b e ≡ ok tt → b ≡ false
unused b e h = ground arith

accept-Keeps : (settings : Settings) (now : Time) (n : NewTask) → Keeps (accept settings now n)
unfolding accept
accept-Keeps settings now n = Keeps-query _ _ λ _. Keeps-query _ _ λ _. Keeps-query _ _ λ _.
    Keeps-query _ _ λ _. Keeps-query _ _ λ _.
      Keeps-query _ _
        λ _. Keeps-query _ _ λ _. Keeps-query _ _ λ _. Keeps-query _ _ λ _. Keeps-query_last _

-- A submission keeps the table well formed and moves its tasks forward.
pub create_task-Keeps :
    (settings : Settings) (now later : Time) (id : String) (n : NewTask)
    → Keeps (create_task settings now later id n)
unfolding create_task
create_task-Keeps settings now later id n =
    Keeps-then _ _ (expire_pending_tasks-Later now settings.queue_timeout_seconds) (
      Keeps-bind _ _ (accept-Keeps settings later n) λ r db v.
        query_rule _ _ db (λ out. Later db out.1) (λ e _. Later-refl db v)
          λ _ fresh.
            write_rule _ _ db
              (append-Later db (pending_task now id n r) (unused _ _ fresh) (ground arith) v)
              (Keeps-query_last _))

-- So does a question about the queue, which expires tasks.
pub queue_status-Keeps :
    (settings : Settings) (now later : Time) → Keeps (queue_status settings now later)
unfolding queue_status
queue_status-Keeps settings now later =
    Keeps-then _ _ (expire_pending_tasks-Later now settings.queue_timeout_seconds) (
      Keeps-then _ _ (expire_locked_tasks-Later now)
        (Keeps-bind _ _ (expire_unavailable-Keeps settings later) λ _. Keeps-query_last _))
