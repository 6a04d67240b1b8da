-- ===== src/TaskStore/Assignment.antt =====
-- What has happened when `claim_task` hands out a task.
pub mod Heartbeats
pub mod Sums
pub mod Types
pub mod Limits
pub mod Once
use cloudlink.Prelude.{
  ℕ, Bool, true, false, ◌&&◌, not, String, List, [], ◌∷◌, Option, none, some, ◌≡◌, refl, sym, ap,
  ◌∙◌, arith, if◌then◌else◌, find, All, coalesce, ℤ, suc, select, update_where, contains, string_eq,
  eq_of_beq, find_sound, Bool-cases, inl, inr,
}
use cloudlink.Errors.{Error, Result, ok, err, raise_if, or_raise}
use cloudlink.ResourceModel.Types.{ResourceRequest}
use cloudlink.Database.Tasks.{Time, Task}
use cloudlink.Database.Workers.{Worker, CapacityState}
use cloudlink.Database.Action.{
  Db, Settings, Action, ◌>>=◌, ◌>>◌, query, execute, pure, transaction, rollback, bind_result,
}
use cloudlink.Database.Runs.{bind_ok, query_ok, execute_ok, transaction_ok, pure_ok}
use cloudlink.TaskStore.Workers.{get_worker, has_worker_id}
use cloudlink.TaskStore.Capacity.{worker_current_capacity, subtract_running_reservations}
use cloudlink.TaskStore.Queue.{
  get_task, has_id, is_pending, is_waiting, oldest_first, set_task, expire_pending_tasks,
  expire_locked_tasks,
}
use cloudlink.TaskStore.Touch.{Heartbeat, touch_worker, silent, on_worker, touched}
use cloudlink.TaskStore.Claim.{
  Selection, nothing, starved, chosen, locked, request_of, finish, allowed, candidates, choose,
  claim_body, claim_task, Claimed, claimed, expire_unavailable_dataset_tasks, expire_each,
  fail_waiting,
}
use cloudlink.TaskStore.Lifecycle.{IsValid, Unique}
use cloudlink.TaskStore.Lifecycle.Updates.{Later, Later-trans}
use cloudlink.TaskStore.Lifecycle.Rules.{Keeps-run}
use cloudlink.TaskStore.Lifecycle.Steps.{expire_locked_tasks-Later, expire_pending_tasks-Later}
use cloudlink.TaskStore.Lifecycle.Found.{IsIn, candidates-IsIn, Picked, Serves-All}
use cloudlink.TaskStore.Lifecycle.Claiming.{
  touch_worker-Keeps, expire_unavailable-Keeps, Choice, choose-Choice,
}
use cloudlink.TaskStore.Assignment.Heartbeats.{
  touch_worker-tasks, touch_worker_read, expire_each-workers, find_worker-update,
  touch_worker_claiming,
}

-- A task was handed out: `before` is the database once waiting tasks and leases have expired and the
-- worker `w` has been touched.
pub record Granted (settings : Settings) (now later : Time) (lease worker : String)
    (supported : List String) (state : Option CapacityState) (c : Claimed) (db db' : Db)
    : Type 0 where
  pub before : Db
  pub registered : Worker
  pub w : Worker
  pub t : Task
  pub r : ResourceRequest
  pub expired : IsValid db → Later db before
  pub enabled : registered.enabled ≡ true
  pub limit : w.max_concurrent_tasks ≡ registered.max_concurrent_tasks
  pub hardware : w.hardware_profile ≡ registered.hardware_profile
  pub reports : w.capacity_state ≡ coalesce state registered.capacity_state
  pub known : get_worker db worker ≡ ok registered
  pub read : get_worker before worker ≡ ok w
  pub choice : Choice settings now later (allowed settings registered supported) w before t r
  pub found : IsValid db → find (has_id t.id) before.tasks ≡ some t
  pub was_pending : IsValid db → is_pending t.status ≡ true
  pub request : r ≡ request_of t
  pub tasks :
      db'.tasks ≡ update_where (has_id t.id) (locked settings now later lease worker r) before.tasks
  pub is_task : IsValid db → c ≡ claimed (locked settings now later lease worker r t)

-- The row that an update by its key has changed.
pub find-update_where_self :
    (id : String) (f : Task → Task) (ts : List Task) (t : Task)
    → ((u : Task) → (f u).id ≡ u.id)
    → find (has_id id) ts ≡ some t
    → find (has_id id) (update_where (has_id id) f ts) ≡ some (f t)
find-update_where_self id f [] t k h = absurd (cc)
find-update_where_self id f (x ∷ ts) t k h = ground (arith, k x, find-update_where_self id f ts t k)

get_task-find :
    (db : Db) (id : String) (t : Task) → get_task db id ≡ ok t → find (has_id id) db.tasks ≡ some t
unfolding get_task
get_task-find db id t h = ground arith

finish_ok :
    (settings : Settings) (now later : Time) (lease worker : String) (x : Selection) (db db' : Db)
    (c : Claimed)
    → finish settings now later lease worker x db ≡ (ok (some c), db')
    → (t : Task) × (r : ResourceRequest) × (x ≡ chosen t r)
      × (db'.tasks ≡ update_where (has_id t.id) (locked settings now later lease worker r) db.tasks)
      × (find (has_id t.id) db.tasks ≡ some t
          → c ≡ claimed (locked settings now later lease worker r t))
finish_ok settings now later lease worker nothing db db' c h = absurd (unfold pure in ground arith)
finish_ok settings now later lease worker starved db db' c h = absurd (unfold pure in ground arith)
finish_ok settings now later lease worker (chosen t r) db db' c h =
    let f = locked settings now later lease worker r in
    let h1 = execute_ok (set_task t.id f) _ db db' (some c) h in
    let (w, db2, touching, h2) = bind_ok _ _ (set_task t.id f db) db' (some c) h1 in
    let (task, reading, h3) = query_ok _ _ db2 db' (some c) h2 in
    let (same_result, same_db) = pure_ok (some (claimed task)) (some c) db2 db' h3 in
    let kept : db'.tasks ≡ update_where (has_id t.id) f db.tasks =
      ap (λ d. d.tasks) (sym same_db)
      ∙ sym (ap (λ p. p.1.tasks) touching)
      ∙ touch_worker-tasks later worker (record silent { claimed = true }) (set_task t.id f db) in
    (
      t,
      r,
      refl,
      kept,
      λ found.
          let now_found = find-update_where_self t.id f db.tasks t (λ u. refl) found in
          let row = get_task-find db2 t.id task reading in
          let tasks2 : db2.tasks ≡ update_where (has_id t.id) f db.tasks =
            ap (λ d. d.tasks) same_db ∙ kept in
          let same : task ≡ f t = ground (arith, ap (find (has_id t.id)) tasks2) in
          ground (arith, ap claimed same),
    )

All-trivial : (ts : List Task) → All (λ k. Unit {0}) ts
All-trivial [] = tt
All-trivial (t ∷ ts) = (tt, All-trivial ts)

not_raised : (b : Bool) (e : Error) (u : Unit {0}) → raise_if (not b) e ≡ ok u → b ≡ true
not_raised b e u h = ground arith

and_right : (a b : Bool) → (a && b) ≡ true → b ≡ true
and_right a b h = ground arith

-- A claim that hands out a task was made by an enabled, registered worker; see `Granted`.
claim_body-Granted :
    (settings : Settings) (now later : Time) (lease worker : String) (supported : List String)
    (state : Option CapacityState) (active : Option ℤ) (c : Claimed) (db db' : Db)
    → claim_body settings now later lease worker supported state active db ≡ (ok (some c), db')
    → Granted settings now later lease worker supported state c db db'
unfolding claim_body
claim_body-Granted settings now later lease worker supported state active c db db' h =
    let (w0, known, h1) = query_ok _ _ db db' (some c) h in
    let (u, allowed_in, h2) = query_ok _ _ db db' (some c) h1 in
    let heartbeat : Heartbeat = record silent {
      capacity_state = state;
      active_task_count = active;
    } in
    let db1 : Db = expire_pending_tasks now settings.queue_timeout_seconds db in
    let h3 = execute_ok _ _ db db' (some c) h2 in
    let (n, db2, unavailable, h4) = bind_ok _ _ db1 db' (some c) h3 in
    let db3 : Db = expire_locked_tasks now db2 in
    let h5 = execute_ok _ _ db2 db' (some c) h4 in
    let (w, db4, touching, h6) = bind_ok _ _ db3 db' (some c) h5 in
    let (x, chose, h7) = query_ok _ _ db4 db' (some c) h6 in
    let (t, r, picked, tasks, is_task) = finish_ok settings now later lease worker x db4 db' c h7 in
    let types : List String = allowed settings w0 supported in
    let choice = choose-Choice settings now later types w db4 t r (chose ∙ ap ok picked) in
    let up : IsValid db → Later db db4 = λ v.
      let l1 = expire_pending_tasks-Later now settings.queue_timeout_seconds db v in
      let l2 =
        Keeps-run (expire_unavailable_dataset_tasks settings later) db1 db2 (ok n)
          (expire_unavailable-Keeps settings later) unavailable l1.valid in
      let l3 = expire_locked_tasks-Later now db2 l2.valid in
      let l4 =
        Keeps-run (touch_worker later worker heartbeat) db3 db4 (ok w)
          (touch_worker-Keeps later worker heartbeat) touching l3.valid in
      Later-trans db db1 db4 l1 (Later-trans db1 db2 db4 l2 (Later-trans db2 db3 db4 l3 l4)) in
    let same_workers : db2.workers ≡ db.workers =
      unfold expire_pending_tasks in
      sym (ap (λ p. p.1.workers) unavailable)
      ∙ unfold expire_unavailable_dataset_tasks in
        expire_each-workers settings later (oldest_first (select is_waiting db1.tasks)) 0 db1 in
    let known3 : get_worker db3 worker ≡ ok w0 =
      unfold get_worker expire_locked_tasks in rw same_workers (unfold get_worker in known) in
    let kept = touch_worker_claiming later worker state active db3 db4 w0 w known3 touching in
    let row = λ (v : IsValid db).
      (Serves-All db4 settings now later w
        (subtract_running_reservations db4 later w.worker_id (worker_current_capacity w))
        (λ (k : Task). IsIn db4.tasks k × ((contains k.type types && is_pending k.status) ≡ true))
        (candidates types db4) t r (candidates-IsIn types db4 (up v).valid.unique)
        choice.served).0 in
    record {
      before = db4;
      registered = w0;
      w = w;
      t = t;
      r = r;
      expired = up;
      limit = kept.0;
      hardware = kept.1;
      reports = kept.2;
      enabled = not_raised w0.enabled _ u allowed_in;
      known = known;
      read = touch_worker_read later worker _ db3 db4 w touching;
      choice = choice;
      found = λ v. (row v).0;
      was_pending = λ v. and_right _ _ (row v).1;
      request =
          (Serves-All db4 settings now later w
            (subtract_running_reservations db4 later w.worker_id (worker_current_capacity w))
            (λ k. Unit {0}) (candidates types db4) t r (All-trivial (candidates types db4))
            choice.served).1.request;
      tasks = tasks;
      is_task = λ v. is_task (row v).0;
    }

-- A claim that hands out a task was made by an enabled, registered worker that is active, needs no
-- update and is not busy. From a well-formed table the task is pending, of an allowed type, and the first by age of those that
-- are not passed over, and one is passed over only for its runtime, for a CPU worker that is free,
-- for its datasets, for its size, or for want of room now while it is young; it fits. Of all rows
-- only that of the task changes then, to a lease for the worker.
pub claim_task-Granted :
    (settings : Settings) (now later : Time) (lease worker : String) (supported : List String)
    (state : Option CapacityState) (active : Option ℤ) (c : Claimed) (db db' : Db)
    → claim_task settings now later lease worker supported state active db ≡ (ok (some c), db')
    → Granted settings now later lease worker supported state c db db'
unfolding claim_task
claim_task-Granted settings now later lease worker supported state active c db db' h =
    claim_body-Granted settings now later lease worker supported state active c db db' (
      transaction_ok (claim_body settings now later lease worker supported state active) db db'
        (some c) h)
