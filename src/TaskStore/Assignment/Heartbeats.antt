-- ===== src/TaskStore/Assignment/Heartbeats.antt =====
-- What heartbeats and the expiry of tasks leave of the worker that claims.
use cloudlink.Prelude.{
  ℕ, String, List, [], ◌∷◌, Option, some, ◌≡◌, refl, ap, arith, find, coalesce, ℤ, suc,
  update_where, string_eq,
}
use cloudlink.Errors.{ok}
use cloudlink.Database.Tasks.{Time, Task}
use cloudlink.Database.Workers.{Worker, CapacityState}
use cloudlink.Database.Action.{Db, Settings, ◌>>=◌, query, execute, pure}
use cloudlink.Database.Runs.{query_ok, execute_ok}
use cloudlink.TaskStore.Workers.{get_worker, has_worker_id}
use cloudlink.TaskStore.Touch.{Heartbeat, touch_worker, silent, on_worker, touched}
use cloudlink.TaskStore.Claim.{expire_each, fail_waiting}

pub touch_worker-tasks :
    (now : Time) (id : String) (h : Heartbeat) (db : Db)
    → (touch_worker now id h db).1.tasks ≡ db.tasks
unfolding touch_worker ◌>>=◌ query execute
touch_worker-tasks now id h db = ground arith

pub touch_worker_read :
    (now : Time) (id : String) (h : Heartbeat) (db db' : Db) (w : Worker)
    → touch_worker now id h db ≡ (ok w, db')
    → get_worker db' id ≡ ok w
unfolding touch_worker ◌>>=◌ query execute
touch_worker_read now id h db db' w e = ground arith

pub expire_each-workers :
    (settings : Settings) (now : Time) (ts : List Task) (n : ℕ) (db : Db)
    → (expire_each settings now ts n db).1.workers ≡ db.workers
unfolding expire_each ◌>>=◌ query execute pure
expire_each-workers settings now [] n db = refl
expire_each-workers settings now (t ∷ ts) n db = ground (
  arith,
  expire_each-workers settings now ts n db,
  expire_each-workers settings now ts (suc n) (fail_waiting now t.id db),
)

pub find_worker-update :
    (id : String) (f : Worker → Worker) (ws : List Worker) (w : Worker)
    → ((x : Worker) → (f x).worker_id ≡ x.worker_id)
    → find (has_worker_id id) ws ≡ some w
    → find (has_worker_id id) (update_where (has_worker_id id) f ws) ≡ some (f w)
find_worker-update id f [] w k h = absurd (cc)
find_worker-update id f (x ∷ ws) w k h = ground (arith, k x, find_worker-update id f ws w k)

-- A heartbeat as it is sent with a claim leaves the worker's limit and its profile as they are.
pub touch_worker_claiming :
    (now : Time) (id : String) (state : Option CapacityState) (count : Option ℤ) (db db' : Db)
    (w w' : Worker)
    → get_worker db id ≡ ok w
    → touch_worker now id (record silent { capacity_state = state; active_task_count = count }) db
      ≡ (ok w', db')
    → (w'.max_concurrent_tasks ≡ w.max_concurrent_tasks)
      × (w'.hardware_profile ≡ w.hardware_profile)
      × (w'.capacity_state ≡ coalesce state w.capacity_state)
unfolding get_worker touch_worker
touch_worker_claiming now id state count db db' w w' known e =
    let h : Heartbeat = record silent { capacity_state = state; active_task_count = count } in
    let (w0, read0, e1) = query_ok _ _ db db' w' e in
    let (u, enabled, e2) = query_ok _ _ db db' w' e1 in
    let (concurrent, limit, e3) = query_ok _ _ db db' w' e2 in
    let (active, counted, e4) = query_ok _ _ db db' w' e3 in
    let e5 = execute_ok _ _ db db' w' e4 in
    let known_row : find (has_worker_id id) db.workers ≡ some w = ground arith in
    let row =
      find_worker-update id (touched now h concurrent active) db.workers w (λ x. refl) known_row in
    let after : get_worker (on_worker id (touched now h concurrent active) db) id ≡ ok w' =
      unfold query in ap (λ p. p.0) e5 in
    ground arith
