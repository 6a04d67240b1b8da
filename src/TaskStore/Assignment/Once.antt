-- ===== src/TaskStore/Assignment/Once.antt =====
-- A task is handed out once: what `claim_task` gives away was waiting, and never waits again.
use cloudlink.Prelude.{ℤ, true, String, List, Option, some, ◌≡◌, refl, ap, arith, find, string_eq}
use cloudlink.Errors.{ok}
use cloudlink.Database.Tasks.{Time, Task, Status, pending, running}
use cloudlink.Database.Workers.{CapacityState}
use cloudlink.Database.Action.{Db, Settings}
use cloudlink.TaskStore.Queue.{get_task, has_id, is_pending}
use cloudlink.TaskStore.Claim.{Claimed, claimed, claim_task, locked}
use cloudlink.TaskStore.Lifecycle.{IsValid, reaches}
use cloudlink.TaskStore.Lifecycle.Found.{find-Evolves, found_task, task_found}
use cloudlink.TaskStore.Lifecycle.Rules.{Keeps-run}
use cloudlink.TaskStore.Lifecycle.Claiming.{claim_task-Keeps}
use cloudlink.TaskStore.History.{Call, run, run-Evolves, run-IsValid}
use cloudlink.TaskStore.Assignment.{claim_task-Granted, find-update_where_self}

reached_pending : (s u : Status) → reaches s u ≡ true → is_pending u ≡ true → s ≡ pending
reached_pending s u h k = ground arith

module _ (settings : Settings) (now later : Time) (lease worker : String) (supported : List String)
    (state : Option CapacityState) (active : Option ℤ) (c : Claimed) (db db' : Db) where
  -- From a well-formed table, a task that a claim hands out was pending in the database in which the claim began, if it was
  -- there: a task of which a lease has run out is not handed out again.
  pub claim_task_fresh :
      (t : Task)
      → IsValid db
      → claim_task settings now later lease worker supported state active db ≡ (ok (some c), db')
      → get_task db c.id ≡ ok t
      → t.status ≡ pending
  claim_task_fresh t v h found =
      let g =
        claim_task-Granted settings now later lease worker supported state active c db db' h in
      let same : c.id ≡ g.t.id = ap (λ x. x.id) (g.is_task v) in
      let (u, at_claim, moves) =
        find-Evolves c.id db.tasks g.before.tasks t (g.expired v).evolves
          (task_found db c.id t found) in
      let row : find (has_id c.id) g.before.tasks ≡ some g.t = rw same (g.found v) in
      let u_is : u ≡ g.t = ground arith in
      reached_pending t.status u.status moves.forward (rw u_is (g.was_pending v))

  -- After a claim from a well-formed table the task that it hands out is running under the claim's lease, for the worker.
  pub claim_task_runs :
      IsValid db
      → claim_task settings now later lease worker supported state active db ≡ (ok (some c), db')
      → (t : Task) × (get_task db' c.id ≡ ok t)
        × (t.status ≡ running)
        × (t.locked_by ≡ some worker)
        × (t.lease_id ≡ some lease)
        × (c ≡ claimed t)
  claim_task_runs v h =
      let g =
        claim_task-Granted settings now later lease worker supported state active c db db' h in
      let same : c.id ≡ g.t.id = ap (λ x. x.id) (g.is_task v) in
      let f = locked settings now later lease worker g.r in
      let row = find-update_where_self g.t.id f g.before.tasks g.t (λ u. refl) (g.found v) in
      (f g.t, found_task db' c.id (f g.t) (rw (same, g.tasks) row), refl, refl, refl, g.is_task v)

-- From a well-formed table, once a claim has handed out a task, no later claim hands it out again, whatever calls come in
-- between, whoever makes them and however they end.
pub claim_task_once :
    (digest : String → String) (settings : Settings) (now later now2 later2 : Time)
    (lease worker lease2 worker2 : String) (supported supported2 : List String)
    (state state2 : Option CapacityState) (active active2 : Option ℤ) (c d : Claimed)
    (calls : List Call) (db db1 db2 : Db)
    → IsValid db
    → claim_task settings now later lease worker supported state active db ≡ (ok (some c), db1)
    → claim_task settings now2 later2 lease2 worker2 supported2 state2 active2
        (run digest settings calls db1)
      ≡ (ok (some d), db2)
    → ¬ (c.id ≡ d.id)
claim_task_once digest settings now later now2 later2 lease worker lease2 worker2 supported
      supported2 state state2 active active2 c d calls db db1 db2 v first second same =
    let (t, row, runs, _, _, _) =
      claim_task_runs settings now later lease worker supported state active c db db1 v first in
    let valid : IsValid db1 =
      (Keeps-run (claim_task settings now later lease worker supported state active) db db1
        (ok (some c)) (claim_task-Keeps settings now later lease worker supported state active)
        first v).valid in
    let after : Db = run digest settings calls db1 in
    let (u, found, moves) =
      find-Evolves c.id db1.tasks after.tasks t (run-Evolves digest settings calls db1 valid)
        (task_found db1 c.id t row) in
    let waits : u.status ≡ pending =
      claim_task_fresh settings now2 later2 lease2 worker2 supported2 state2 active2 d after db2 u
        (run-IsValid digest settings calls db1 valid) second
        (rw (← same) (found_task after c.id u found)) in
    ground (arith, moves.forward)
