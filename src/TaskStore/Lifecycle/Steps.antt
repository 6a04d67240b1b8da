-- ===== src/TaskStore/Lifecycle/Steps.antt =====
-- Every call of a worker or of a submitter keeps the rows well formed and moves tasks forward.
use cloudlink.Prelude.{
  or_none, strip, text_of, is_some, eq_of_beq, option_eq, string_eq, ℕ, Bool, true, false, ◌&&◌,
  not, String, Option, none, some, ◌≡◌, refl, arith, find,
}
use cloudlink.Errors.{Error, Result, ok, err, or_raise, task_not_found}
use cloudlink.Database.Tasks.{Time, Task, Status}
use cloudlink.Database.Action.{Db, Settings, Action, ◌>>=◌, query, execute, bind_result}
use cloudlink.TaskStore.Queue.{
  get_task, set_task, has_id, is_terminal, is_pending, lease_lost, lose_lease, waited_too_long,
  give_up_waiting, expire_locked_tasks, expire_pending_tasks, set_task_artifact_expiry,
}
use cloudlink.TaskStore.Capacity.{is_running}
use cloudlink.TaskStore.Report.{
  owned_check, assert_owned_running_task, renewed, renew_task_lease, cancelled_by, succeeded,
  conclude, complete, reason_of, message_of, visible_to, report_success, Outcome, failure_outcome,
  ended, report_failed, get_task_for_submitter, cancel_asked, cancel_row, cancel_task, is_replay,
  is_success,
}
use cloudlink.TaskStore.Lifecycle.{IsValid}
use cloudlink.TaskStore.Lifecycle.Updates.{
  Advances, Later, Later-refl, Later-trans, Later-same_tasks, update_where-Later, set_task-Later,
}
use cloudlink.TaskStore.Lifecycle.Rules.{
  Keeps, branch_rule, Keeps-if, query_rule, write_rule, Keeps-query, Keeps-query_last, Keeps-then,
  Keeps-pure, Keeps-raise,
}

pub expire_locked_tasks-Later :
    (now : Time) (db : Db) → IsValid db → Later db (expire_locked_tasks now db)
unfolding expire_locked_tasks
expire_locked_tasks-Later now =
    update_where-Later (lease_lost now) (lose_lease now) (λ t h s. ground arith)

pub expire_pending_tasks-Later :
    (now : Time) (limit : ℕ) (db : Db) → IsValid db → Later db (expire_pending_tasks now limit db)
unfolding expire_pending_tasks
expire_pending_tasks-Later now limit =
    update_where-Later (waited_too_long limit now) (give_up_waiting now) (λ t h s. ground arith)

set_task_artifact_expiry-Later :
    (settings : Settings) (id : String) (now : Time) (db : Db)
    → IsValid db
    → Later db (set_task_artifact_expiry settings id now db)
unfolding set_task_artifact_expiry
set_task_artifact_expiry-Later settings id now db v = Later-same_tasks db _ refl v

-- What `_assert_owned_running_task` has checked when it returns.
pub record Owned (worker_id lease_id : String) (t : Task) : Type 0 where
  pub runs : is_running t.status ≡ true
  pub owner : t.locked_by ≡ some worker_id
  pub lease : t.lease_id ≡ some lease_id

owned_check_ok :
    (worker_id lease_id : String) (t u : Task)
    → owned_check worker_id lease_id t ≡ ok u
    → (u ≡ t) × Owned worker_id lease_id t
owned_check_ok w l t u h =
    ground (arith, eq_of_beq t.locked_by (some w), eq_of_beq t.lease_id (some l))

-- A call of the holder: nothing is written unless the task is held by the worker under the lease.
owned_rule {ℓ} :
    {B : Type 0} (id w l : String) (f : Task → Action B) (db : Db) (P : Result B × Db → Type ℓ)
    → ((e : Error) → P (err e, db))
    → ((t : Task) → find (has_id id) db.tasks ≡ some t → Owned w l t → P (f t db))
    → P ((assert_owned_running_task id w l >>= f) db)
unfolding get_task ◌>>=◌ query
owned_rule {B} id w l f db P refused held = go (find (has_id id) db.tasks) refl
  where
    checked :
        (t : Task)
        → find (has_id id) db.tasks ≡ some t
        → (y : Result Task) → owned_check w l t ≡ y
        → P (bind_result (y, db) f)
    checked t h (err e) q = refused e
    checked t h (ok u) q = let same = owned_check_ok w l t u q in rw (same.0) (held t h same.1)

    go :
        (x : Option Task)
        → find (has_id id) db.tasks ≡ x
        → P (
            bind_result
              (bind_result
                (or_raise x (task_not_found id), db)
                (λ t. query (λ _. owned_check w l t)))
              f)
    go none h = refused (task_not_found id)
    go (some t) h = checked t h (owned_check w l t) refl

renewed-Advances :
    (settings : Settings) (now : Time) (id : String)
    → Advances (λ t. has_id id t && is_running t.status) (renewed settings now)
renewed-Advances settings now id t h s = ground arith

cancelled_by-Advances :
    (m id : String) (now : Time)
    → Advances (λ t. has_id id t && not (is_terminal t.status)) (cancelled_by m now)
cancelled_by-Advances m id now t h s = ground arith

succeeded-Advances :
    (result sha lease id : String) (logs : Option String) (now : Time)
    → Advances (λ t. has_id id t && is_running t.status) (succeeded result sha lease logs now)
succeeded-Advances result sha lease id logs now t h s = ground arith

cancel_asked-Advances :
    (m id : String) (now : Time)
    → Advances (λ t. has_id id t && is_running t.status) (cancel_asked m now)
cancel_asked-Advances m id now t h s = ground arith

-- A failure ends the task, and never as a success.
pub record IsFailure (o : Outcome) : Type 0 where
  pub ends : is_terminal o.status ≡ true
  pub no_success : is_success o.status ≡ false

failure_outcome-IsFailure :
    (t : Task) (e : String) (c : Option String) → IsFailure (failure_outcome t e c)
failure_outcome-IsFailure t e c = ground arith

ended-Advances :
    (o : Outcome) (logs : Option String) (id : String) (now : Time)
    → IsFailure o
    → Advances (λ t. has_id id t && is_running t.status) (ended o logs now)
ended-Advances o logs id now i t h s = ground arith

conclude-Later :
    (settings : Settings) (now : Time) (id : String) (f : Task → Task) (q : Task → Bool) (db : Db)
    (t : Task)
    → find (has_id id) db.tasks ≡ some t
    → q t ≡ true
    → Advances (λ u. has_id id u && q u) f
    → IsValid db
    → Later db (conclude settings now id f db).1
unfolding ◌>>=◌ execute query
conclude-Later settings now id f q db t h e adv v =
    let first = set_task-Later id f q db t h e adv v in
    Later-trans db (set_task id f db) _ first
      (set_task_artifact_expiry-Later settings id now (set_task id f db) first.valid)

-- A renewal keeps the table well formed and moves its tasks forward.
pub renew_task_lease-Keeps :
    (settings : Settings) (now : Time) (id w l : String)
    → Keeps (renew_task_lease settings now id w l)
unfolding renew_task_lease
renew_task_lease-Keeps settings now id w l =
    Keeps-then (expire_locked_tasks now) _ (expire_locked_tasks-Later now) λ db v.
      owned_rule id w l _ db (λ out. Later db out.1) (λ e. Later-refl db v)
        λ t h o.
          write_rule _ _ db
            (set_task-Later id (renewed settings now) (λ u. is_running u.status) db t h o.runs
              (renewed-Advances settings now id) v)
            (Keeps-pure _)

pub report_failed-Keeps :
    (settings : Settings) (now : Time) (id w l error : String) (logs code : Option String)
    → Keeps (report_failed settings now id w l error logs code)
unfolding report_failed
report_failed-Keeps settings now id w l error logs code = Keeps-query _ _ λ _.
    Keeps-query _ _ λ _ db v.
      owned_rule id w l _ db (λ out. Later db out.1) (λ e. Later-refl db v)
        λ t h o.
          conclude-Later settings now id _ (λ u. is_running u.status) db t h o.runs
            (ended-Advances _ logs id now
              (failure_outcome-IsFailure t error (or_none (strip (text_of code)))))
            v

running_unfinished : (s : Status) → is_running s ≡ true → not (is_terminal s) ≡ true
running_unfinished s h = ground arith

module _ (digest : String → String) where
  complete-Keeps :
      (settings : Settings) (now : Time) (id w l result : String) (logs : Option String)
      → Keeps (complete digest settings now id w l result logs)
  complete-Keeps settings now id w l result logs db v =
      owned_rule id w l _ db (λ out. Later db out.1) (λ e. Later-refl db v)
        λ t h o.
          branch_rule (is_some t.cancel_requested_at) _ _ db
            (λ asked.
              conclude-Later settings now id _ (λ u. not (is_terminal u.status)) db t h
                (running_unfinished t.status o.runs) (cancelled_by-Advances (reason_of t) id now) v)
            (λ wanted.
              conclude-Later settings now id _ (λ u. is_running u.status) db t h o.runs
                (succeeded-Advances result (digest result) l id logs now) v)

  -- A reported success keeps the table well formed and moves its tasks forward.
  pub report_success-Keeps :
      (settings : Settings) (now : Time) (id w l : String) (reported : Option String)
      (result : String) (logs : Option String)
      → Keeps (report_success digest settings now id w l reported result logs)
  unfolding report_success
  report_success-Keeps settings now id w l reported result logs = Keeps-query _ _ λ _.
      Keeps-query _ _ λ _. Keeps-query _ _ λ _. Keeps-query _ _ λ existing.
        Keeps-if (is_success existing.status) _ _
          (Keeps-if (is_replay l (digest result) existing) _ _ (Keeps-pure _) (Keeps-raise _ _))
          (complete-Keeps settings now id w l result logs)

-- What a submitter may see is the row itself.
get_task_for_submitter_ok :
    (db : Db) (id : String) (submitter : Option String) (t : Task)
    → get_task_for_submitter db id submitter ≡ ok t
    → (find (has_id id) db.tasks ≡ some t) × (visible_to submitter t ≡ true)
unfolding get_task_for_submitter get_task
get_task_for_submitter_ok db id submitter t h = ground arith

cancel_row-Later :
    (settings : Settings) (now : Time) (id m : String) (db : Db) (t : Task)
    → find (has_id id) db.tasks ≡ some t
    → IsValid db
    → Later db (cancel_row settings now id m t db).1
cancel_row-Later settings now id m db t h v =
    branch_rule (is_terminal t.status) _ _ db (λ _. Keeps-pure t db v)
      λ open_task.
        branch_rule (is_running t.status) _ _ db
          (λ runs.
            query_rule _ _ db (λ out. Later db out.1) (λ e _. Later-refl db v)
              λ _ _.
                write_rule _ _ db
                  (set_task-Later id (cancel_asked m now) (λ u. is_running u.status) db t h runs
                    (cancel_asked-Advances m id now) v)
                  (Keeps-query_last _))
          λ idle.
            branch_rule (not (is_pending t.status)) _ _ db (λ _. Keeps-raise _ _ db v)
              λ _.
                query_rule _ _ db (λ out. Later db out.1) (λ e _. Later-refl db v)
                  λ _ _.
                    conclude-Later settings now id _ (λ u. not (is_terminal u.status)) db t h
                      (rw open_task) (cancelled_by-Advances m id now) v

-- A cancellation keeps the table well formed and moves its tasks forward.
pub cancel_task-Keeps :
    (settings : Settings) (now : Time) (id : String) (submitter : Option String) (reason : String)
    → Keeps (cancel_task settings now id submitter reason)
unfolding cancel_task
cancel_task-Keeps settings now id submitter reason =
    Keeps-then _ _ (expire_pending_tasks-Later now settings.queue_timeout_seconds) λ db v.
      query_rule _ _ db (λ out. Later db out.1) (λ e _. Later-refl db v)
        λ t h.
          cancel_row-Later settings now id (message_of reason) db t
            (get_task_for_submitter_ok db id submitter t h).0 v
