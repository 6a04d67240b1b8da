-- ===== src/TaskStore/Outcomes/Strangers.antt =====
-- Calls by those to whom a task does not belong.
use cloudlink.Prelude.{
  Bool, true, false, ◌&&◌, not, String, List, [], ◌∷◌, Option, none, some, ◌≡◌, refl, ap, ◌∙◌,
  arith, if◌then◌else◌, ◌==◌, inl, inr, Bool-cases, find, update_where, string_eq, option_eq,
}
use cloudlink.Errors.{Error, Result, ok, err, task_not_found, task_conflict}
use cloudlink.Database.Tasks.{Time, Task}
use cloudlink.Database.Action.{Db, Settings, ◌>>=◌, query, execute, pure, raise}
use cloudlink.Database.Runs.{run_query, run_query_raises, run_bind_raises, query_leaves}
use cloudlink.TaskStore.Capacity.{is_running}
use cloudlink.TaskStore.Queue.{
  get_task, has_id, is_terminal, expire_pending_tasks, waited_too_long, give_up_waiting,
}
use cloudlink.TaskStore.Report.{
  is_success, is_replay, owned_check, assert_owned_running_task, report_success, report_failed,
  cancel_task, visible_to, get_task_for_submitter,
}

is_refused : Result Task → Bool
is_refused (ok t) = false
is_refused (err e) = true

refused_with : (x : Result Task) → is_refused x ≡ true → (e : Error) × (x ≡ err e)
unfolding is_refused
refused_with (ok t) h = absurd (cc)
refused_with (err e) h = (e, refl)

-- `_assert_owned_running_task` refuses all but the holder.
refused :
    (worker lease : String) (t : Task)
    → (t.locked_by == some worker && t.lease_id == some lease) ≡ false
    → is_refused (owned_check worker lease t) ≡ true
unfolding is_refused
refused worker lease t h =
    go (is_terminal t.status) (is_running t.status) (t.locked_by == some worker)
      (t.lease_id == some lease) h
  where
    go :
        (over runs mine under : Bool)
        → (mine && under) ≡ false
        → is_refused (
            if over
            then err (task_conflict "Task is already finished")
            else if not runs
            then err (task_conflict "Task is not running")
            else if not mine
            then err (task_conflict "Task is not locked by this worker")
            else if not under
            then err (task_conflict "Task lease does not match")
            else ok t)
          ≡ true
    go over runs mine under k = ground arith

assert_refused :
    (id worker lease : String) (t : Task) (db : Db)
    → get_task db id ≡ ok t
    → (t.locked_by == some worker && t.lease_id == some lease) ≡ false
    → (e : Error) × (assert_owned_running_task id worker lease db ≡ (err e, db))
assert_refused id worker lease t db row h =
    let (e, bars) = refused_with (owned_check worker lease t) (refused worker lease t h) in
    (e, run_query _ _ db t row ∙ unfold query in rw bars refl)

-- A report, of success or of failure, by a worker that does not hold the task or under another lease
-- changes nothing, whatever it returns.
pub report_by_stranger :
    (digest : String → String) (settings : Settings) (now : Time)
    (id worker lease result error : String) (reported logs code : Option String) (t : Task)
    (db : Db)
    → get_task db id ≡ ok t
    → (t.locked_by == some worker && t.lease_id == some lease) ≡ false
    → ((report_success digest settings now id worker lease reported result logs db).1 ≡ db)
      × ((report_failed settings now id worker lease error logs code db).1 ≡ db)
unfolding report_success report_failed
report_by_stranger digest settings now id worker lease result error reported logs code t db row h =
    let (e, bars) = assert_refused id worker lease t db row h in
    (
      query_leaves _ _ db λ _ _. query_leaves _ _ db λ _ _. query_leaves _ _ db λ _ _.
          query_leaves _ _ db λ u read. elim (Bool-cases (is_success u.status)) [
            | inl ended_well ↦ elim (Bool-cases (is_replay lease (digest result) u)) [
              | inl same ↦ rw (ended_well, same) (unfold pure in refl)
              | inr other ↦ rw (ended_well, other) (unfold raise in refl)
            ]
            | inr open_ ↦ rw open_ (ap (λ p. p.1) (run_bind_raises _ _ db db e bars))
          ],
      query_leaves _ _ db
          λ _ _. query_leaves _ _ db λ _ _. ap (λ p. p.1) (run_bind_raises _ _ db db e bars),
    )

-- Whom a row is hidden from.
hidden : Option String → Option Task → Bool
hidden submitter none = true
hidden submitter (some t) = not (visible_to submitter t)

hidden-give_up :
    (id : String) (submitter : Option String) (now : Time) (p : Task → Bool) (ts : List Task)
    → hidden submitter (find (has_id id) (update_where p (give_up_waiting now) ts))
      ≡ hidden submitter (find (has_id id) ts)
unfolding hidden
hidden-give_up id submitter now p [] = refl
hidden-give_up id submitter now p (t ∷ ts) = ground (arith, hidden-give_up id submitter now p ts)

not_found_hidden :
    (db : Db) (id : String) (submitter : Option String)
    → get_task_for_submitter db id submitter ≡ err (task_not_found id)
    → hidden submitter (find (has_id id) db.tasks) ≡ true
unfolding hidden get_task_for_submitter get_task
not_found_hidden db id submitter h = ground arith

hidden_not_found :
    (db : Db) (id : String) (submitter : Option String)
    → hidden submitter (find (has_id id) db.tasks) ≡ true
    → get_task_for_submitter db id submitter ≡ err (task_not_found id)
unfolding hidden get_task_for_submitter get_task
hidden_not_found db id submitter h = ground arith

-- Who does not see a task cannot cancel it either: the answer is that there is no such task, and
-- only the waiting tasks that are too old have expired.
pub cancel_by_stranger :
    (settings : Settings) (now : Time) (id : String) (submitter : Option String) (reason : String)
    (db : Db)
    → get_task_for_submitter db id submitter ≡ err (task_not_found id)
    → cancel_task settings now id submitter reason db
      ≡ (err (task_not_found id), expire_pending_tasks now settings.queue_timeout_seconds db)
unfolding cancel_task ◌>>=◌ execute
cancel_by_stranger settings now id submitter reason db h =
    let after : Db = expire_pending_tasks now settings.queue_timeout_seconds db in
    let p : Task → Bool = waited_too_long settings.queue_timeout_seconds now in
    let still : hidden submitter (find (has_id id) after.tasks) ≡ true =
      unfold expire_pending_tasks in
      hidden-give_up id submitter now p db.tasks ∙ not_found_hidden db id submitter h in
    run_query_raises _ _ after (task_not_found id) (hidden_not_found after id submitter still)
