-- ===== src/TaskStore/Outcomes/Cancellation.antt =====
-- Cancellations: what they do to a task that runs, and who may ask for them.
use cloudlink.Prelude.{
  true, String, Option, ◌≡◌, refl, sym, ap, ◌∙◌, arith, if◌then◌else◌, ◌⊎◌, inl, inr, Bool-cases,
  string_eq, option_eq, is_some, text_of, strip, or_none,
}
use cloudlink.Errors.{Result, ok, err, task_not_found}
use cloudlink.Database.Tasks.{Time, Task, running, cancelled}
use cloudlink.Database.Action.{Db, Settings, query}
use cloudlink.Database.Runs.{bind_ok, query_ok, execute_ok, pure_ok}
use cloudlink.TaskStore.Capacity.{is_running}
use cloudlink.TaskStore.Queue.{get_task, set_task, is_terminal, is_pending, expire_pending_tasks}
use cloudlink.TaskStore.Report.{
  cancelled_by, report_success, report_failed, cancel_task, cancel_row, cancel_asked, message_of,
  visible_to, failure_outcome, ended, get_task_for_submitter,
}
use cloudlink.TaskStore.Outcomes.{
  conclude_ok, assert_owned_ok, get_task-update, report_success_outcome,
}

visible_ok :
    (db : Db) (id : String) (submitter : Option String) (t : Task)
    → get_task_for_submitter db id submitter ≡ ok t
    → (get_task db id ≡ ok t) × (visible_to submitter t ≡ true)
unfolding get_task_for_submitter
visible_ok db id submitter t h = go (get_task db id) refl h
  where
    go :
        (x : Result Task)
        → get_task db id ≡ x
        → elim x [
          | err e ↦ err e
          | ok t ↦ if visible_to submitter t then ok t else err (task_not_found id)
        ]
          ≡ ok t
        → (get_task db id ≡ ok t) × (visible_to submitter t ≡ true)
    go (ok u) q k = elim (Bool-cases (visible_to submitter u)) [
      | inl sees ↦ let same : u ≡ t = ground arith in (rw (← same) q, rw (← same) sees)
      | inr blind ↦ absurd (ground arith)
    ]
    go (err e) q k = absurd (ground arith)

-- What a cancellation returns is stored, and a task that still runs is marked.
cancel_row_ok :
    (settings : Settings) (now : Time) (id message : String) (t u : Task) (db db' : Db)
    → get_task db id ≡ ok t
    → cancel_row settings now id message t db ≡ (ok u, db')
    → u.status ≡ running
    → (get_task db' id ≡ ok u) × (is_some u.cancel_requested_at ≡ true)
cancel_row_ok settings now id message t u db db' row h runs =
    elim (Bool-cases (is_terminal t.status)) [
      | inl over ↦ let (same, _) = pure_ok t u db db' (rw over at h) in absurd (ground arith)
      | inr lives ↦ elim (Bool-cases (is_running t.status)) [
        | inl busy ↦
            let (_, _, h1) = query_ok _ _ db db' u (rw (lives, busy) at h) in
            let h2 = execute_ok (set_task id (cancel_asked message now)) _ db db' u h1 in
            let written = get_task-update db id (cancel_asked message now) t (λ x. refl) row in
            let read : get_task (set_task id (cancel_asked message now) db) id ≡ ok u =
              unfold query in ap (λ p. p.0) h2 in
            let last : set_task id (cancel_asked message now) db ≡ db' =
              unfold query in ap (λ p. p.1) h2 in
            let same : ok u ≡ ok (cancel_asked message now t) = sym read ∙ written in
            (rw (← last) read, ground arith)
        | inr idle ↦ elim (Bool-cases (is_pending t.status)) [
          | inl waits ↦
              let (_, _, h1) = query_ok _ _ db db' u (rw (lives, idle, waits) at h) in
              let (same, _) =
                conclude_ok settings now id (cancelled_by message now) t u db db' (λ x. refl) row
                  h1 in
              absurd (ground arith)
          | inr neither ↦ absurd (ground arith)
        ]
      ]
    ]

cancel_task_marks :
    (settings : Settings) (now : Time) (id : String) (submitter : Option String) (reason : String)
    (u : Task) (db db' : Db)
    → cancel_task settings now id submitter reason db ≡ (ok u, db')
    → u.status ≡ running
    → (get_task db' id ≡ ok u) × (is_some u.cancel_requested_at ≡ true)
unfolding cancel_task
cancel_task_marks settings now id submitter reason u db db' h runs =
    let between : Db = expire_pending_tasks now settings.queue_timeout_seconds db in
    let h1 = execute_ok _ _ db db' u h in
    let (t, seen, h2) = query_ok _ _ between db' u h1 in
    cancel_row_ok settings now id (message_of reason) t u between db'
      (visible_ok between id submitter t seen).0 h2 runs

report_failed_ok :
    (settings : Settings) (now : Time) (id worker lease error : String) (logs code : Option String)
    (t u : Task) (db db' : Db)
    → get_task db id ≡ ok t
    → report_failed settings now id worker lease error logs code db ≡ (ok u, db')
    → (u ≡ ended (failure_outcome t error (or_none (strip (text_of code)))) logs now t)
      × (get_task db' id ≡ ok u)
unfolding report_failed
report_failed_ok settings now id worker lease error logs code t u db db' row h =
    let (_, _, h1) = query_ok _ _ db db' u h in
    let (_, _, h2) = query_ok _ _ db db' u h1 in
    let (t1, between, owned, h3) = bind_ok _ _ db db' u h2 in
    let (same, _, same_db) = assert_owned_ok id worker lease t t1 db between row owned in
    conclude_ok settings now id
      (ended (failure_outcome t error (or_none (strip (text_of code)))) logs now) t u db db'
      (λ x. refl) row (rw (← same, same_db) h3)

-- A running task of which a cancellation was accepted ends as cancelled and is stored so, whether its
-- worker then reports a success or a failure, when the report is taken.
pub cancellation_wins :
    (digest : String → String) (settings : Settings) (now later : Time)
    (id worker lease reason result error : String) (submitter reported logs code : Option String)
    (t u : Task) (db db1 db2 : Db)
    → cancel_task settings now id submitter reason db ≡ (ok t, db1)
    → t.status ≡ running
    → (report_success digest settings later id worker lease reported result logs db1 ≡ (ok u, db2))
      ⊎ (report_failed settings later id worker lease error logs code db1 ≡ (ok u, db2))
    → (u.status ≡ cancelled) × (get_task db2 id ≡ ok u)
cancellation_wins digest settings now later id worker lease reason result error submitter reported
      logs code t u db db1 db2 asked runs reports =
    let (row, marked) = cancel_task_marks settings now id submitter reason t db db1 asked runs in
    elim reports [
      | inl h ↦
          let (_, is_row, stored) =
            report_success_outcome digest settings later id worker lease reported result logs t u
              db1 db2 row (rw runs refl) h in
          (rw marked at (ap (λ x. x.status) is_row), stored)
      | inr h ↦
          let (is_row, stored) =
            report_failed_ok settings later id worker lease error logs code t u db1 db2 row h in
          (ground arith, stored)
    ]
