-- ===== src/TaskStore/Outcomes.antt =====
-- How tasks end: what a report or a cancellation does, whoever makes it.
pub mod Cancellation
pub mod Strangers
use cloudlink.Prelude.{
  ◌+◌, Bool, true, false, ◌&&◌, not, String, List, [], ◌∷◌, Option, none, some, ◌≡◌, refl, sym, ap,
  subst, ◌∙◌, arith, if◌then◌else◌, ◌==◌, ◌⊎◌, inl, inr, Bool-cases, find, update_where, string_eq,
  option_eq, eq_of_beq, beq_self, is_some, or_else, text_of,
}
use cloudlink.Errors.{Error, Result, ok, err, raise_if, or_raise, task_not_found, task_conflict}
use cloudlink.Database.Tasks.{Time, seconds, Task, Status, running, success, cancelled}
use cloudlink.Database.Action.{Db, Settings, Action, ◌>>=◌, ◌>>◌, query, execute, pure, raise}
use cloudlink.Database.Runs.{bind_ok, query_ok, execute_ok, pure_ok, run_query, run_query_raises}
use cloudlink.TaskStore.Capacity.{is_running}
use cloudlink.TaskStore.Queue.{
  get_task, has_id, set_task, is_terminal, is_pending, expire_pending_tasks, expire_locked_tasks,
  validate_json_size, validate_text_size, set_task_artifact_expiry, lease_lost, lose_lease,
  waited_too_long, give_up_waiting,
}
use cloudlink.TaskStore.Report.{
  mismatches, assert_owned_running_task, owned_check, is_success, is_replay, conclude, cancelled_by,
  succeeded, reason_of, report_success, report_failed, renew_task_lease, complete, cancel_task,
  cancel_row, cancel_asked, message_of, visible_to, failure_outcome, ended, Outcome, renewed,
  Renewal,
}

-- An update by key, seen through the key.
pub get_task-update :
    (db : Db) (id : String) (f : Task → Task) (t : Task)
    → ((u : Task) → (f u).id ≡ u.id)
    → get_task db id ≡ ok t
    → get_task (set_task id f db) id ≡ ok (f t)
unfolding get_task
get_task-update db id f t same h = go db.tasks h
  where
    go :
        (ts : List Task)
        → or_raise (find (has_id id) ts) (task_not_found id) ≡ ok t
        → or_raise (find (has_id id) (update_where (has_id id) f ts)) (task_not_found id) ≡ ok (f t)
    go [] k = absurd (cc)
    go (x ∷ ts) k = ground (arith, same x, go ts)

-- A concluded task is written and read back.
pub conclude_ok :
    (settings : Settings) (now : Time) (id : String) (f : Task → Task) (t u : Task) (db db' : Db)
    → ((x : Task) → (f x).id ≡ x.id)
    → get_task db id ≡ ok t
    → conclude settings now id f db ≡ (ok u, db')
    → (u ≡ f t) × (get_task db' id ≡ ok u)
conclude_ok settings now id f t u db db' same row h =
    let h1 = execute_ok (set_task id f) _ db db' u h in
    let h2 = execute_ok (set_task_artifact_expiry settings id now) _ (set_task id f db) db' u h1 in
    let read : get_task (set_task_artifact_expiry settings id now (set_task id f db)) id ≡ ok u =
      unfold query in ap (λ p. p.0) h2 in
    let last : set_task_artifact_expiry settings id now (set_task id f db) ≡ db' =
      unfold query in ap (λ p. p.1) h2 in
    let written = get_task-update db id f t same row in
    let kept : get_task (set_task_artifact_expiry settings id now (set_task id f db)) id
        ≡ get_task (set_task id f db) id =
      unfold get_task set_task_artifact_expiry in refl in
    let e : ok u ≡ ok (f t) = sym read ∙ kept ∙ written in (ground arith, rw (← last) read)

split_owned :
    (terminal runs by under : Bool) (t u : Task) (a b c d : Error)
    → (if terminal
        then err a
        else if not runs
        then err b
        else if not by
        then err c
        else if not under
        then err d
        else ok t)
      ≡ ok u
    → (u ≡ t) × (runs ≡ true) × (by ≡ true) × (under ≡ true)
split_owned terminal runs by under t u a b c d h = ground arith

-- Who holds a task: its worker, under its lease, while it runs.
pub record Holds (worker lease : String) (t : Task) : Type 0 where
  pub runs : is_running t.status ≡ true
  pub by : t.locked_by ≡ some worker
  pub under : t.lease_id ≡ some lease

owned_ok :
    (worker lease : String) (t u : Task)
    → owned_check worker lease t ≡ ok u
    → (u ≡ t) × Holds worker lease t
owned_ok worker lease t u h =
    let (same, runs, by, under) =
      split_owned (is_terminal t.status) (is_running t.status) (t.locked_by == some worker)
        (t.lease_id == some lease) t u _ _ _ _ h in
    (
      same,
      record {
        runs = runs;
        by = eq_of_beq t.locked_by (some worker) by;
        under = eq_of_beq t.lease_id (some lease) under;
      },
    )

pub assert_owned_ok :
    (id worker lease : String) (t u : Task) (db db' : Db)
    → get_task db id ≡ ok t
    → assert_owned_running_task id worker lease db ≡ (ok u, db')
    → (u ≡ t) × Holds worker lease t × (db ≡ db')
assert_owned_ok id worker lease t u db db' row h =
    let (t1, row1, h1) = query_ok _ _ db db' u h in
    let same : t1 ≡ t = ground arith in
    let checked : owned_check worker lease t ≡ ok u =
      unfold query in rw (← same) (ap (λ p. p.0) h1) in
    let (e, holds) = owned_ok worker lease t u checked in
    (e, holds, unfold query in ap (λ p. p.1) h1)

-- The row that a report of success leaves: a cancellation that was asked for wins.
abbrev pub success_row : (String → String) → Time → String → String → Option String → Task → Task
success_row digest now lease result logs t =
    if is_some t.cancel_requested_at
    then cancelled_by (reason_of t) now t
    else succeeded result (digest result) lease logs now t

module _ (digest : String → String) (settings : Settings) (now : Time) (id worker lease : String)
    (reported : Option String) (result : String) (logs : Option String) (t u : Task)
    (db db' : Db) where
  complete_ok :
      get_task db id ≡ ok t
      → complete digest settings now id worker lease result logs db ≡ (ok u, db')
      → Holds worker lease t
        × (u ≡ success_row digest now lease result logs t)
        × (get_task db' id ≡ ok u)
  complete_ok row h =
      let (t1, between, owned, h1) = bind_ok _ _ db db' u h in
      let (same, holds, same_db) = assert_owned_ok id worker lease t t1 db between row owned in
      let ends : (if is_some t.cancel_requested_at
              then conclude settings now id (cancelled_by (reason_of t) now)
              else conclude settings now id (succeeded result (digest result) lease logs now))
            db
          ≡ (ok u, db') =
        rw (← same, same_db) h1 in
      let stored : (u ≡ success_row digest now lease result logs t) × (get_task db' id ≡ ok u) =
        elim (Bool-cases (is_some t.cancel_requested_at)) [
          | inl asked ↦ rw asked (
              conclude_ok settings now id (cancelled_by (reason_of t) now) t u db db' (λ x. refl)
                row (rw asked at ends))
          | inr free ↦ rw free (
              conclude_ok settings now id (succeeded result (digest result) lease logs now) t u db
                db' (λ x. refl) row (rw free at ends))
        ] in
      (holds, stored.0, stored.1)

  -- A report of success that is taken for a task that has not succeeded comes from the worker that
  -- holds the task, under the current lease; the task then has the result, its digest and the lease
  -- that completed it, or is cancelled when a cancellation had been asked for, and that row is stored.
  pub report_success_outcome :
      get_task db id ≡ ok t
      → is_success t.status ≡ false
      → report_success digest settings now id worker lease reported result logs db ≡ (ok u, db')
      → Holds worker lease t
        × (u ≡ success_row digest now lease result logs t)
        × (get_task db' id ≡ ok u)
  unfolding report_success
  report_success_outcome row open_ h =
      let (_, _, h1) = query_ok _ _ db db' u h in
      let (_, _, h2) = query_ok _ _ db db' u h1 in
      let (_, _, h3) = query_ok _ _ db db' u h2 in
      let (t1, row1, h4) = query_ok _ _ db db' u h3 in
      let same : t1 ≡ t = ground arith in complete_ok row (rw (same, open_) at h4)

module _ (digest : String → String) (settings : Settings) (id lease : String)
    (reported : Option String) (result : String) (logs : Option String) where
  replays :
      (now : Time) (worker : String) (u : Task) (db : Db)
      → validate_json_size result settings ≡ ok tt
      → validate_text_size logs settings ≡ ok tt
      → mismatches digest reported result ≡ false
      → get_task db id ≡ ok u
      → is_success u.status ≡ true
      → is_replay lease (digest result) u ≡ true
      → report_success digest settings now id worker lease reported result logs db ≡ (ok u, db)
  unfolding report_success
  replays now worker u db json text match row succeeded_before replay =
      run_query _ _ db tt json
      ∙ (run_query _ _ db tt text
          ∙ (run_query _ _ db tt (rw match refl)
              ∙ (run_query _ _ db u row ∙ rw (succeeded_before, replay) (unfold pure in refl))))

  -- The row of a success carries what a replay is recognised by.
  completes :
      (now : Time) (t u : Task)
      → u ≡ success_row digest now lease result logs t
      → u.status ≡ success
      → is_replay lease (digest result) u ≡ true
  completes now t u e h = elim (Bool-cases (is_some t.cancel_requested_at)) [
    | inl asked ↦ absurd (ground arith)
    | inr free ↦
        let is_row : u ≡ succeeded result (digest result) lease logs now t = rw free at e in
        rw is_row (rw (beq_self lease, beq_self (digest result)) refl)
  ]

  -- A report of success that left the task successful can be sent again, at any time and by any
  -- worker, with the same lease, result, digest and logs: it returns the same row and changes nothing.
  pub report_success_replay :
      (now now2 : Time) (worker worker2 : String) (u : Task) (db db' : Db)
      → report_success digest settings now id worker lease reported result logs db ≡ (ok u, db')
      → u.status ≡ success
      → report_success digest settings now2 id worker2 lease reported result logs db' ≡ (ok u, db')
  unfolding report_success
  report_success_replay now now2 worker worker2 u db db' h is_done =
      let (x, json, h1) = query_ok _ _ db db' u h in
      let (y, text, h2) = query_ok _ _ db db' u h1 in
      let (z, match, h3) = query_ok _ _ db db' u h2 in
      let (t, row, h4) = query_ok _ _ db db' u h3 in
      let matches : mismatches digest reported result ≡ false = ground arith in
      let again = replays now2 worker2 u db' json text matches in
      elim (Bool-cases (is_success t.status)) [
        | inr open_ ↦
            let (holds, is_row, stored) =
              report_success_outcome digest settings now id worker lease reported result logs t u db
                db' row open_ h in
            again stored (rw is_done refl) (completes now t u is_row is_done)
        | inl ended_well ↦
            let h5 : (if is_replay lease (digest result) t
                    then pure t
                    else raise (task_conflict "Task already succeeded with a different completion"))
                  db
                ≡ (ok u, db') =
              rw ended_well at h4 in
            elim (Bool-cases (is_replay lease (digest result) t)) [
              | inl same ↦
                  let (is_same, same_db) = pure_ok t u db db' (rw same at h5) in
                  again (rw (← same_db, ← is_same) row) (rw is_done refl) (rw (← is_same) same)
              | inr other ↦ absurd (unfold raise in ground arith)
            ]
      ]
