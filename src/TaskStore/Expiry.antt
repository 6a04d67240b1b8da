-- ===== src/TaskStore/Expiry.antt =====
-- What time does: leases that have run out, tasks that have waited too long, and the limit on
-- waiting tasks.
use cloudlink.Prelude.{
  ℕ, ◌+◌, ◌≤◌, ◌<◌, Bool, true, false, String, List, [], ◌∷◌, ◌++◌, some, ◌≡◌, refl, ap, ◌∙◌, arith,
  find, any, count_where, update_where, string_eq, option_eq, inl, inr, Bool-cases, beq_self, ◌⊎◌,
  ◌*◌, Option, none,
}
use cloudlink.Errors.{ok, err, task_conflict}
use cloudlink.ResourceModel.Types.{ResourceRequest}
use cloudlink.Database.Tasks.{Time, Task, Status, pending, running, timeout}
use cloudlink.Database.Action.{Db, Settings, ◌>>=◌, query, execute}
use cloudlink.Database.Runs.{bind_ok, query_ok, execute_ok}
use cloudlink.TaskStore.Capacity.{is_running}
use cloudlink.TaskStore.Queue.{
  get_task, has_id, on_tasks, is_waiting, pending_count, check_pending_limit, expire_pending_tasks,
  is_over, is_pending, expire_locked_tasks, lease_lost, lose_lease, waited_too_long,
  give_up_waiting,
}
use cloudlink.TaskStore.Submit.{NewTask, accept, create_task, pending_task}
use cloudlink.TaskStore.Report.{renew_task_lease}

-- A time that has come.
abbrev pub EndsBy : Time → Option Time → Type 0
EndsBy now none = ⊥
EndsBy now (some until) = until ≤ now

-- A running task whose lease has ended, and a waiting one whose wait has lasted the limit.
abbrev pub LeaseIsOver : Time → Task → Type 0
LeaseIsOver now t = (t.status ≡ running) × EndsBy now t.locked_until

abbrev pub WaitIsOver : ℕ → Time → Task → Type 0
WaitIsOver limit now t = (t.status ≡ pending) × (t.created_at + 1000000 * limit ≤ now)

-- A task as it is written down when its worker is lost, and when it has waited in vain.
abbrev pub worker_lost : Time → Task → Task
worker_lost now t = record t {
  status = timeout;
  error_code = some "worker_lost";
  error = some "Worker lease expired; task was not automatically retried";
  updated_at = now;
  finished_at = some now;
  locked_until = none;
  lease_id = none;
}

abbrev pub waited_in_vain : Time → Task → Task
waited_in_vain now t = record t {
  status = timeout;
  error_code = some "queue_timeout";
  error = some "Queue timeout before worker claim";
  updated_at = now;
  finished_at = some now;
}

-- Row by row: a task that is over has become its final form, and any other is what it was.
abbrev pub Expires : (Task → Type 0) → (Task → Task) → List Task → List Task → Type 0
Expires Over final [] us = us ≡ []
Expires Over final (t ∷ ts) [] = ⊥
Expires Over final (t ∷ ts) (u ∷ us) =
    ((Over t × (u ≡ final t)) ⊎ ((¬ Over t) × (u ≡ t))) × Expires Over final ts us

update_where-Expires :
    (Over : Task → Type 0) (final : Task → Task) (p : Task → Bool) (f : Task → Task)
    → ((t : Task) → p t ≡ true → Over t × (f t ≡ final t))
    → ((t : Task) → Over t → p t ≡ true)
    → (ts : List Task) → Expires Over final ts (update_where p f ts)
update_where-Expires Over final p f sound complete [] = refl
update_where-Expires Over final p f sound complete (t ∷ ts) =
    let rest = update_where-Expires Over final p f sound complete ts in
    elim (Bool-cases (p t)) [
      | inl hit ↦ rw hit (inl (sound t hit), rest)
      | inr miss ↦ rw miss (inr ((λ over. let hit = complete t over in absurd (cc)), refl), rest)
    ]

running_status : (s : Status) → is_running s ≡ true → s ≡ running
running_status s h = ground arith

pending_status : (s : Status) → is_pending s ≡ true → s ≡ pending
pending_status s h = ground arith

over-EndsBy : (now : Time) (o : Option Time) → is_over now o ≡ true → EndsBy now o
over-EndsBy now none h = absurd (cc)
over-EndsBy now (some until) h = ground arith

EndsBy-over : (now : Time) (o : Option Time) → EndsBy now o → is_over now o ≡ true
EndsBy-over now none h = absurd h
EndsBy-over now (some until) h = ground arith

-- The expiry of leases times out exactly the running tasks whose lease ends now or has ended, as lost
-- with their worker and without a lease; the expiry of waiting tasks times out exactly the pending ones
-- that have waited for the limit. Every other row stays as it was.
pub expiry_complete :
    (now : Time) (limit : ℕ) (db : Db)
    → Expires (LeaseIsOver now) (worker_lost now) db.tasks (expire_locked_tasks now db).tasks
      × Expires
          (WaitIsOver limit now)
          (waited_in_vain now)
          db.tasks
          (expire_pending_tasks now limit db).tasks
unfolding expire_locked_tasks expire_pending_tasks
expiry_complete now limit db = (
  update_where-Expires (LeaseIsOver now) (worker_lost now) (lease_lost now) (lose_lease now)
      (λ t h. (
        (running_status t.status (ground arith), over-EndsBy now t.locked_until (ground arith)),
        refl,
      ))
      (λ t over.
        let status = over.0 in
        let ended = EndsBy-over now t.locked_until over.1 in rw (status, ended) refl)
      db.tasks,
  update_where-Expires (WaitIsOver limit now) (waited_in_vain now) (waited_too_long limit now)
      (give_up_waiting now) (λ t h. ((pending_status t.status (ground arith), ground arith), refl))
      (λ t over. let status = over.0 in let long = over.1 in rw status (ground arith)) db.tasks,
)

find_expired :
    (now : Time) (id : String) (ts : List Task) (t : Task)
    → find (has_id id) ts ≡ some t
    → lease_lost now t ≡ true
    → find (has_id id) (update_where (lease_lost now) (lose_lease now) ts) ≡ some (lose_lease now t)
find_expired now id [] t h k = absurd (cc)
find_expired now id (x ∷ ts) t h k = ground (arith, find_expired now id ts t)

-- A lease that is over cannot be renewed: the call raises, and the task has timed out.
pub renew_lost_lease :
    (settings : Settings) (now : Time) (id worker lease : String) (t : Task) (db : Db)
    → get_task db id ≡ ok t
    → lease_lost now t ≡ true
    → (renew_task_lease settings now id worker lease db
        ≡ (err (task_conflict "Task is already finished"), expire_locked_tasks now db))
      × (get_task (expire_locked_tasks now db) id ≡ ok (lose_lease now t))
unfolding renew_task_lease get_task expire_locked_tasks
renew_lost_lease settings now id worker lease t db row lost =
    let found : find (has_id id) db.tasks ≡ some t = ground arith in
    let gone = find_expired now id db.tasks t found lost in
    (unfold ◌>>=◌ execute query in rw gone refl, rw gone refl)

count-append :
    (p : Task → Bool) (ts us : List Task)
    → count_where p (ts ++ us) ≡ count_where p ts + count_where p us
count-append p [] us = ground arith
count-append p (t ∷ ts) us = ground (arith, count-append p ts us)

find-append_new :
    (id : String) (ts : List Task) (t : Task)
    → any (has_id id) ts ≡ false
    → has_id id t ≡ true
    → find (has_id id) (ts ++ t ∷ []) ≡ some t
find-append_new id [] t h k = rw k refl
find-append_new id (x ∷ ts) t h k = ground (arith, find-append_new id ts t)

-- What a submission that is accepted has been checked for.
accept_room :
    (settings : Settings) (now : Time) (n : NewTask) (r : ResourceRequest) (db db' : Db)
    → accept settings now n db ≡ (ok r, db')
    → (db ≡ db') × (pending_count db < settings.max_pending_tasks)
unfolding accept
accept_room settings now n r db db' h =
    let (_, _, h1) = query_ok _ _ db db' r h in
    let (_, _, h2) = query_ok _ _ db db' r h1 in
    let (_, _, h3) = query_ok _ _ db db' r h2 in
    let (_, limit, h4) = query_ok _ _ db db' r h3 in
    let (_, _, h5) = query_ok _ _ db db' r h4 in
    let (_, _, h6) = query_ok _ _ db db' r h5 in
    let (_, _, h7) = query_ok _ _ db db' r h6 in
    let (_, _, h8) = query_ok _ _ db db' r h7 in
    let (_, _, h9) = query_ok _ _ db db' r h8 in
    (unfold query in ap (λ p. p.1) h9, unfold check_pending_limit in ground arith)

-- A submission that is accepted stores one pending task behind the others, as it is returned, and
-- the number of waiting tasks stays within the limit.
pub create_task_within_limit :
    (settings : Settings) (now later : Time) (id : String) (n : NewTask) (u : Task) (db db' : Db)
    → create_task settings now later id n db ≡ (ok u, db')
    → (get_task db' id ≡ ok u)
      × (u.status ≡ pending)
      × (db'.tasks ≡ (expire_pending_tasks now settings.queue_timeout_seconds db).tasks ++ u ∷ [])
      × (pending_count db' ≤ settings.max_pending_tasks)
unfolding create_task
create_task_within_limit settings now later id n u db db' h =
    let db1 : Db = expire_pending_tasks now settings.queue_timeout_seconds db in
    let h1 = execute_ok _ _ db db' u h in
    let (r, db2, accepted, h2) = bind_ok _ _ db1 db' u h1 in
    let (same_db, room) = accept_room settings later n r db1 db2 accepted in
    let (_, fresh, h3) = query_ok _ _ db2 db' u h2 in
    let t : Task = pending_task now id n r in
    let h4 = execute_ok (on_tasks (λ ts. ts ++ t ∷ [])) _ db2 db' u h3 in
    let absent : any (has_id id) db2.tasks ≡ false = ground arith in
    let row = find-append_new id db2.tasks t absent (beq_self id) in
    let read : get_task (on_tasks (λ ts. ts ++ t ∷ []) db2) id ≡ ok u =
      unfold query in ap (λ p. p.0) h4 in
    let last : on_tasks (λ ts. ts ++ t ∷ []) db2 ≡ db' = unfold query in ap (λ p. p.1) h4 in
    let is_new : u ≡ t = unfold get_task in ground arith in
    let tasks : db'.tasks ≡ db1.tasks ++ u ∷ [] = rw (← last, ← same_db, is_new) refl in
    let more : pending_count db' ≡ pending_count db1 + 1 =
      unfold pending_count in
      ap (count_where is_waiting) tasks
      ∙ count-append is_waiting db1.tasks (u ∷ [])
      ∙ (rw is_new (ground arith)) in
    (rw (← last) read, rw is_new refl, tasks, omega arith)
