-- ===== src/LifecycleStore/Laws.antt =====
-- What an uninstall does to a worker's work, and to its invitation.
use cloudlink.Prelude.{
  ℤ, false, not, String, List, [], ◌∷◌, Option, none, some, ◌≡◌, refl, sym, ap, ◌∙◌, arith,
  string_eq, option_eq, any, find, update_where, delete_where, subst,
}
use cloudlink.Errors.{
  ok, err, or_raise, raise_if, worker_not_registered, uninstall_invite_error,
  uninstall_invite_not_found,
}
use cloudlink.Database.Tasks.{Time}
use cloudlink.Database.Workers.{Worker, CapacityState, UninstallInvite}
use cloudlink.Database.Action.{Db, Settings, query, transaction}
use cloudlink.Database.Runs.{
  bind_ok, query_ok, execute_ok, transaction_ok, pure_ok, run_query, run_query_raises,
}
use cloudlink.TaskStore.Workers.{get_worker, has_worker_id}
use cloudlink.TaskStore.Touch.{on_worker}
use cloudlink.TaskStore.Claim.{claim_task, claim_body}
use cloudlink.TaskStore.Assignment.Heartbeats.{find_worker-update}
use cloudlink.TaskStore.Assignment.Limits.{worker_named}
use cloudlink.LifecycleStore.{
  has_hash, on_invite, check_invite, get_worker_uninstall_invite, verify_bound_worker, holds_task,
  leaving, begun, begin_worker_uninstall, completed, remove_worker, complete_worker_uninstall,
}

-- A worker that is not there or not enabled gets nothing.
Refused : Settings → String → Db → Type 0
Refused settings id db =
    (now later : Time) (lease : String) (supported : List String) (state : Option CapacityState)
    (active : Option ℤ)
    → claim_task settings now later lease id supported state active db
      ≡ (err (worker_not_registered id), db)

disabled :
    (settings : Settings) (id : String) (w : Worker) (db : Db)
    → get_worker db id ≡ ok w
    → w.enabled ≡ false
    → Refused settings id db
unfolding Refused claim_task claim_body transaction
disabled settings id w db known off now later lease supported state active =
    let barred : raise_if (not w.enabled) (worker_not_registered id)
        ≡ err (worker_not_registered id) =
      rw off refl in
    let raises : claim_body settings now later lease id supported state active db
        ≡ (err (worker_not_registered id), db) =
      run_query _ _ db w known ∙ run_query_raises _ _ db (worker_not_registered id) barred in
    rw raises refl

absent :
    (settings : Settings) (id : String) (db : Db)
    → get_worker db id ≡ err (worker_not_registered id)
    → Refused settings id db
unfolding Refused claim_task claim_body transaction
absent settings id db gone now later lease supported state active =
    rw (run_query_raises _ _ db (worker_not_registered id) gone) refl

find_deleted :
    (id : String) (ws : List Worker)
    → find (has_worker_id id) (delete_where (has_worker_id id) ws) ≡ none
find_deleted id [] = refl
find_deleted id (w ∷ ws) = ground (arith, find_deleted id ws)

get_worker-update :
    (db : Db) (id : String) (f : Worker → Worker) (w : Worker)
    → ((x : Worker) → (f x).worker_id ≡ x.worker_id)
    → get_worker db id ≡ ok w
    → get_worker (on_worker id f db) id ≡ ok (f w)
unfolding get_worker
get_worker-update db id f w same known =
    let found : find (has_worker_id id) db.workers ≡ some w = ground arith in
    rw (find_worker-update id f db.workers w same found) refl

on_invite_workers :
    (hash id : String) (f : UninstallInvite → UninstallInvite) (db : Db)
    → get_worker (on_invite hash f db) id ≡ get_worker db id
unfolding get_worker
on_invite_workers hash id f db = refl

invite_ok :
    (digest : String → String) (now : Time) (token : String) (i : UninstallInvite) (db db' : Db)
    → get_worker_uninstall_invite digest now token db ≡ (ok i, db')
    → (find (has_hash (digest token)) db.uninstall_invites ≡ some i) × (db ≡ db')
unfolding get_worker_uninstall_invite
invite_ok digest now token i db db' h =
    let (j, found, h1) = query_ok _ _ db db' i h in
    let checked : check_invite digest now j ≡ ok i = unfold query in ap (λ p. p.0) h1 in
    let same : j ≡ i = ground arith in (ground arith, unfold query in ap (λ p. p.1) h1)

bound_ok :
    (digest : String → String) (i : UninstallInvite) (secret : String) (w : Worker) (db db' : Db)
    → verify_bound_worker digest i secret db ≡ (ok w, db')
    → (get_worker db w.worker_id ≡ ok w) × (db ≡ db')
unfolding verify_bound_worker
bound_ok digest i secret w db db' h =
    let (v, known, h1) = query_ok _ _ db db' w h in
    let (_, _, h2) = query_ok _ _ db db' w h1 in
    let (same, same_db) = pure_ok v w db db' h2 in
    let id = worker_named db i.worker_id v known in (rw (← same, id) known, same_db)

-- Once an uninstall has begun no task is running for the worker, and each of its claims is refused and
-- changes nothing.
pub begin_worker_uninstall_stops :
    (digest : String → String) (settings : Settings) (now later at later2 : Time)
    (token secret lease : String) (supported : List String) (state : Option CapacityState)
    (active : Option ℤ) (w : Worker) (db db' : Db)
    → begin_worker_uninstall digest now later token secret db ≡ (ok w, db')
    → (any (holds_task digest w.worker_id) db'.tasks ≡ false)
      × (claim_task settings at later2 lease w.worker_id supported state active db'
          ≡ (err (worker_not_registered w.worker_id), db'))
unfolding begin_worker_uninstall
begin_worker_uninstall_stops digest settings now later at later2 token secret lease supported state
      active w db db' h =
    let (i, db1, reads, h1) = bind_ok _ _ db db' w h in
    let (_, same1) = invite_ok digest now token i db db1 reads in
    let (v, db2, verified, h2) = bind_ok _ _ db1 db' w h1 in
    let (known, same2) = bound_ok digest i secret v db1 db2 verified in
    let (_, idle, h3) = query_ok _ _ db2 db' w h2 in
    let h4 = execute_ok (on_worker v.worker_id (leaving digest later)) _ db2 db' w h3 in
    let h5 =
      execute_ok (on_invite (digest token) (begun digest later)) _
        (on_worker v.worker_id (leaving digest later) db2) db' w h4 in
    let (same, last) = pure_ok v w _ db' h5 in
    let none_runs : any (holds_task digest v.worker_id) db2.tasks ≡ false = ground arith in
    let known2 : get_worker db2 v.worker_id ≡ ok v =
      subst (λ d. get_worker d v.worker_id ≡ ok v) same2 known in
    let left = get_worker-update db2 v.worker_id (leaving digest later) v (λ x. refl) known2 in
    let after : Db =
      on_invite (digest token) (begun digest later)
        (on_worker v.worker_id (leaving digest later) db2) in
    let left_there =
      subst (λ d. get_worker d v.worker_id ≡ ok (leaving digest later v)) last
        (on_invite_workers (digest token) v.worker_id (begun digest later)
            (on_worker v.worker_id (leaving digest later) db2)
          ∙ left) in
    let stays : any (holds_task digest v.worker_id) db'.tasks ≡ false =
      subst (λ d. any (holds_task digest v.worker_id) d.tasks ≡ false) last none_runs in
    (
      subst (λ x. any (holds_task digest x.worker_id) db'.tasks ≡ false) same stays,
      subst
          (λ x.
            claim_task settings at later2 lease x.worker_id supported state active db'
            ≡ (err (worker_not_registered x.worker_id), db'))
          same
          (unfold Refused in
            disabled settings v.worker_id (leaving digest later v) db' left_there refl at later2
              lease supported state active),
    )

found_again :
    (hash : String) (f : UninstallInvite → UninstallInvite) (is : List UninstallInvite)
    (i : UninstallInvite)
    → ((x : UninstallInvite) → (f x).token_hash ≡ x.token_hash)
    → find (has_hash hash) is ≡ some i
    → find (has_hash hash) (update_where (has_hash hash) f is) ≡ some (f i)
found_again hash f [] i k h = absurd (cc)
found_again hash f (x ∷ is) i k h = ground (arith, k x, found_again hash f is i k)

removed_ok :
    (digest : String → String) (now : Time) (token audit_id : String) (w u : Worker)
    (i : UninstallInvite) (db db' : Db)
    → find (has_hash (digest token)) db.uninstall_invites ≡ some i
    → remove_worker digest now token audit_id w db ≡ (ok u, db')
    → (w ≡ u)
      × (db'.tasks ≡ db.tasks)
      × (get_worker db' w.worker_id ≡ err (worker_not_registered w.worker_id))
      × (find (has_hash (digest token)) db'.uninstall_invites ≡ some (completed digest now i))
unfolding remove_worker get_worker
removed_ok digest now token audit_id w u i db db' row h =
    let (_, _, h1) = query_ok _ _ db db' u h in
    let h2 = execute_ok _ _ _ db' u h1 in
    let h3 = execute_ok _ _ _ db' u h2 in
    let h4 = execute_ok _ _ _ db' u h3 in
    let h5 = execute_ok _ _ _ db' u h4 in
    let h6 = execute_ok _ _ _ db' u h5 in
    let (same, last) = pure_ok w u _ db' h6 in
    (
      same,
      sym (ap (λ d. d.tasks) last),
      subst (λ d. get_worker d w.worker_id ≡ err (worker_not_registered w.worker_id)) last
          (rw (find_deleted w.worker_id db.workers) refl),
      sym (ap (λ d. find (has_hash (digest token)) d.uninstall_invites) last)
          ∙ found_again (digest token) (completed digest now) db.uninstall_invites i (λ x. refl)
              row,
    )

-- A completed uninstall leaves every task as it was, removes the worker, so that each of its claims is
-- refused, and uses up the invitation.
pub complete_worker_uninstall_removes :
    (digest : String → String) (settings : Settings) (now later at later2 : Time)
    (token secret audit_id lease : String) (supported : List String) (state : Option CapacityState)
    (active : Option ℤ) (w : Worker) (db db' : Db)
    → complete_worker_uninstall digest now later token secret audit_id db ≡ (ok w, db')
    → (db'.tasks ≡ db.tasks)
      × (claim_task settings at later2 lease w.worker_id supported state active db'
          ≡ (err (worker_not_registered w.worker_id), db'))
      × (get_worker_uninstall_invite digest at token db'
          ≡ (err (uninstall_invite_error "Worker uninstall has already completed"), db'))
unfolding complete_worker_uninstall
complete_worker_uninstall_removes digest settings now later at later2 token secret audit_id lease
      supported state active w db db' h =
    let (i, db1, reads, h1) = bind_ok _ _ db db' w h in
    let (row, same1) = invite_ok digest now token i db db1 reads in
    let (v, db2, verified, h2) = bind_ok _ _ db1 db' w h1 in
    let (_, same2) = bound_ok digest i secret v db1 db2 verified in
    let (_, _, h3) = query_ok _ _ db2 db' w h2 in
    let h4 = transaction_ok (remove_worker digest later token audit_id v) db2 db' w h3 in
    let row2 =
      subst (λ d. find (has_hash (digest token)) d.uninstall_invites ≡ some i) (same1 ∙ same2)
        row in
    let (same, tasks, gone, used) = removed_ok digest later token audit_id v w i db2 db' row2 h4 in
    (
      tasks ∙ sym (ap (λ d. d.tasks) (same1 ∙ same2)),
      unfold Refused in
          absent settings w.worker_id db'
            (subst (λ x. get_worker db' x.worker_id ≡ err (worker_not_registered x.worker_id)) same
              gone)
            at later2 lease supported state active,
      unfold get_worker_uninstall_invite in
          run_query _ _ db' (completed digest later i)
            (ap (λ o. or_raise o uninstall_invite_not_found) used)
          ∙ unfold query in refl,
    )
