-- ===== src/TaskStore/Dangling.antt =====
-- A waiting task that names a dataset version which does not exist.
use cloudlink.Prelude.{
  ℕ, ℤ, suc, Bool, true, false, String, List, [], ◌∷◌, Option, none, some, ◌≡◌, refl, ap, ◌∙◌,
  arith, ◌⊎◌, inl, inr, Bool-cases, select, update_where, insert_by, order_by, leb,
}
use cloudlink.Errors.{Error, Result, ok, err, raise_if, dataset_not_found, Rejection}
use cloudlink.Errors
use cloudlink.Database.Tasks.{Time, Task}
use cloudlink.Database.Workers.{Worker, CapacityState}
use cloudlink.Database.Action.{Db, Settings, ◌>>=◌, execute, transaction}
use cloudlink.Database.Runs.{run_query, run_query_raises}
use cloudlink.DatasetStore.Queries.{released_dataset_ids}
use cloudlink.DatasetStore.Laws.{Dangles, released_dataset_ids_dangling, released_dataset_ids-err}
use cloudlink.TaskStore.Workers.{get_worker}
use cloudlink.TaskStore.Scheduling.{dataset_availability_rejection, availability}
use cloudlink.TaskStore.Queue.{
  is_waiting, oldest_first, expire_pending_tasks, waited_too_long, give_up_waiting,
}
use cloudlink.TaskStore.Claim.{
  unavailable, request_of, fail_waiting, expire_each, expire_unavailable_dataset_tasks, claim_body,
  claim_task,
}

abbrev pub Any : (Task → Type 0) → List Task → Type 0
Any P [] = ⊥
Any P (t ∷ ts) = P t ⊎ Any P ts

module _ (P : Task → Type 0) where
  Any-select :
      (p : Task → Bool) (ts : List Task) → Any (λ t. P t × (p t ≡ true)) ts → Any P (select p ts)
  Any-select p [] h = absurd h
  Any-select p (t ∷ ts) (inl (x, hit)) = rw hit (inl x)
  Any-select p (t ∷ ts) (inr h) = elim (Bool-cases (p t)) [
    | inl hit ↦ rw hit (inr (Any-select p ts h))
    | inr miss ↦ rw miss (Any-select p ts h)
  ]

  Any-insert :
      (key : Task → ℕ) (t : Task) (ts : List Task) → P t ⊎ Any P ts → Any P (insert_by key t ts)
  Any-insert key t [] h = h
  Any-insert key t (x ∷ ts) h = elim (Bool-cases (leb (key t) (key x))) [
    | inl first ↦ rw first h
    | inr after ↦ rw after (elim h [
      | inl here ↦ inr (Any-insert key t ts (inl here))
      | inr (inl x) ↦ inl x
      | inr (inr there) ↦ inr (Any-insert key t ts (inr there))
    ])
  ]

  Any-order_by : (key : Task → ℕ) (ts : List Task) → Any P ts → Any P (order_by key ts)
  Any-order_by key [] h = h
  Any-order_by key (t ∷ ts) (inl x) = Any-insert key t (order_by key ts) (inl x)
  Any-order_by key (t ∷ ts) (inr h) =
      Any-insert key t (order_by key ts) (inr (Any-order_by key ts h))

  Any-update_where :
      (p : Task → Bool) (f : Task → Task) (ts : List Task)
      → Any (λ t. P t × (p t ≡ false)) ts
      → Any P (update_where p f ts)
  Any-update_where p f [] h = absurd h
  Any-update_where p f (t ∷ ts) (inl (x, miss)) = rw miss (inl x)
  Any-update_where p f (t ∷ ts) (inr h) = inr (Any-update_where p f ts h)

availability_err :
    (settings : Settings) (now : Time) (t : Task) (db : Db) (e : Error)
    → released_dataset_ids db t.payload.datasets ≡ err e
    → unavailable settings now t db ≡ err e
unfolding dataset_availability_rejection
availability_err settings now t db e h = rw h refl

-- Only the released list raises.
availability-err :
    (settings : Settings) (now : Time) (t : Task) (db : Db) (e : Error)
    → unavailable settings now t db ≡ err e
    → released_dataset_ids db t.payload.datasets ≡ err e
unfolding dataset_availability_rejection
availability-err settings now t db e h = go (released_dataset_ids db t.payload.datasets) h
  where
    go :
        (x : Result (List String))
        → Errors.◌>>=◌ x
            (λ ids. ok (availability db now t.type t.payload (request_of t) settings ids))
          ≡ err e
        → x ≡ err e
    go (ok ids) k = absurd (cc)
    go (err x) k = ground arith

-- The expiry of waiting tasks whose datasets are gone raises when one of them names a missing version.
expire_each_dangling :
    (settings : Settings) (now : Time) (ts : List Task) (n : ℕ) (db : Db)
    → Any (λ t. Dangles db t.payload.datasets) ts
    → (id : String) × (db' : Db) × (expire_each settings now ts n db
        ≡ (err (dataset_not_found id), db'))
unfolding expire_each
expire_each_dangling settings now [] n db h = absurd h
expire_each_dangling settings now (t ∷ ts) n db (inl bad) =
    let (id, raises) = released_dataset_ids_dangling db t.payload.datasets bad in
    (
      id,
      db,
      run_query_raises _ _ db (dataset_not_found id)
          (availability_err settings now t db (dataset_not_found id) raises),
    )
expire_each_dangling settings now (t ∷ ts) n db (inr h) =
    go (unavailable settings now t db) refl (expire_each_dangling settings now ts n db h)
      (expire_each_dangling settings now ts (suc n) (fail_waiting now t.id db) h)
  where
    go :
        (x : Result (Option Rejection))
        → unavailable settings now t db ≡ x
        → ((id : String) × (db' : Db) × (expire_each settings now ts n db
              ≡ (err (dataset_not_found id), db')))
        → ((id : String) × (db' : Db) × (expire_each settings now ts
                (suc n)
                (fail_waiting now t.id db)
              ≡ (err (dataset_not_found id), db')))
        → (id : String) × (db' : Db) × (expire_each settings now (t ∷ ts) n db
            ≡ (err (dataset_not_found id), db'))
    go (err e) q rest gone =
        let (id, is_missing) =
          released_dataset_ids-err db t.payload.datasets e
            (availability-err settings now t db e q) in
        (id, db, run_query_raises _ _ db (dataset_not_found id) (q ∙ ap err is_missing))
    go (ok none) q (id, db', e) gone = (id, db', run_query _ _ db none q ∙ e)
    go (ok (some r)) q rest (id, db', e) =
        (id, db', run_query _ _ db (some r) q ∙ unfold ◌>>=◌ execute in e)

-- A pending task within the limit on waiting that names a missing version.
abbrev Blocks : Db → ℕ → Time → Task → Type 0
Blocks db limit now t =
    (Dangles db t.payload.datasets × (is_waiting t ≡ true)) × (waited_too_long limit now t ≡ false)

body_dangling :
    (settings : Settings) (now later : Time) (lease worker : String) (supported : List String)
    (state : Option CapacityState) (active : Option ℤ) (w : Worker) (db : Db)
    → get_worker db worker ≡ ok w
    → w.enabled ≡ true
    → Any (Blocks db settings.queue_timeout_seconds now) db.tasks
    → (id : String) × (db' : Db) × (claim_body settings now later lease worker supported state
          active db
        ≡ (err (dataset_not_found id), db'))
unfolding claim_body
body_dangling settings now later lease worker supported state active w db known enabled h =
    let p : Task → Bool = waited_too_long settings.queue_timeout_seconds now in
    let db1 : Db = expire_pending_tasks now settings.queue_timeout_seconds db in
    let waiting =
      Any-update_where (λ t. Dangles db t.payload.datasets × (is_waiting t ≡ true)) p
        (give_up_waiting now) db.tasks h in
    let rows : List Task = update_where p (give_up_waiting now) db.tasks in
    let chosen =
      Any-order_by (λ t. Dangles db t.payload.datasets) (λ t. t.created_at) (select is_waiting rows)
        (Any-select (λ t. Dangles db t.payload.datasets) is_waiting rows waiting) in
    let (id, db', raises) =
      expire_each_dangling settings later (oldest_first (select is_waiting db1.tasks)) 0 db1
        (unfold expire_pending_tasks in chosen) in
    let loops : expire_unavailable_dataset_tasks settings later db1
        ≡ (err (dataset_not_found id), db') =
      unfold expire_unavailable_dataset_tasks in raises in
    (
      id,
      db',
      run_query _ _ db w known
          ∙ (run_query _ _ db tt (rw enabled refl) ∙ unfold ◌>>=◌ execute in rw loops refl),
    )

-- While one pending task that has not waited too long names a required dataset version that does not
-- exist, every claim by any enabled worker, for any task, raises that the dataset is not found and
-- changes nothing.
pub claim_task_dangling :
    (settings : Settings) (now later : Time) (lease worker : String) (supported : List String)
    (state : Option CapacityState) (active : Option ℤ) (w : Worker) (db : Db)
    → get_worker db worker ≡ ok w
    → w.enabled ≡ true
    → Any (Blocks db settings.queue_timeout_seconds now) db.tasks
    → (id : String) × (claim_task settings now later lease worker supported state active db
        ≡ (err (dataset_not_found id), db))
unfolding claim_task transaction
claim_task_dangling settings now later lease worker supported state active w db known enabled h =
    let (id, db', raises) =
      body_dangling settings now later lease worker supported state active w db known enabled h in
    (id, rw raises refl)
