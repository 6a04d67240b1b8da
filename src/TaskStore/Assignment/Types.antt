-- ===== src/TaskStore/Assignment/Types.antt =====
-- Which types of tasks a claim hands out.
use cloudlink.Prelude.{
  ℤ, Bool, true, ◌&&◌, String, List, [], ◌∷◌, Option, some, ◌≡◌, refl, ap, arith, ◌==◌, string_eq,
  select, contains, Bool-cases, inl, inr, eq_of_beq,
}
use cloudlink.Errors.{ok}
use cloudlink.Database.Tasks.{Time}
use cloudlink.Database.Workers.{Worker, CapacityState}
use cloudlink.Database.Action.{Db, Settings}
use cloudlink.TaskStore.Workers.{get_worker}
use cloudlink.TaskStore.Capacity.{worker_current_capacity, subtract_running_reservations}
use cloudlink.TaskStore.Queue.{is_pending}
use cloudlink.TaskStore.Claim.{Claimed, claim_task, allowed, candidates}
use cloudlink.TaskStore.Lifecycle.{IsValid}
use cloudlink.TaskStore.Lifecycle.Found.{IsIn, candidates-IsIn, Serves-All}
use cloudlink.TaskStore.Assignment.{claim_task-Granted}

contains-select :
    (p : String → Bool) (x : String) (xs : List String)
    → contains x (select p xs) ≡ true
    → (contains x xs ≡ true) × (p x ≡ true)
contains-select p x [] h = absurd (cc)
contains-select p x (y ∷ ys) h = elim (Bool-cases (x == y)) [
  | inl own ↦
      let same : x ≡ y = eq_of_beq x y own in
      elim (Bool-cases (p y)) [
        | inl hit ↦ (rw own refl, rw same hit)
        | inr miss ↦ let rest = contains-select p x ys (rw miss at h) in (rw own refl, rest.1)
      ]
  | inr foreign ↦
      let rest : (contains x ys ≡ true) × (p x ≡ true) = elim (Bool-cases (p y)) [
        | inl hit ↦ contains-select p x ys (rw (hit, foreign) at h)
        | inr miss ↦ contains-select p x ys (rw miss at h)
      ] in
      (rw foreign rest.0, rest.1)
]

-- From a well-formed table, a claim that hands out a task was made by a worker that is enabled, and the
-- type of the task is among those that the worker asks for, those for which it is registered, and those
-- that the settings allow.
pub claim_task_type :
    (settings : Settings) (now later : Time) (lease worker : String) (supported : List String)
    (state : Option CapacityState) (active : Option ℤ) (c : Claimed) (w : Worker) (db db' : Db)
    → IsValid db
    → claim_task settings now later lease worker supported state active db ≡ (ok (some c), db')
    → get_worker db worker ≡ ok w
    → (w.enabled ≡ true)
      × (contains c.type supported ≡ true)
      × (contains c.type w.supported_types ≡ true)
      × (contains c.type settings.allowed_task_types ≡ true)
claim_task_type settings now later lease worker supported state active c w db db' v h known =
    let g = claim_task-Granted settings now later lease worker supported state active c db db' h in
    let types : List String = allowed settings g.registered supported in
    let found =
      (Serves-All g.before settings now later g.w
        (subtract_running_reservations g.before later g.w.worker_id (worker_current_capacity g.w))
        (λ k. IsIn g.before.tasks k × ((contains k.type types && is_pending k.status) ≡ true))
        (candidates types g.before) g.t g.r
        (candidates-IsIn types g.before (g.expired v).valid.unique) g.choice.served).0 in
    let is_w : g.registered ≡ w = ground (arith, g.known) in
    let same : c.type ≡ g.t.type = ap (λ x. x.type) (g.is_task v) in
    let listed : contains g.t.type types ≡ true = ground (arith, found.1) in
    let picked =
      contains-select
        (λ type.
          contains type g.registered.supported_types && contains type settings.allowed_task_types)
        g.t.type supported listed in
    rw (same, ← is_w) (g.enabled, picked.0, ground (arith, picked.1), ground (arith, picked.1))
