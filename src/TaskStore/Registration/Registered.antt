-- ===== src/TaskStore/Registration/Registered.antt =====
-- What a registration leaves.
use cloudlink.Prelude.{
  ℕ, zero, suc, ◌≤◌, Bool, true, false, String, List, [], ◌∷◌, ◌++◌, Option, none, some, ◌≡◌, ◌∙◌,
  refl, sym, arith, ◌==◌, string_eq, any, contains, find, update_where, coalesce, or_else, All,
  All-select_meets, Bool-cases, inl, inr, ℤ, pos, negsuc, beq_self, eq_of_beq, find_sound,
}
use cloudlink.Errors.{Error, ok_injective, ok, raise_if}
use cloudlink.Database.Tasks.{Time}
use cloudlink.Database.Workers.{Worker, active}
use cloudlink.Database.Action.{Db, Settings}
use cloudlink.Database.Safe.{Leaves-query, Leaves-execute, Leaves-last, Leaves-result}
use cloudlink.TaskStore.Workers.{get_worker, has_worker_id}
use cloudlink.TaskStore.Touch.{at_least_one}
use cloudlink.TaskStore.Registration.{
  Registration, registered_row, registered_again, upsert_worker, allowed_types, is_nil, sorted_set,
  insert_text, register_worker,
}

insert_text-All :
    (P : String → Type 0) (x : String) (ys : List String)
    → P x
    → All P ys
    → All P (insert_text x ys)
insert_text-All P x [] h k = (h, tt)
insert_text-All P x (y ∷ ys) h k = ground (arith, insert_text-All P x ys h k.1)

sorted_set-All : (P : String → Type 0) (xs : List String) → All P xs → All P (sorted_set xs)
unfolding sorted_set
sorted_set-All P [] h = tt
sorted_set-All P (x ∷ xs) h = insert_text-All P x (sorted_set xs) h.0 (sorted_set-All P xs h.1)

-- The row after an upsert: the old one with the new columns, or the new one.
abbrev pub merged : Worker → Option Worker → Worker
merged new none = new
merged new (some old) = registered_again new old

updated_row :
    (new : Worker) (id : String) (ws : List Worker)
    → any (has_worker_id id) ws ≡ true
    → find (has_worker_id id) (update_where (has_worker_id id) (registered_again new) ws)
      ≡ some (merged new (find (has_worker_id id) ws))
updated_row new id [] h = absurd (cc)
updated_row new id (w ∷ ws) h = elim (Bool-cases (w.worker_id == id)) [
  | inl own ↦ rw (own, own) refl
  | inr foreign ↦ rw (foreign, foreign) (updated_row new id ws (rw foreign at h))
]

appended_row :
    (new : Worker) (id : String) (ws : List Worker)
    → (new.worker_id == id) ≡ true
    → any (has_worker_id id) ws ≡ false
    → find (has_worker_id id) (ws ++ new ∷ []) ≡ some (merged new (find (has_worker_id id) ws))
appended_row new id [] own h = rw own refl
appended_row new id (w ∷ ws) own h = elim (Bool-cases (w.worker_id == id)) [
  | inl same ↦ absurd (ground arith)
  | inr foreign ↦ rw foreign (appended_row new id ws own (rw foreign at h))
]

upsert-get_worker :
    (new : Worker) (db : Db)
    → get_worker (upsert_worker new db) new.worker_id
      ≡ ok (merged new (find (has_worker_id new.worker_id) db.workers))
unfolding get_worker
upsert-get_worker new db = elim (Bool-cases (any (has_worker_id new.worker_id) db.workers)) [
  | inl known ↦ rw (known, updated_row new new.worker_id db.workers known) refl
  | inr fresh ↦
      rw (fresh, appended_row new new.worker_id db.workers (beq_self new.worker_id) fresh) refl
]

-- What a worker keeps from its row of before; a new one has the secret that it was given.
abbrev pub Keeps : Registration → Worker → Option Worker → Type 0
Keeps r w none = w.worker_secret_hash ≡ r.worker_secret_hash
Keeps r w (some old) =
    (w.worker_secret_hash ≡ coalesce r.worker_secret_hash old.worker_secret_hash)
    × (w.configured_job_root ≡ old.configured_job_root)
    × (w.configured_dataset_roots ≡ old.configured_dataset_roots)
    × (w.dataset_root_checks ≡ old.dataset_root_checks)
    × (w.configured_reserve_overrides ≡ old.configured_reserve_overrides)
    × (w.registered_at ≡ old.registered_at)

-- What is true of a worker that has registered.
pub record IsRegistered (settings : Settings) (r : Registration) (db : Db) (w : Worker) (after : Db)
    : Type 0 where
  pub found : get_worker after r.worker_id ≡ ok w
  pub named : w.worker_id ≡ r.worker_id
  pub enabled : w.enabled ≡ r.enabled
  pub works : w.lifecycle_status ≡ active
  pub slots : (r.max_concurrent_tasks ≡ pos w.max_concurrent_tasks) × (1 ≤ w.max_concurrent_tasks)
  pub supported : is_nil w.supported_types ≡ false
  pub allowed : All (λ t. contains t settings.allowed_task_types ≡ true) w.supported_types
  pub keeps : Keeps r w (find (has_worker_id r.worker_id) db.workers)

positive :
    (n : ℤ) (o : Option ℕ)
    → at_least_one (some n) ≡ ok o
    → (n ≡ pos (or_else o 1)) × (1 ≤ or_else o 1)
positive (pos zero) o h = absurd (cc)
positive (pos (suc n)) o h = let e : some (suc n) ≡ o = ground arith in rw (← e) (refl, omega arith)
positive (negsuc n) o h = absurd (cc)

merged-IsRegistered :
    (settings : Settings) (now : Time) (r : Registration) (concurrent running : ℕ) (db : Db)
    → is_nil (allowed_types settings r.supported_types) ≡ false
    → (r.max_concurrent_tasks ≡ pos concurrent) × (1 ≤ concurrent)
    → let new =
        registered_row now r (allowed_types settings r.supported_types) concurrent running in
      IsRegistered settings r db
        (merged new (find (has_worker_id r.worker_id) db.workers))
        (upsert_worker new db)
unfolding get_worker
merged-IsRegistered settings now r concurrent running db some_type some_slot =
    by_row (find (has_worker_id r.worker_id) db.workers) refl (upsert-get_worker new db)
  where
    new : Worker
    new = registered_row now r (allowed_types settings r.supported_types) concurrent running

    types_allowed :
        All
          (λ t. contains t settings.allowed_task_types ≡ true)
          (allowed_types settings r.supported_types)
    types_allowed =
        sorted_set-All _ _
          (All-select_meets (λ t. contains t settings.allowed_task_types) r.supported_types)

    by_row :
        (o : Option Worker)
        → find (has_worker_id r.worker_id) db.workers ≡ o
        → get_worker (upsert_worker new db) r.worker_id ≡ ok (merged new o)
        → IsRegistered settings r db (merged new o) (upsert_worker new db)
    by_row none e found = record {
      found = found;
      named = refl;
      enabled = refl;
      works = refl;
      slots = some_slot;
      supported = some_type;
      allowed = types_allowed;
      keeps = rw e refl;
    }
    by_row (some was) e found = record {
      found = found;
      named =
          eq_of_beq was.worker_id r.worker_id
            (find_sound (has_worker_id r.worker_id) db.workers was e);
      enabled = refl;
      works = refl;
      slots = some_slot;
      supported = some_type;
      allowed = types_allowed;
      keeps = rw e (refl, refl, refl, refl, refl, refl);
    }

-- A registration that returns has returned the worker that is stored, under the name and with the secret
-- that were given: it is active, takes as many tasks at a time as the registration says, at least one,
-- and supports some task types, all of them allowed. A worker that was registered before keeps its secret
-- unless a new one comes, and in any case the configured job directory, dataset directories and reserve,
-- the checks of its directories, and the date of its first registration.
pub register_worker-IsRegistered :
    (settings : Settings) (now : Time) (r : Registration) (w : Worker) (db after : Db)
    → register_worker settings now r db ≡ (ok w, after)
    → IsRegistered settings r db w after
unfolding register_worker
register_worker-IsRegistered settings now r w db after returns =
    (Leaves-result (λ _. Unit {0}) (IsRegistered settings r db) _ w after
      (Leaves-query _ _ _ _ db tt λ _ some_type. Leaves-query _ _ _ _ db tt λ concurrent slots.
        Leaves-query _ _ _ _ db tt λ running _. Leaves-execute _ _ _ _ db (
          Leaves-last _ _ _ _ tt λ x e.
            stored x (or_else concurrent 1) (or_else running 0) (refused_not _ _ _ some_type)
              (positive r.max_concurrent_tasks concurrent slots) e))
      returns).1
  where
    refused_not : (b : Bool) (e : Error) (u : Unit {0}) → raise_if b e ≡ ok u → b ≡ false
    refused_not b e u h = ground arith

    stored :
        (x : Worker) (concurrent running : ℕ)
        → is_nil (allowed_types settings r.supported_types) ≡ false
        → (r.max_concurrent_tasks ≡ pos concurrent) × (1 ≤ concurrent)
        → get_worker
            (upsert_worker
              (registered_row now r (allowed_types settings r.supported_types) concurrent running)
              db)
            r.worker_id
          ≡ ok x
        → IsRegistered settings r db x (
            upsert_worker
              (registered_row now r (allowed_types settings r.supported_types) concurrent running)
              db)
    stored x concurrent running some_type some_slot e =
        let new =
          registered_row now r (allowed_types settings r.supported_types) concurrent running in
        let it = upsert-get_worker new db in
        let same : merged new (find (has_worker_id r.worker_id) db.workers) ≡ x =
          ok_injective _ _ (sym it ∙ e) in
        rw (← same) (merged-IsRegistered settings now r concurrent running db some_type some_slot)

-- The secret that a registration brings is the one that the worker has.
pub IsRegistered-secret :
    (settings : Settings) (r : Registration) (db : Db) (w : Worker) (after : Db) (hash : String)
    → IsRegistered settings r db w after
    → r.worker_secret_hash ≡ some hash
    → w.worker_secret_hash ≡ some hash
IsRegistered-secret settings r db w after hash is given =
    by_row (find (has_worker_id r.worker_id) db.workers) is.keeps
  where
    by_row : (o : Option Worker) → Keeps r w o → w.worker_secret_hash ≡ some hash
    by_row none k = k ∙ given
    by_row (some old) k = k.0 ∙ rw given refl
