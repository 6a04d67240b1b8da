-- ===== src/TaskStore/Lifecycle.antt =====
-- The life of a task: which rows are well formed, how a row may change, and what an update of the
-- table keeps.
pub mod Updates
pub mod Rules
pub mod Steps
pub mod Found
pub mod Claiming
use cloudlink.Prelude.{Bool, true, false, List, [], ◌∷◌, none, ◌≡◌, refl, find, All, is_some, arith}
use cloudlink.Database.Tasks.{Task, Status, pending, running, success, failed, timeout, cancelled}
use cloudlink.Database.Action.{Db}
use cloudlink.TaskStore.Capacity.{is_running}
use cloudlink.TaskStore.Queue.{is_terminal, is_pending, has_id}

-- A status can be reached from itself and from those before it.
abbrev pub reaches : Status → Status → Bool
reaches pending s = true
reaches running pending = false
reaches running _ = true
reaches success success = true
reaches success _ = false
reaches failed failed = true
reaches failed _ = false
reaches timeout timeout = true
reaches timeout _ = false
reaches cancelled cancelled = true
reaches cancelled _ = false

-- What becomes of a row: its identity, its input and its owner stay, its status goes forward, and a
-- finished task is never touched again.
pub record Moves (t u : Task) : Type 0 where
  pub same_id : u.id ≡ t.id
  pub same_type : u.type ≡ t.type
  pub same_payload : u.payload ≡ t.payload
  pub same_request : u.resource_request ≡ t.resource_request
  pub same_submitter : u.submitter_id ≡ t.submitter_id
  pub same_creation : u.created_at ≡ t.created_at
  pub forward : reaches t.status u.status ≡ true
  pub frozen : is_terminal t.status ≡ true → u ≡ t

-- The rows of a table stay in place, and new ones come behind them.
abbrev pub Evolves : List Task → List Task → Type 0
Evolves [] us = Unit {0}
Evolves (t ∷ ts) [] = ⊥
Evolves (t ∷ ts) (u ∷ us) = Moves t u × Evolves ts us

-- A task that runs has an owner, a lease with its end, a start and a reservation, and no other task
-- has a lease; it is finished exactly when its status is terminal; a success has its result.
pub record IsSound (t : Task) : Type 0 where
  pub owner : is_running t.status ≡ true → is_some t.locked_by ≡ true
  pub until : is_running t.status ≡ true → is_some t.locked_until ≡ true
  pub lease : is_running t.status ≡ true → is_some t.lease_id ≡ true
  pub started : is_running t.status ≡ true → is_some t.started_at ≡ true
  pub reserved : is_running t.status ≡ true → is_some t.resource_reservation ≡ true
  pub no_lease : is_running t.status ≡ false → t.lease_id ≡ none
  pub no_until : is_running t.status ≡ false → t.locked_until ≡ none
  pub finished : is_some t.finished_at ≡ is_terminal t.status
  pub result : t.status ≡ success → is_some t.result ≡ true
  pub completion : t.status ≡ success → is_some t.completion_lease_id ≡ true
  pub digest : t.status ≡ success → is_some t.result_sha256 ≡ true

-- The primary key.
abbrev pub Unique : List Task → Type 0
Unique [] = Unit {0}
Unique (t ∷ ts) = (find (has_id t.id) ts ≡ none) × Unique ts

pub record IsValid (db : Db) : Type 0 where
  pub sound : All IsSound db.tasks
  pub unique : Unique db.tasks

pub Moves-refl : (t : Task) → Moves t t
Moves-refl t = ground arith

reaches_trans : (a b c : Status) → reaches a b ≡ true → reaches b c ≡ true → reaches a c ≡ true
reaches_trans pending b c h k = refl
reaches_trans running b c h k = ground arith
reaches_trans success b c h k = ground arith
reaches_trans failed b c h k = ground arith
reaches_trans timeout b c h k = ground arith
reaches_trans cancelled b c h k = ground arith

Moves-trans : (t u v : Task) → Moves t u → Moves u v → Moves t v
Moves-trans t u v h k = ground (arith, reaches_trans t.status u.status v.status)

pub Evolves-refl : (ts : List Task) → Evolves ts ts
Evolves-refl [] = tt
Evolves-refl (t ∷ ts) = (Moves-refl t, Evolves-refl ts)

pub Evolves-trans : (ts us vs : List Task) → Evolves ts us → Evolves us vs → Evolves ts vs
Evolves-trans [] us vs h k = tt
Evolves-trans (t ∷ ts) [] vs h k = absurd h
Evolves-trans (t ∷ ts) (u ∷ us) [] h k = absurd k
Evolves-trans (t ∷ ts) (u ∷ us) (v ∷ vs) h k =
    (Moves-trans t u v h.0 k.0, Evolves-trans ts us vs h.1 k.1)
