-- ===== src/TaskStore/Lifecycle/Found.antt =====
-- A row that a query selects is the row that its key finds, and what `claim_task` picks from rows.
use text.Mathlib.TextEquality.{eq_iff}
use cloudlink.Prelude.{
  true, false, ◌&&◌, String, List, [], ◌∷◌, none, some, ◌≡◌, refl, subst, arith, if◌then◌else◌,
  string_eq, find, select, All, All-map, All-select, All-select_meets, All-order_by, All-both,
  beq_self, contains, Bool-cases, inl, inr, ◌⊎◌,
}
use cloudlink.Errors.{Result, ok, err}
use cloudlink.Errors
use cloudlink.ResourceModel.Types.{ResourceRequest, Capacity}
use cloudlink.ResourceModel.Fits.{fits_capacity}
use cloudlink.Database.Tasks.{Task, Time}
use cloudlink.Database.Workers.{Worker}
use cloudlink.Database.Action.{Db, Settings}
use cloudlink.DatasetStore.Queries.{released_dataset_ids}
use cloudlink.TaskStore.Workers.{worker_supports_runtime}
use cloudlink.TaskStore.Capacity.{worker_ideal_capacity}
use cloudlink.TaskStore.Queue.{get_task, has_id, is_pending}
use cloudlink.TaskStore.Claim.{
  chosen, request_of, lacks_datasets, weigh, pick, yields_to_cpu, candidates, fits_ideal, fits_now,
  has_aged,
}
use cloudlink.TaskStore.Lifecycle.{Unique, Evolves, Moves}

-- The key of the row finds the row.
abbrev pub IsIn : List Task → Task → Type 0
IsIn ts t = find (has_id t.id) ts ≡ some t

apart :
    (id : String) (ts : List Task) → find (has_id id) ts ≡ none → All (λ u. has_id id u ≡ false) ts
apart id [] h = tt
apart id (x ∷ ts) h = ground (arith, apart id ts)

All-IsIn : (ts : List Task) → Unique ts → All (IsIn ts) ts
All-IsIn [] u = tt
All-IsIn (x ∷ ts) u = (
  rw (beq_self x.id),
  All-map _ _ ts (λ t h. ground (arith, eq_iff x.id t.id, eq_iff t.id x.id))
      (All-both (IsIn ts) (λ t. has_id x.id t ≡ false) ts (All-IsIn ts u.1) (apart x.id ts u.0)),
)

-- The candidates of a claim are rows that wait and have one of the types.
pub candidates-IsIn :
    (types : List String) (db : Db)
    → Unique db.tasks
    → All
        (λ t. IsIn db.tasks t × ((contains t.type types && is_pending t.status) ≡ true))
        (candidates types db)
candidates-IsIn types db u =
    All-order_by _ (λ t. t.created_at)
      (select (λ t. contains t.type types && is_pending t.status) db.tasks)
      (All-both _ _ (select (λ t. contains t.type types && is_pending t.status) db.tasks)
        (All-select (IsIn db.tasks) (λ t. contains t.type types && is_pending t.status) db.tasks
          (All-IsIn db.tasks u))
        (All-select_meets (λ t. contains t.type types && is_pending t.status) db.tasks))

-- What is known of a task that was picked.
pub record Picked (db : Db) (w : Worker) (available : Capacity) (t : Task) (r : ResourceRequest)
    : Type 0 where
  pub request : r ≡ request_of t
  pub ideal : (fits_capacity r (worker_ideal_capacity w)).0 ≡ true
  pub now : (fits_capacity r available).0 ≡ true
  pub runtime : worker_supports_runtime w t.payload ≡ true

module _ (db : Db) (settings : Settings) (now later : Time) (w : Worker)
    (available : Capacity) where
  -- Why an older task is passed over.
  pub data Skipped (t : Task) : Type 0 where
    other_runtime : worker_supports_runtime w t.payload ≡ false → Skipped t
    left_to_cpu : yields_to_cpu db settings later w t ≡ true → Skipped t
    no_datasets :
        (ids : List String)
        → released_dataset_ids db t.payload.datasets ≡ ok ids
        → lacks_datasets db w ids ≡ true
        → Skipped t
    too_large : fits_ideal w t ≡ false → Skipped t
    no_room_yet :
        fits_now available t ≡ false
        → (is_pending t.status && has_aged settings now t) ≡ false
        → Skipped t

  -- The first task that is not passed over is the one, and it fits.
  abbrev pub Serves : List Task → Task → ResourceRequest → Type 0
  Serves [] u r = ⊥
  Serves (t ∷ ts) u r = ((u ≡ t) × Picked db w available t r) ⊎ (Skipped t × Serves ts u r)

  weigh-Serves :
      (t u : Task) (r : ResourceRequest) (ts : List Task)
      → worker_supports_runtime w t.payload ≡ true
      → (pick db settings now later w available ts ≡ ok (chosen u r) → Serves ts u r)
      → weigh settings now w available t (pick db settings now later w available ts)
        ≡ ok (chosen u r)
      → Serves (t ∷ ts) u r
  weigh-Serves t u r ts s rest h = elim (Bool-cases (fits_ideal w t)) [
    | inr large ↦ inr (too_large large, rest (rw large at h))
    | inl ideal ↦ elim (Bool-cases (fits_now available t)) [
      | inl room ↦
          let e : (u ≡ t) × (r ≡ request_of t) = ground arith in
          inl (
            e.0,
            record { request = e.1; ideal = rw (e.1) ideal; now = rw (e.1) room; runtime = s },
          )
      | inr tight ↦ elim (Bool-cases (is_pending t.status && has_aged settings now t)) [
        | inl aged ↦ absurd (ground arith)
        | inr young ↦ inr (no_room_yet tight young, rest (rw (ideal, tight, young) at h))
      ]
    ]
  ]

  checked-Serves :
      (t u : Task) (r : ResourceRequest) (ts : List Task) (x : Result (List String))
      → released_dataset_ids db t.payload.datasets ≡ x
      → worker_supports_runtime w t.payload ≡ true
      → (pick db settings now later w available ts ≡ ok (chosen u r) → Serves ts u r)
      → Errors.◌>>=◌ x (λ released.
        if lacks_datasets db w released
        then pick db settings now later w available ts
        else weigh settings now w available t (pick db settings now later w available ts))
        ≡ ok (chosen u r)
      → Serves (t ∷ ts) u r
  checked-Serves t u r ts (err e) q s rest h = absurd (cc)
  checked-Serves t u r ts (ok ids) q s rest h = elim (Bool-cases (lacks_datasets db w ids)) [
    | inl lacks ↦ inr (no_datasets ids q lacks, rest (rw lacks at h))
    | inr has ↦ weigh-Serves t u r ts s rest (rw has at h)
  ]

  -- Rows are served in their order.
  pub pick-Serves :
      (ts : List Task) (u : Task) (r : ResourceRequest)
      → pick db settings now later w available ts ≡ ok (chosen u r)
      → Serves ts u r
  unfolding pick
  pick-Serves [] u r h = absurd (cc)
  pick-Serves (t ∷ ts) u r h =
      let rest = pick-Serves ts u r in
      elim (Bool-cases (worker_supports_runtime w t.payload)) [
        | inr other ↦ inr (other_runtime other, rest (rw other at h))
        | inl s ↦ elim (Bool-cases (yields_to_cpu db settings later w t)) [
          | inl yields ↦ inr (left_to_cpu yields, rest (rw (s, yields) at h))
          | inr keeps ↦
              checked-Serves t u r ts (released_dataset_ids db t.payload.datasets) refl s rest
                (rw (s, keeps) at h)
        ]
      ]

  -- The task that is served has what all rows have.
  pub Serves-All {κ} :
      (P : Task → Type κ) (ts : List Task) (u : Task) (r : ResourceRequest)
      → All P ts
      → Serves ts u r
      → P u × Picked db w available u r
  Serves-All P [] u r h s = absurd s
  Serves-All P (t ∷ ts) u r h (inl (e, p)) = rw e (h.0, p)
  Serves-All P (t ∷ ts) u r h (inr (k, s)) = Serves-All P ts u r h.1 s

-- A row is found again after the table has evolved.
pub find-Evolves :
    (id : String) (ts us : List Task) (t : Task)
    → Evolves ts us
    → find (has_id id) ts ≡ some t
    → (u : Task) × (find (has_id id) us ≡ some u) × Moves t u
find-Evolves id [] us t e h = absurd (cc)
find-Evolves id (x ∷ ts) [] t e h = absurd e
find-Evolves id (x ∷ ts) (y ∷ us) t e h = elim (Bool-cases (has_id id x)) [
  | inl hit ↦
      let same : x ≡ t = ground arith in
      (y, rw (e.0.same_id, hit) refl, subst (λ k. Moves k y) same e.0)
  | inr miss ↦
      let (u, found, moves) = find-Evolves id ts us t e.1 (rw miss at h) in
      (u, rw (e.0.same_id, miss) found, moves)
]

pub found_task :
    (db : Db) (id : String) (t : Task) → find (has_id id) db.tasks ≡ some t → get_task db id ≡ ok t
unfolding get_task
found_task db id t h = rw h refl

pub task_found :
    (db : Db) (id : String) (t : Task) → get_task db id ≡ ok t → find (has_id id) db.tasks ≡ some t
unfolding get_task
task_found db id t h = ground arith
