-- ===== src/TaskStore/Roots/Laws.antt =====
-- Normalized roots: their paths differ, and one of them is active.
use cloudlink.Prelude.{
  ℕ, ◌≤◌, ◌<◌, Bool, true, false, ◌||◌, not, String, List, [], ◌∷◌, Option, ◌≡◌, refl, arith,
  if◌then◌else◌, ◌==◌, string_eq, any, all, contains, count_where, All, All-map, Bool-cases, inl,
  inr, ◌⊎◌, strip, non_empty,
}
use cloudlink.Errors.{Result, ok, Result-cases, ok_injective}
use cloudlink.Database.Workers.{DatasetRoot}
use cloudlink.TaskStore.Roots.{
  RootMode, active_root, readonly_root, disabled_root, Root, is_active_root, is_disabled_root,
  read_mode, root_of, read_roots, activate_first, is_active_entry, with_active,
  normalize_dataset_roots,
}

abbrev pub skips : List String → DatasetRoot → Bool
skips seen item = not (non_empty (strip item.path)) || contains (strip item.path) seen

-- What a reading that succeeds did with its first entry.
pub read_roots-cons :
    (seen : List String) (active_seen : Bool) (item : DatasetRoot) (items : List DatasetRoot)
    (rs : List Root)
    → read_roots seen active_seen (item ∷ items) ≡ ok rs
    → ((skips seen item ≡ true) × (read_roots seen active_seen items ≡ ok rs))
      ⊎ ((mode : RootMode) × (rest : List Root) × (skips seen item ≡ false)
          × (read_roots (strip item.path ∷ seen) (active_seen || is_active_root mode) items
              ≡ ok rest)
          × (root_of active_seen (strip item.path) item.label mode ∷ rest ≡ rs))
unfolding read_roots
read_roots-cons seen active_seen item items rs h = elim (Bool-cases (skips seen item)) [
  | inl skip ↦ inl (skip, rw (read_roots, skip) at h)
  | inr take ↦ elim (Result-cases (read_mode item.mode)) [
    | inl (e, bad) ↦ let k = rw (read_roots, take, bad) at h in absurd (cc)
    | inr (mode, good) ↦
        elim (Result-cases
          (read_roots (strip item.path ∷ seen) (active_seen || is_active_root mode) items)) [
            | inl (e, bad) ↦ let k = rw (read_roots, take, good, bad) at h in absurd (cc)
            | inr (rest, e) ↦
                let k = rw (read_roots, take, good, e) at h in
                inr (mode, rest, take, e, ok_injective _ _ k)
          ]
  ]
]

-- No two roots have the same path.
abbrev pub Distinct : List Root → Type 0
Distinct [] = Unit {0}
Distinct (r ∷ rs) = All (λ q. (q.path == r.path) ≡ false) rs × Distinct rs

-- A path of a root is neither blank nor one that was seen.
abbrev Fresh : List String → Root → Type 0
Fresh seen r = (contains r.path seen || not (non_empty r.path)) ≡ false

-- The active roots that may still come.
abbrev room : Bool → ℕ
room true = 0
room false = 1

-- What a reading returns.
record Read (seen : List String) (active_seen : Bool) (rs : List Root) : Type 0 where
  fresh : All (Fresh seen) rs
  distinct : Distinct rs
  few : count_where is_active_entry rs ≤ room active_seen

Read-cons :
    (seen : List String) (active_seen : Bool) (path : String) (label : Option String)
    (mode : RootMode) (rest : List Root)
    → (not (non_empty path) || contains path seen) ≡ false
    → Read (path ∷ seen) (active_seen || is_active_root mode) rest
    → Read seen active_seen (root_of active_seen path label mode ∷ rest)
Read-cons seen active_seen path label mode rest take r = record {
  fresh = (ground arith, All-map _ _ rest (λ q k. ground arith) r.fresh);
  distinct = (All-map _ _ rest (λ q k. ground arith) r.fresh, r.distinct);
  few = counted active_seen mode r.few;
}
  where
    counted :
        (active_seen : Bool) (mode : RootMode)
        → count_where is_active_entry rest ≤ room (active_seen || is_active_root mode)
        → count_where is_active_entry (root_of active_seen path label mode ∷ rest)
          ≤ room active_seen
    counted true active_root k = k
    counted true readonly_root k = k
    counted true disabled_root k = k
    counted false active_root k = omega arith
    counted false readonly_root k = k
    counted false disabled_root k = k

read_roots-Read :
    (seen : List String) (active_seen : Bool) (items : List DatasetRoot) (rs : List Root)
    → read_roots seen active_seen items ≡ ok rs
    → Read seen active_seen rs
unfolding read_roots
read_roots-Read seen active_seen [] rs h =
    let none_read : Result.ok [] ≡ ok rs = h in
    let e : [] ≡ rs = ground arith in
    rw (← e) (record { fresh = tt; distinct = tt; few = room_positive active_seen })
  where
    room_positive : (b : Bool) → 0 ≤ room b
    room_positive b = omega arith
read_roots-Read seen active_seen (item ∷ items) rs h =
    elim (read_roots-cons seen active_seen item items rs h) [
      | inl (skip, k) ↦ read_roots-Read seen active_seen items rs k
      | inr (mode, rest, take, k, e) ↦ rw (← e) (
          Read-cons seen active_seen (strip item.path) item.label mode rest take (
            read_roots-Read (strip item.path ∷ seen) (active_seen || is_active_root mode) items rest
              k))
    ]

abbrev pub is_disabled_entry : Root → Bool
is_disabled_entry r = is_disabled_root r.mode

-- Activation changes no path.
pub activate_first-All :
    (P : String → Type 0) (rs : List Root)
    → All (λ r. P r.path) rs
    → All (λ r. P r.path) (activate_first rs)
activate_first-All P [] h = tt
activate_first-All P (r ∷ rs) h = elim (Bool-cases (is_disabled_entry r)) [
  | inl off ↦ rw off (h.0, activate_first-All P rs h.1)
  | inr on ↦ rw on h
]

activate_first-Distinct : (rs : List Root) → Distinct rs → Distinct (activate_first rs)
activate_first-Distinct [] h = tt
activate_first-Distinct (r ∷ rs) h = elim (Bool-cases (is_disabled_entry r)) [
  | inl off ↦
      rw off
        (activate_first-All (λ p. (p == r.path) ≡ false) rs h.0, activate_first-Distinct rs h.1)
  | inr on ↦ rw on h
]

none_active : (rs : List Root) → any is_active_entry rs ≡ false → count_where is_active_entry rs ≡ 0
none_active [] h = refl
none_active (r ∷ rs) h = ground (arith, none_active rs)

some_active :
    (rs : List Root)
    → any is_active_entry rs ≡ true
    → (0 < count_where is_active_entry rs) × (all is_disabled_entry rs ≡ false)
some_active [] h = absurd (cc)
some_active (r ∷ rs) h = ground (arith, some_active rs)

activate_first-count :
    (rs : List Root)
    → any is_active_entry rs ≡ false
    → count_where is_active_entry (activate_first rs) ≡ (if all is_disabled_entry rs then 0 else 1)
      × (all is_disabled_entry (activate_first rs) ≡ all is_disabled_entry rs)
activate_first-count [] h = (refl, refl)
activate_first-count (r ∷ rs) h = ground (arith, none_active rs, activate_first-count rs)

-- Normalized roots: their paths are not blank and differ, and exactly one root is active, or none when all are disabled.
pub record IsNormal (rs : List Root) : Type 0 where
  pub named : All (λ r. non_empty r.path ≡ true) rs
  pub distinct : Distinct rs
  pub active : count_where is_active_entry rs ≡ (if all is_disabled_entry rs then 0 else 1)

with_active-IsNormal : (rs : List Root) → Read [] false rs → IsNormal (with_active rs)
with_active-IsNormal rs read =
    let named : All (λ r. non_empty r.path ≡ true) rs =
      All-map _ _ rs (λ r k. ground arith) read.fresh in
    elim (Bool-cases (any is_active_entry rs)) [
      | inl has ↦
          let some_of = some_active rs has in
          rw has (record {
            named = named;
            distinct = read.distinct;
            active = let few = read.few in rw some_of.1 (omega arith);
          })
      | inr lacks ↦
          let count = activate_first-count rs lacks in
          rw lacks (record {
            named = activate_first-All (λ p. non_empty p ≡ true) rs named;
            distinct = activate_first-Distinct rs read.distinct;
            active = rw count.1 count.0;
          })
    ]

-- When the roots of a worker are accepted, the result has paths that are not blank and differ from each other, and exactly
-- one root of it is active unless all are disabled.
pub normalize_dataset_roots-IsNormal :
    (roots : List DatasetRoot) (rs : List Root)
    → normalize_dataset_roots roots ≡ ok rs
    → IsNormal rs
unfolding normalize_dataset_roots
normalize_dataset_roots-IsNormal roots rs h = elim (Result-cases (read_roots [] false roots)) [
  | inl (e, bad) ↦ let k = rw bad at h in absurd (cc)
  | inr (found, e) ↦
      let k = rw e at h in
      let same : with_active found ≡ rs = ground arith in
      rw (← same) (with_active-IsNormal found (read_roots-Read [] false roots found e))
]
