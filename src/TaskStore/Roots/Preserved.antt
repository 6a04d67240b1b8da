-- ===== src/TaskStore/Roots/Preserved.antt =====
-- A worker keeps the roots in which it has datasets.
use cloudlink.Prelude.{
  Bool, true, false, ◌&&◌, ◌||◌, not, String, List, [], ◌∷◌, ◌++◌, map, ◌≡◌, ◌∙◌, refl, arith,
  if◌then◌else◌, ◌==◌, string_eq, any, contains, All, Bool-cases, inl, inr, strip, non_empty,
  strip_twice, eq_of_beq, beq_self,
}
use text.Mathlib.TextEquality.{eq_iff}
use cloudlink.Errors.{ok, Result-cases}
use cloudlink.Database.Workers.{Worker, DatasetRoot}
use cloudlink.Database.Action.{Db}
use cloudlink.TaskStore.Roots.{
  Root, RootMode, read_roots, is_active_root, is_disabled_root, activate_first, is_active_entry,
  with_active, normalize_dataset_roots, stored_root, effective_dataset_roots, runtime_dataset_roots,
  configured_or_runtime, reported_roots, worker_has_dataset_cache_under_root, roots_in_use,
  preserve_existing_dataset_roots,
}
use cloudlink.TaskStore.Roots.Laws.{read_roots-cons, activate_first-All}

abbrev has_root : String → List Root → Bool
has_root p rs = any (λ r. r.path == p) rs

abbrev has_entry : String → List DatasetRoot → Bool
has_entry p items = any (λ i. strip i.path == p) items

read_roots-has_root :
    (p : String) (seen : List String) (active_seen : Bool) (items : List DatasetRoot)
    (rs : List Root)
    → non_empty p ≡ true
    → has_entry p items ≡ true
    → read_roots seen active_seen items ≡ ok rs
    → (contains p seen || has_root p rs) ≡ true
read_roots-has_root p seen active_seen [] rs named h read = absurd (cc)
read_roots-has_root p seen active_seen (item ∷ items) rs named h read =
    elim (read_roots-cons seen active_seen item items rs read) [
      | inl (skip, k) ↦ elim (Bool-cases (strip item.path == p)) [
        | inl own ↦
            let e : strip item.path ≡ p = eq_of_beq (strip item.path) p own in
            seen_before (rw e at skip)
        | inr foreign ↦ read_roots-has_root p seen active_seen items rs named (rw foreign at h) k
      ]
      | inr (mode, rest, take, k, e) ↦ rw (← e) (elim (Bool-cases (strip item.path == p)) [
        | inl own ↦ first _ own
        | inr foreign ↦ later rest foreign (
            read_roots-has_root p (strip item.path ∷ seen) (active_seen || is_active_root mode)
              items rest named (rw foreign at h) k)
      ])
    ]
  where
    seen_before :
        (not (non_empty p) || contains p seen) ≡ true → (contains p seen || has_root p rs) ≡ true
    seen_before k = ground arith

    first :
        (tail : Bool)
        → (strip item.path == p) ≡ true
        → (contains p seen || ((strip item.path == p) || tail)) ≡ true
    first tail own = ground arith

    later :
        (rest : List Root)
        → (strip item.path == p) ≡ false
        → (contains p (strip item.path ∷ seen) || has_root p rest) ≡ true
        → (contains p seen || ((strip item.path == p) || has_root p rest)) ≡ true
    later rest foreign k = ground (arith, eq_iff (strip item.path) p, eq_iff p (strip item.path))

activate_first-has_root :
    (p : String) (rs : List Root) → has_root p (activate_first rs) ≡ has_root p rs
activate_first-has_root p [] = refl
activate_first-has_root p (r ∷ rs) = ground (arith, activate_first-has_root p rs)

with_active-has_root : (p : String) (rs : List Root) → has_root p (with_active rs) ≡ has_root p rs
with_active-has_root p rs = by_case (any is_active_entry rs)
  where
    by_case : (b : Bool) → has_root p (if b then rs else activate_first rs) ≡ has_root p rs
    by_case true = refl
    by_case false = activate_first-has_root p rs

-- Normalization loses no path.
normalize-has_root :
    (p : String) (items : List DatasetRoot) (rs : List Root)
    → non_empty p ≡ true
    → has_entry p items ≡ true
    → normalize_dataset_roots items ≡ ok rs
    → has_root p rs ≡ true
unfolding normalize_dataset_roots
normalize-has_root p items rs named h norm = elim (Result-cases (read_roots [] false items)) [
  | inl (e, bad) ↦ let k = rw bad at norm in absurd (cc)
  | inr (found, e) ↦
      let k = rw e at norm in
      let same : with_active found ≡ rs = ground arith in
      rw (← same)
        (with_active-has_root p found ∙ read_roots-has_root p [] false items found named h e)
]

-- What normalized paths are: stripped, and not blank.
abbrev Trimmed : Root → Type 0
Trimmed r = (strip r.path ≡ r.path) × (non_empty r.path ≡ true)

read_roots-Trimmed :
    (seen : List String) (active_seen : Bool) (items : List DatasetRoot) (rs : List Root)
    → read_roots seen active_seen items ≡ ok rs
    → All Trimmed rs
unfolding read_roots
read_roots-Trimmed seen active_seen [] rs h = let e : [] ≡ rs = ground arith in rw (← e) tt
read_roots-Trimmed seen active_seen (item ∷ items) rs h =
    elim (read_roots-cons seen active_seen item items rs h) [
      | inl (skip, k) ↦ read_roots-Trimmed seen active_seen items rs k
      | inr (mode, rest, take, k, e) ↦ rw (← e) (
        (strip_twice item.path, ground arith),
        read_roots-Trimmed (strip item.path ∷ seen) (active_seen || is_active_root mode) items rest
            k,
      )
    ]

normalize-Trimmed :
    (items : List DatasetRoot) (rs : List Root)
    → normalize_dataset_roots items ≡ ok rs
    → All Trimmed rs
unfolding normalize_dataset_roots
normalize-Trimmed items rs norm = elim (Result-cases (read_roots [] false items)) [
  | inl (e, bad) ↦ let k = rw bad at norm in absurd (cc)
  | inr (found, e) ↦
      let k = rw e at norm in
      let same : with_active found ≡ rs = ground arith in
      let trimmed = read_roots-Trimmed [] false items found e in
      rw (← same) (by_case (any is_active_entry found) found trimmed)
]
  where
    by_case :
        (b : Bool) (found : List Root)
        → All Trimmed found
        → All Trimmed (if b then found else activate_first found)
    by_case true found h = h
    by_case false found h = activate_first-All (λ p. (strip p ≡ p) × (non_empty p ≡ true)) found h

effective-Trimmed :
    (w : Worker) (rs : List Root) → effective_dataset_roots w ≡ ok rs → All Trimmed rs
unfolding effective_dataset_roots runtime_dataset_roots
effective-Trimmed w rs h = by_roots w.configured_dataset_roots h
  where
    by_roots :
        (configured : List DatasetRoot)
        → configured_or_runtime configured w ≡ ok rs
        → All Trimmed rs
    by_roots [] k = normalize-Trimmed (reported_roots w.runtime_profile) rs k
    by_roots (r ∷ roots) k = normalize-Trimmed (r ∷ roots) rs k

-- A root of before that is in use is either submitted again or added.
roots_in_use-has_entry :
    (db : Db) (worker_id p : String) (seen : List String) (before : List Root)
    → strip p ≡ p
    → any (λ r. r.path == p && not (is_disabled_root r.mode)) before ≡ true
    → worker_has_dataset_cache_under_root db worker_id p ≡ true
    → (contains p seen || has_entry p (roots_in_use db worker_id seen before)) ≡ true
unfolding roots_in_use
roots_in_use-has_entry db worker_id p seen [] trim h used = absurd (cc)
roots_in_use-has_entry db worker_id p seen (r ∷ before) trim h used =
    elim (Bool-cases (
      contains r.path seen
      || is_disabled_root r.mode
      || not (worker_has_dataset_cache_under_root db worker_id r.path))) [
        | inl skip ↦
            rw (roots_in_use, skip)
              (elim (Bool-cases (r.path == p && not (is_disabled_root r.mode))) [
                | inl own ↦
                    let same : r.path ≡ p = eq_of_beq r.path p (ground arith) in
                    skipped r.mode own (rw same at skip)
                | inr foreign ↦
                    roots_in_use-has_entry db worker_id p seen before trim (rw foreign at h) used
              ])
        | inr take ↦
            rw (roots_in_use, take)
              (elim (Bool-cases (r.path == p && not (is_disabled_root r.mode))) [
                | inl own ↦
                    let same : r.path ≡ p = eq_of_beq r.path p (ground arith) in
                    let here : (strip r.path == p) ≡ true = rw (same, trim) (beq_self p) in
                    ground arith
                | inr foreign ↦ further _ take foreign (
                    roots_in_use-has_entry db worker_id p (r.path ∷ seen) before trim
                      (rw foreign at h) used)
              ])
      ]
  where
    skipped :
        (m : RootMode)
        → ((r.path == p) && not (is_disabled_root m)) ≡ true
        → (contains p seen
            || is_disabled_root m
            || not (worker_has_dataset_cache_under_root db worker_id p))
          ≡ true
        → (contains p seen || has_entry p (roots_in_use db worker_id seen before)) ≡ true
    skipped m own k = ground (arith, used)

    further :
        (tail : List DatasetRoot)
        → (contains r.path seen
            || is_disabled_root r.mode
            || not (worker_has_dataset_cache_under_root db worker_id r.path))
          ≡ false
        → ((r.path == p) && not (is_disabled_root r.mode)) ≡ false
        → (contains p (r.path ∷ seen) || has_entry p tail) ≡ true
        → (contains p seen || ((strip r.path == p) || has_entry p tail)) ≡ true
    further tail take foreign k = ground (arith, eq_iff r.path p, eq_iff p r.path)

stored_has_entry :
    (p : String) (rs : List Root) (more : List DatasetRoot)
    → strip p ≡ p
    → (contains p (map (λ r. r.path) rs) || has_entry p more) ≡ true
    → has_entry p (map stored_root rs ++ more) ≡ true
stored_has_entry p [] more trim h = h
stored_has_entry p (r ∷ rs) more trim h = elim (Bool-cases (p == r.path)) [
  | inl own ↦
      let same : p ≡ r.path = eq_of_beq p r.path own in
      let here : (strip r.path == p) ≡ true = rw (← same, trim) (beq_self p) in ground arith
  | inr foreign ↦ let rest = stored_has_entry p rs more trim (rw foreign at h) in ground arith
]

Trimmed-of :
    (p : String) (rs : List Root)
    → All Trimmed rs
    → any (λ r. r.path == p && not (is_disabled_root r.mode)) rs ≡ true
    → (strip p ≡ p) × (non_empty p ≡ true)
Trimmed-of p [] h k = absurd (cc)
Trimmed-of p (r ∷ rs) h k = elim (Bool-cases (r.path == p && not (is_disabled_root r.mode))) [
  | inl own ↦ let same : r.path ≡ p = eq_of_beq r.path p (ground arith) in rw same at h.0
  | inr foreign ↦ Trimmed-of p rs h.1 (rw foreign at k)
]

-- A root of a worker that is not disabled and under which it has a dataset is among its roots after new ones are set,
-- whether or not they name it.
pub preserve_existing_dataset_roots-keeps :
    (db : Db) (w : Worker) (submitted before rs : List Root) (p : String)
    → effective_dataset_roots w ≡ ok before
    → any (λ r. r.path == p && not (is_disabled_root r.mode)) before ≡ true
    → worker_has_dataset_cache_under_root db w.worker_id p ≡ true
    → preserve_existing_dataset_roots db w submitted ≡ ok rs
    → any (λ r. r.path == p) rs ≡ true
unfolding preserve_existing_dataset_roots
preserve_existing_dataset_roots-keeps db w submitted before rs p effective there used kept =
    let trim = Trimmed-of p before (effective-Trimmed w before effective) there in
    let paths : List String = map (λ r. r.path) submitted in
    let norm = rw effective at kept in
    normalize-has_root p _ rs trim.1
      (stored_has_entry p submitted (roots_in_use db w.worker_id paths before) trim.0
        (roots_in_use-has_entry db w.worker_id p paths before trim.0 there used))
      norm
