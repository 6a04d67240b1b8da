-- ===== src/TaskStore/Roots.antt =====
-- The directories in which a worker keeps datasets: `normalize_dataset_roots` and what is built on it.
-- `LIKE` is that of SQLite, which ignores the case of ASCII letters; the root that stands in the
-- pattern is not escaped there.
pub mod Laws
pub mod Preserved
use cloudlink.Prelude.{
  ℕ, Bool, true, false, ◌&&◌, ◌||◌, not, String, List, [], ◌∷◌, ◌++◌, map, Option, none, some,
  if◌then◌else◌, ◌==◌, nat_eq, string_eq, option_eq, any, contains, codes, lower, lower_codes,
  same_codes, strip, non_empty, text_of, text_or, or_none, or_else, select,
}
use cloudlink.Prelude.Paths.{◌+++◌}
use cloudlink.Errors.{Result, ok, err, ◌>>=◌, task_conflict}
use cloudlink.Database.Datasets.{Cache, CacheStatus, downloading, cached, extracted}
use cloudlink.Database.Workers.{Worker, DatasetRoot, RuntimeProfile}
use cloudlink.Database.Action.{Db}

pub data RootMode : Type 0 where
  active_root readonly_root disabled_root : RootMode

pub record Root : Type 0 where
  pub path : String
  pub mode : RootMode
  pub label : Option String

abbrev pub is_active_root : RootMode → Bool
is_active_root active_root = true
is_active_root _ = false

abbrev pub is_disabled_root : RootMode → Bool
is_disabled_root disabled_root = true
is_disabled_root _ = false

abbrev mode_of : List ℕ → Result RootMode
mode_of m =
    if same_codes m (codes "active")
    then ok active_root
    else if same_codes m (codes "readonly")
    then ok readonly_root
    else if same_codes m (codes "disabled")
    then ok disabled_root
    else err (task_conflict "dataset root mode must be active, readonly, or disabled")

-- The mode of an entry; one that has none is active.
unfoldable pub read_mode : String → Result RootMode
read_mode mode = mode_of (lower (strip (text_or mode "active")))

-- Only the first active root stays active.
abbrev pub demote : Bool → RootMode → RootMode
demote true active_root = readonly_root
demote true readonly_root = readonly_root
demote true disabled_root = disabled_root
demote false m = m

abbrev pub root_of : Bool → String → Option String → RootMode → Root
root_of active_seen path label mode = record {
  path = path;
  mode = demote active_seen mode;
  label = or_none (strip (text_of label));
}

-- The loop over the entries, with the paths and whether an active root were seen.
unfoldable pub read_roots : List String → Bool → List DatasetRoot → Result (List Root)
read_roots seen active_seen [] = ok []
read_roots seen active_seen (item ∷ roots) =
    elim (not (non_empty (strip item.path)) || contains (strip item.path) seen) [
      | true ↦ read_roots seen active_seen roots
      | false ↦ elim (read_mode item.mode) [
        | err e ↦ err e
        | ok mode ↦
            read_roots (strip item.path ∷ seen) (active_seen || is_active_root mode) roots
            >>= λ rest. ok (root_of active_seen (strip item.path) item.label mode ∷ rest)
      ]
    ]

abbrev pub activated : Root → Root
activated r = record r { mode = active_root }

abbrev pub activate_first : List Root → List Root
activate_first [] = []
activate_first (r ∷ roots) =
    let rest = activate_first roots in
    if is_disabled_root r.mode then r ∷ rest else activated r ∷ roots

abbrev pub is_active_entry : Root → Bool
is_active_entry r = is_active_root r.mode

abbrev pub with_active : List Root → List Root
with_active roots = if any is_active_entry roots then roots else activate_first roots

unfoldable pub normalize_dataset_roots : List DatasetRoot → Result (List Root)
normalize_dataset_roots roots = read_roots [] false roots >>= λ found. ok (with_active found)

abbrev mode_text : RootMode → String
mode_text active_root = "active"
mode_text readonly_root = "readonly"
mode_text disabled_root = "disabled"

-- A root as it is stored.
abbrev pub stored_root : Root → DatasetRoot
stored_root r = record { path = r.path; mode = mode_text r.mode; label = r.label }

abbrev active_entry : String → DatasetRoot
active_entry path = record { path = path; mode = "active"; label = none }

abbrev reported_roots : Option RuntimeProfile → List DatasetRoot
reported_roots none = []
reported_roots (some p) =
    let path = strip (text_of p.dataset_root) in
    if non_empty path && not (any (λ r. strip r.path == path) p.dataset_roots)
    then p.dataset_roots ++ active_entry path ∷ []
    else p.dataset_roots

unfoldable pub runtime_dataset_roots : Worker → Result (List Root)
runtime_dataset_roots w = normalize_dataset_roots (reported_roots w.runtime_profile)

abbrev configured_or_runtime : List DatasetRoot → Worker → Result (List Root)
configured_or_runtime [] w = runtime_dataset_roots w
configured_or_runtime (r ∷ roots) w = normalize_dataset_roots (r ∷ roots)

unfoldable pub effective_dataset_roots : Worker → Result (List Root)
effective_dataset_roots w = configured_or_runtime w.configured_dataset_roots w

-- `text.rstrip("/")`
abbrev drop_slash : Bool → String → String → String
drop_slash true String.[] whole = String.[]
drop_slash true (String.◌∷◌ c s) whole = whole
drop_slash false rest whole = whole

abbrev pub rstrip_slash : String → String
rstrip_slash String.[] = String.[]
rstrip_slash (String.◌∷◌ c s) =
    drop_slash (String.◌∷◌ c String.[] == "/") (rstrip_slash s) (String.◌∷◌ c (rstrip_slash s))

abbrev suffixes : List ℕ → List (List ℕ)
suffixes [] = [] ∷ []
suffixes (c ∷ s) = (c ∷ s) ∷ suffixes s

abbrev like_one : (List ℕ → Bool) → ℕ → List ℕ → Bool
like_one rest p [] = false
like_one rest p (c ∷ s) =
    (p == b'_' || same_codes (lower_codes (p ∷ [])) (lower_codes (c ∷ []))) && rest s

-- `text LIKE pattern`
unfoldable pub like : List ℕ → List ℕ → Bool
like [] [] = true
like [] (c ∷ s) = false
like (p ∷ pattern) s = elim (p == b'%') [
  | true ↦ any (λ t. like pattern t) (suffixes s)
  | false ↦ like_one (λ t. like pattern t) p s
]

abbrev holds_files : CacheStatus → Bool
holds_files downloading = true
holds_files cached = true
holds_files extracted = true
holds_files _ = false

abbrev lies_under : String → Option String → Bool
lies_under root none = false
lies_under root (some path) = like (codes (root +++ "/%")) (codes path)

abbrev under_root : String → Cache → Bool
under_root root c =
    c.data_root_path == some root
    || c.local_archive_path == some root
    || c.local_extracted_path == some root
    || lies_under root c.local_archive_path
    || lies_under root c.local_extracted_path

unfoldable pub worker_has_dataset_cache_under_root : Db → String → String → Bool
worker_has_dataset_cache_under_root db worker_id root_path =
    non_empty (rstrip_slash root_path)
    && any
        (λ c.
          c.worker_id == worker_id && holds_files c.status && under_root (rstrip_slash root_path) c)
        db.caches

abbrev kept_root : Root → DatasetRoot
kept_root r = record { path = r.path; mode = "readonly"; label = some (or_else r.label "历史数据盘") }

-- The roots of before that are added, in the loop of `preserve_existing_dataset_roots`.
unfoldable pub roots_in_use : Db → String → List String → List Root → List DatasetRoot
roots_in_use db worker_id seen [] = []
roots_in_use db worker_id seen (r ∷ roots) =
    elim (contains r.path seen
      || is_disabled_root r.mode
      || not (worker_has_dataset_cache_under_root db worker_id r.path)) [
        | true ↦ roots_in_use db worker_id seen roots
        | false ↦ kept_root r ∷ roots_in_use db worker_id (r.path ∷ seen) roots
      ]

unfoldable pub preserve_existing_dataset_roots : Db → Worker → List Root → Result (List Root)
preserve_existing_dataset_roots db w submitted = effective_dataset_roots w >>= λ before.
    normalize_dataset_roots (
      map stored_root submitted ++ roots_in_use db w.worker_id (map (λ r. r.path) submitted) before)
