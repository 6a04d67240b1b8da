-- ===== src/DatasetStore/Queries.antt =====
-- `get_dataset_version`, `released_dataset_ids` and `worker_has_verified_caches`.
use cloudlink.Prelude.{
  Bool, true, false, ◌&&◌, not, String, List, [], ◌∷◌, map, Option, if◌then◌else◌, ◌==◌, string_eq,
  option_eq, is_some, find, select, any, all, contains, strip, text_of, non_empty, or_else,
}
use cloudlink.Errors.{Result, ok, ◌>>=◌, or_raise, dataset_not_found}
use cloudlink.Database.Tasks.{DatasetReference}
use cloudlink.Database.Datasets.{
  DatasetVersion, Cache, CacheStatus, cached, extracted, CopyStatus, available, releasing, released,
}
use cloudlink.Database.Action.{Db}

-- The rows of `dataset_versions` that are not deleted, joined with their dataset.
abbrev pub is_live : Db → DatasetVersion → Bool
is_live db v = not (is_some v.deleted_at) && any (λ d. d.id == v.dataset_id) db.datasets

unfoldable pub get_dataset_version : Db → String → Result DatasetVersion
get_dataset_version db id =
    or_raise (find (λ v. v.id == id && is_live db v) db.versions) (dataset_not_found id)

abbrev pub is_released : CopyStatus → Bool
is_released available = false
is_released releasing = false
is_released released = true

-- The identifier of a reference that counts: one that is required and not blank.
abbrev pub required_id : DatasetReference → String
required_id r = if or_else r.required true then strip (text_of r.dataset_version_id) else ""

unfoldable pub released_dataset_ids : Db → List DatasetReference → Result (List String)
released_dataset_ids db [] = ok []
released_dataset_ids db (r ∷ rs) =
    let rest = released_dataset_ids db rs in
    let here : Result (List String) = get_dataset_version db (required_id r) >>= λ version.
    rest >>= λ ids.
    ok (if is_released version.server_copy_status then required_id r ∷ ids else ids) in
    if non_empty (required_id r) then here else rest

abbrev is_usable : CacheStatus → Bool
is_usable cached = true
is_usable extracted = true
is_usable _ = false

abbrev has_checksum : Option String → Option String → Bool
has_checksum expected actual = non_empty (text_of expected) && actual == expected

-- A row of the join of `worker_dataset_caches` with `dataset_versions`.
abbrev is_verified : Db → Cache → Bool
is_verified db c =
    any
      (λ v.
        v.id == c.dataset_version_id
        && not (is_some v.deleted_at)
        && is_usable c.status
        && has_checksum v.checksum_sha256 c.checksum_sha256)
      db.versions

abbrev verified_ids : Db → String → List String → List String
verified_ids db worker_id required =
    map (λ c. c.dataset_version_id)
      (select
        (λ c.
          c.worker_id == worker_id && contains c.dataset_version_id required && is_verified db c)
        db.caches)

-- `verified == set(required)`
unfoldable pub worker_has_verified_caches : Db → String → List String → Bool
worker_has_verified_caches db worker_id required =
    all (λ id. contains id (verified_ids db worker_id required)) required
    && all (λ id. contains id required) (verified_ids db worker_id required)
