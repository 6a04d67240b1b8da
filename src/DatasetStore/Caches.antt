-- ===== src/DatasetStore/Caches.antt =====
-- `upsert_worker_cache`, `request_worker_cache_delete`, `pending_delete_requests` and
-- `delete_dataset_version`. Of the files of a version only its copy and its manifest are removed;
-- directories are not modelled.
use cloudlink.Prelude.{
  ℕ, Bool, true, false, ◌&&◌, ◌||◌, not, String, List, [], ◌∷◌, ◌++◌, Option, some, if◌then◌else◌,
  ◌==◌, string_eq, option_eq, find, select, any, count_where, delete_where, update_where, contains,
  coalesce, ltb, order_by, non_empty, text_of,
}
use cloudlink.Errors.{ok, raise_if, or_raise, dataset_conflict, value_error}
use cloudlink.Database.Tasks.{Time}
use cloudlink.Database.Datasets.{
  DatasetVersion, Cache, CacheStatus, downloading, cached, extracted, delete_requested, deleted,
}
use cloudlink.Database.Action.{Db, Action, ◌>>=◌, ◌>>◌, query, execute, pure}
use cloudlink.DatasetStore.Queries.{get_dataset_version}
use cloudlink.ArtifactStore.Disk.{unlink}

abbrev pub is_cache_of : String → String → Cache → Bool
is_cache_of worker_id version_id c = c.worker_id == worker_id && c.dataset_version_id == version_id

abbrev is_deleted_status : CacheStatus → Bool
is_deleted_status deleted = true
is_deleted_status _ = false

-- `ON CONFLICT(worker_id, dataset_version_id) DO UPDATE`
abbrev pub cache_updated : Cache → Cache → Cache
cache_updated new c = record c {
  status = new.status;
  local_archive_path =
      if is_deleted_status new.status
      then new.local_archive_path
      else coalesce new.local_archive_path c.local_archive_path;
  local_extracted_path =
      if is_deleted_status new.status
      then new.local_extracted_path
      else coalesce new.local_extracted_path c.local_extracted_path;
  size_bytes = new.size_bytes;
  extracted_size_bytes = new.extracted_size_bytes;
  checksum_sha256 = coalesce new.checksum_sha256 c.checksum_sha256;
  data_root_path = coalesce new.data_root_path c.data_root_path;
  last_used_at = coalesce new.last_used_at c.last_used_at;
  last_error = new.last_error;
  updated_at = new.updated_at;
}

abbrev pub put_cache : Cache → Db → Db
put_cache new db =
    if any (is_cache_of new.worker_id new.dataset_version_id) db.caches
    then record db {
      caches =
          update_where (is_cache_of new.worker_id new.dataset_version_id) (cache_updated new)
            db.caches;
    }
    else record db { caches = db.caches ++ new ∷ [] }

-- `new` holds the arguments, with the time of the call.
unfoldable pub upsert_worker_cache : Cache → Action Cache
upsert_worker_cache new = do
  query (λ db. get_dataset_version db new.dataset_version_id)
  execute (put_cache new)
  query (λ db.
      or_raise (find (is_cache_of new.worker_id new.dataset_version_id) db.caches)
        (value_error new.worker_id))

abbrev asked_to_delete : Time → Cache → Cache
asked_to_delete now c = record c { status = delete_requested; updated_at = now }

-- The copies that a request names: one worker's, or all.
abbrev requested_copies : String → Option String → Cache → Bool
requested_copies version_id worker_id c =
    c.dataset_version_id == version_id
    && (not (non_empty (text_of worker_id)) || some c.worker_id == worker_id)

unfoldable pub request_worker_cache_delete : Time → String → Option String → Action ℕ
request_worker_cache_delete now version_id worker_id = do
  query (λ db. get_dataset_version db version_id)
  updated ← query (λ db. ok (count_where (requested_copies version_id worker_id) db.caches))
  execute (λ db. record db {
    caches = update_where (requested_copies version_id worker_id) (asked_to_delete now) db.caches;
  })
  pure updated

abbrev is_requested : CacheStatus → Bool
is_requested delete_requested = true
is_requested _ = false

-- The join with the versions and their datasets.
abbrev is_joined : Db → Cache → Bool
is_joined db c =
    any (λ v. v.id == c.dataset_version_id && any (λ d. d.id == v.dataset_id) db.datasets)
      db.versions

unfoldable pub pending_delete_requests : Db → String → List Cache
pending_delete_requests db worker_id =
    order_by (λ c. c.updated_at)
      (select (λ c. c.worker_id == worker_id && is_requested c.status && is_joined db c) db.caches)

abbrev pub is_active_copy : CacheStatus → Bool
is_active_copy downloading = true
is_active_copy cached = true
is_active_copy extracted = true
is_active_copy delete_requested = true
is_active_copy _ = false

abbrev pub active_copies : Db → String → ℕ
active_copies db version_id =
    count_where (λ c. c.dataset_version_id == version_id && is_active_copy c.status) db.caches

abbrev is_managed : String → Bool
is_managed kind = contains kind ("symlink_file" ∷ "owned_file" ∷ "owned_archive" ∷ [])

-- The file of a version, and the manifest beside it, at `manifest_path`.
abbrev pub remove_copy : (String → String) → DatasetVersion → Db → Db
remove_copy manifest_path v db =
    unlink (manifest_path v.server_path)
      (if is_managed v.source_kind then unlink v.server_path db else db)

abbrev pub forget_version : String → Db → Db
forget_version version_id db = record db {
  caches = delete_where (λ c. c.dataset_version_id == version_id) db.caches;
  versions = delete_where (λ v. v.id == version_id) db.versions;
}

-- `manifest_path` is the name `manifest.json` in the directory of a file.
unfoldable pub delete_dataset_version : (String → String) → String → Action (Unit {0})
delete_dataset_version manifest_path version_id = do
  version ← query (λ db. get_dataset_version db version_id)
  query (λ db.
      raise_if (ltb 0 (active_copies db version_id))
        (dataset_conflict "Dataset version has active worker cache"))
  execute (remove_copy manifest_path version)
  execute (forget_version version_id)
