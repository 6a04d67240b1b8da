-- ===== src/StorageCleanup/Purge.antt =====
-- `purge_expired_artifacts` and `release_dataset_server_copy`.
use cloudlink.Prelude.{
  ℕ, ◌+◌, Bool, ◌&&◌, ◌||◌, not, String, List, [], ◌∷◌, Option, some, if◌then◌else◌, ◌==◌,
  string_eq, length, sum_of, contains, update_where,
}
use cloudlink.Prelude.Paths.{◌+++◌}
use cloudlink.Errors.{ok, raise_if, dataset_conflict}
use cloudlink.Database.Tasks.{Time, Artifact, purging, purged}
use cloudlink.Database.Datasets.{DatasetVersion, releasing, released}
use cloudlink.Database.Storage.{CleanupRun, CleanupItem, ItemStatus, preview}
use cloudlink.Database.Action.{Db, Settings, Action, ◌>>=◌, ◌>>◌, query, execute, pure}
use cloudlink.DatasetStore.Queries.{get_dataset_version, is_released}
use cloudlink.ArtifactStore.{set_artifact, part_path}
use cloudlink.ArtifactStore.Disk.{exists, content_at, unlink}
use cloudlink.StorageCleanup.{
  within, is_symlink, is_file, CleanupRequest, new_run, Tally, finish_run, put_item, set_item,
  artifact_candidates,
}

abbrev pub started_tally : List Artifact → Tally
started_tally rows = record {
  candidates = length rows;
  processed = 0;
  skipped = 0;
  estimated_bytes = sum_of (λ a. a.size_bytes) rows;
  released_bytes = 0;
}

-- `released += path.stat().st_size; path.unlink()` of a file that is there.
abbrev pub size_at : String → Db → ℕ
size_at path db = if exists db path && is_file db path then length (content_at db path) else 0

abbrev pub remove_file : String → Db → Db
remove_file path db = if exists db path && is_file db path then unlink path db else db

abbrev pub set_version : (DatasetVersion → Bool) → (DatasetVersion → DatasetVersion) → Db → Db
set_version p f db = record db { versions = update_where p f db.versions }

abbrev pub one_candidate : ℕ → ℕ → ℕ → ℕ → Tally
one_candidate processed skipped estimated released_bytes = record {
  candidates = 1;
  processed = processed;
  skipped = skipped;
  estimated_bytes = estimated;
  released_bytes = released_bytes;
}

abbrev pub purging_row : Time → Artifact → Artifact
purging_row now a = record a { status = purging; updated_at = now }

abbrev pub purged_row : Time → String → ℕ → Artifact → Artifact
purged_row now reason size a = record a {
  status = purged;
  purged_at = some now;
  purge_reason = some reason;
  purged_size_bytes = size;
  updated_at = now;
}

abbrev pub released_version : Time → String → DatasetVersion → DatasetVersion
released_version now reason v = record v {
  server_copy_status = released;
  server_copy_released_at = some now;
  server_copy_release_reason = some reason;
}

module _ (resolve : String → String) (data_root : String) (now : Time) (run_id : String) where
  abbrev pub artifact_item : CleanupRequest → Artifact → CleanupItem
  artifact_item request a = record {
    run_id = run_id;
    object_type = "task_artifact";
    object_id = a.id;
    action = "purge";
    status = if request.dry_run then preview else ItemStatus.purging;
    size_bytes = a.size_bytes;
    reason = request.reason;
    created_at = now;
  }

  abbrev pub artifacts_root : String
  artifacts_root = data_root +++ "/artifacts/tasks"

  abbrev pub is_unsafe : Db → Artifact → Bool
  is_unsafe db a =
      not (within resolve a.storage_path artifacts_root)
      || is_symlink db a.storage_path
      || is_symlink db (part_path a)

  abbrev pub purge_files : CleanupRequest → Tally → Artifact → Action Tally
  purge_files request tally a = do
    execute (set_artifact a.id (purging_row now))
    target_bytes ← query (λ db. ok (size_at a.storage_path db))
    execute (remove_file a.storage_path)
    part_bytes ← query (λ db. ok (size_at (part_path a) db))
    execute (remove_file (part_path a))
    execute (set_artifact a.id (purged_row now request.reason a.size_bytes))
    execute (set_item run_id a.id (λ i. record i { status = ItemStatus.purged }))
    pure (record tally {
      processed = tally.processed + 1;
      released_bytes = tally.released_bytes + target_bytes + part_bytes;
    })

  abbrev pub skip_row : Tally → Artifact → Action Tally
  skip_row tally a = do
    execute (
        set_item run_id a.id
          (λ i. record i { status = ItemStatus.skipped; reason = "Unsafe artifact storage path" }))
    pure (record tally { skipped = tally.skipped + 1 })

  -- One round of the loop.
  abbrev pub purge_row : CleanupRequest → Tally → Artifact → Action Tally
  purge_row request tally a = do
    execute (put_item (artifact_item request a))
    unsafe ← query (λ db. ok (is_unsafe db a))
    if request.dry_run
        then pure tally
        else if unsafe
        then skip_row tally a
        else purge_files request tally a

  unfoldable pub purge_rows : CleanupRequest → Tally → List Artifact → Action Tally
  purge_rows request tally [] = pure tally
  purge_rows request tally (a ∷ rows) = purge_row request tally a >>= λ t. purge_rows request t rows

  unfoldable pub purge_expired_artifacts :
      Settings → CleanupRequest → Option String → Action CleanupRun
  purge_expired_artifacts settings request task_id = do
    rows ← query (λ db. ok (artifact_candidates settings now task_id db))
    execute (new_run run_id now "artifact_retention_purge" request task_id)
    tally ← purge_rows request (started_tally rows) rows
    finish_run run_id now tally

  -- The release of a server copy of a dataset version.
  abbrev pub version_item : CleanupRequest → DatasetVersion → CleanupItem
  version_item request v = record {
    run_id = run_id;
    object_type = "dataset_version";
    object_id = v.id;
    action = "release_server_copy";
    status = if request.dry_run then preview else ItemStatus.released;
    size_bytes = v.size_bytes;
    reason = request.reason;
    created_at = now;
  }

  abbrev pub release_copy : CleanupRequest → DatasetVersion → Action CleanupRun
  release_copy request v = do
    execute (
        set_version (λ w. w.id == v.id && not (is_released w.server_copy_status))
          (λ w. record w { server_copy_status = releasing }))
    query (λ db.
        raise_if (not (not (exists db v.server_path) || is_file db v.server_path))
          (dataset_conflict "Dataset server copy is not a regular file"))
    execute (unlink v.server_path)
    execute (set_version (λ w. w.id == v.id) (released_version now request.reason))
    finish_run run_id now (one_candidate 1 0 v.size_bytes v.size_bytes)

  abbrev pub release_owned : CleanupRequest → DatasetVersion → Action CleanupRun
  release_owned request v = do
    query (λ db.
        raise_if (not (contains v.source_kind ("owned_file" ∷ "owned_archive" ∷ [])))
          (dataset_conflict "Only owned dataset server copies can be released"))
    query (λ db.
        raise_if
          (not (
            within resolve v.server_path (data_root +++ "/objects")
            && not (is_symlink db v.server_path)))
          (dataset_conflict "Dataset server copy path is not safe to release"))
    execute (put_item (version_item request v))
    if request.dry_run
        then finish_run run_id now (one_candidate 0 0 v.size_bytes 0)
        else release_copy request v

  unfoldable pub release_dataset_server_copy : CleanupRequest → String → Action CleanupRun
  release_dataset_server_copy request dataset_version_id = do
    version ← query (λ db. get_dataset_version db dataset_version_id)
    execute (new_run run_id now "dataset_server_copy_release" request (some dataset_version_id))
    if is_released version.server_copy_status
        then finish_run run_id now (one_candidate 0 1 0 0)
        else release_owned request version
