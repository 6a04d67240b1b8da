-- ===== src/StorageCleanup.antt =====
-- app/storage_cleanup.py: the removal of files that are no longer needed, as a dry run or for good,
-- and the leases that keep an artifact while it is downloaded. `resolve` is `Path.resolve`, which
-- follows links; a run reads the clock once. Directories are not modelled.
pub mod Due
pub mod Purge
pub mod Counts
pub mod Retention
pub mod Release
pub mod Gone
use cloudlink.Prelude.{
  ℕ, ◌+◌, Bool, true, false, ◌&&◌, ◌||◌, not, String, List, [], ◌∷◌, ◌++◌, Option, none, some,
  if◌then◌else◌, ◌==◌, string_eq, option_eq, leb, ltb, length, find, select, any, sum_of, order_by,
  delete_where, update_where, non_empty, text_of,
}
use cloudlink.Prelude.Paths.{◌+++◌, path_parts}
use cloudlink.Errors.{Result, ok, err, raise_if, or_raise, dataset_conflict, value_error}
use cloudlink.Database.Tasks.{
  Time, seconds, Task, Artifact, ArtifactStatus, created, uploading, uploaded, purging, purged,
}
use cloudlink.Database.Datasets.{DatasetVersion, releasing, released}
use cloudlink.Database.Storage.{
  CleanupRun, CleanupItem, ItemStatus, running, completed, skipped, preview, DownloadLease, File,
  FileKind, regular, symlink, other,
}
use cloudlink.Database.Action.{Db, Settings, Action, ◌>>=◌, ◌>>◌, query, execute, pure, raise}
use cloudlink.DatasetStore.Queries.{get_dataset_version, is_released}
use cloudlink.TaskStore.Queue.{has_id, is_terminal}
use cloudlink.ArtifactStore.{set_artifact, part_path}
use cloudlink.ArtifactStore.Disk.{file_at, exists, content_at, unlink}

abbrev is_prefix : List String → List String → Bool
is_prefix [] ys = true
is_prefix (x ∷ xs) [] = false
is_prefix (x ∷ xs) (y ∷ ys) = x == y && is_prefix xs ys

unfoldable pub within : (String → String) → String → String → Bool
within resolve path root = is_prefix (path_parts (resolve root)) (path_parts (resolve path))

abbrev kind_is_link : FileKind → Bool
kind_is_link symlink = true
kind_is_link _ = false

-- `path.is_file()` of what is there follows links.
abbrev kind_is_file : FileKind → Bool
kind_is_file other = false
kind_is_file _ = true

abbrev of_file : (FileKind → Bool) → Option File → Bool
of_file p none = false
of_file p (some f) = p f.kind

abbrev pub is_symlink : Db → String → Bool
is_symlink db path = of_file kind_is_link (file_at db path)

abbrev pub is_file : Db → String → Bool
is_file db path = of_file kind_is_file (file_at db path)

-- Who asks for a cleanup, and why.
pub record CleanupRequest : Type 0 where
  pub dry_run : Bool
  pub requested_by : String
  pub reason : String

abbrev pub new_run : String → Time → String → CleanupRequest → Option String → Db → Db
new_run run_id now cleanup_type request filter db = record db {
  cleanup_runs =
      db.cleanup_runs
      ++ record {
        id = run_id;
        cleanup_type = cleanup_type;
        dry_run = request.dry_run;
        requested_by = request.requested_by;
        reason = request.reason;
        filter = filter;
        candidate_count = 0;
        processed_count = 0;
        skipped_count = 0;
        estimated_bytes = 0;
        released_bytes = 0;
        status = running;
        created_at = now;
        completed_at = none;
      }
        ∷ [];
}

-- The counts of a run.
pub record Tally : Type 0 where
  pub candidates : ℕ
  pub processed : ℕ
  pub skipped : ℕ
  pub estimated_bytes : ℕ
  pub released_bytes : ℕ

abbrev pub finished_run : Time → Tally → CleanupRun → CleanupRun
finished_run now t run = record run {
  candidate_count = t.candidates;
  processed_count = t.processed;
  skipped_count = t.skipped;
  estimated_bytes = t.estimated_bytes;
  released_bytes = t.released_bytes;
  status = completed;
  completed_at = some now;
}

abbrev pub has_run_id : String → CleanupRun → Bool
has_run_id id run = run.id == id

unfoldable pub finish_run : String → Time → Tally → Action CleanupRun
finish_run run_id now tally = do
  execute (λ db. record db {
    cleanup_runs = update_where (has_run_id run_id) (finished_run now tally) db.cleanup_runs;
  })
  query (λ db. or_raise (find (has_run_id run_id) db.cleanup_runs) (value_error run_id))

-- `INSERT OR REPLACE INTO storage_cleanup_items`
abbrev same_item : CleanupItem → CleanupItem → Bool
same_item a b =
    a.run_id == b.run_id
    && a.object_type == b.object_type
    && a.object_id == b.object_id
    && a.action == b.action

abbrev pub put_item : CleanupItem → Db → Db
put_item item db = record db {
  cleanup_items = delete_where (same_item item) db.cleanup_items ++ item ∷ [];
}

abbrev pub of_object : String → String → CleanupItem → Bool
of_object run_id object_id i = i.run_id == run_id && i.object_id == object_id

abbrev pub set_item : String → String → (CleanupItem → CleanupItem) → Db → Db
set_item run_id object_id f db = record db {
  cleanup_items = update_where (of_object run_id object_id) f db.cleanup_items;
}

abbrev pub is_purged : ArtifactStatus → Bool
is_purged purged = true
is_purged _ = false

-- A task that has ended, so long ago, where the artifact has no expiry of its own.
abbrev pub expired : Settings → Time → Option Time → Option Time → Bool
expired settings now (some expires_at) finished_at = leb expires_at now
expired settings now none none = false
expired settings now none (some finished_at) =
    leb (finished_at + seconds settings.artifact_retention_seconds) now

abbrev leased : Time → Db → Artifact → Bool
leased now db a = any (λ l. l.artifact_id == a.id && ltb now l.expires_at) db.download_leases

abbrev of_task : Option String → Artifact → Bool
of_task none a = true
of_task (some id) a = not (non_empty id) || a.task_id == id

-- A row of the join with `tasks` that meets the conditions.
unfoldable pub is_candidate : Settings → Time → Option String → Db → Artifact → Bool
is_candidate settings now task_id db a =
    any
      (λ t.
        has_id a.task_id t
        && is_terminal t.status
        && expired settings now a.expires_at t.finished_at)
      db.tasks
    && of_task task_id a
    && not (is_purged a.status)
    && not (leased now db a)

unfoldable pub artifact_candidates : Settings → Time → Option String → Db → List Artifact
artifact_candidates settings now task_id db =
    order_by (λ a. a.created_at) (select (is_candidate settings now task_id db) db.artifacts)

-- `INSERT INTO artifact_download_leases`, after the leases that have ended are removed.
unfoldable pub create_download_lease : Time → String → String → ℕ → Action String
create_download_lease now lease_id artifact_id lasting = do
  execute (λ db. record db {
    download_leases = delete_where (λ l. leb l.expires_at now) db.download_leases;
  })
  execute (λ db. record db {
    download_leases =
        db.download_leases
        ++ record {
          id = lease_id;
          artifact_id = artifact_id;
          expires_at = now + seconds lasting;
          created_at = now;
        }
          ∷ [];
  })
  pure lease_id
