-- ===== src/Tests/Cleanup.antt =====
-- The theorems on storage cleanup and on the deletion of a dataset version at a small store.
use cloudlink.Prelude.{
  ℕ, true, false, ◌&&◌, String, [], ◌∷◌, none, some, ◌≡◌, refl, All, count_where, ◌==◌, string_eq,
}
use cloudlink.Prelude.Paths.{path_parts}
use cloudlink.Errors.{ok, err, dataset_not_found}
use cloudlink.Database.Tasks.{Task, Artifact, success, uploaded}
use cloudlink.Database.Datasets.{Dataset, DatasetVersion, available}
use cloudlink.Database.Storage.{File, CleanupRun, regular, completed}
use cloudlink.Database.Action.{Db, ◌>>=◌, query, execute, pure}
use cloudlink.DatasetStore.Queries.{get_dataset_version}
use cloudlink.DatasetStore.Caches.{active_copies, delete_dataset_version}
use cloudlink.DatasetStore.Deletion.{delete_dataset_version-gone}
use cloudlink.ArtifactStore.{get_artifact}
use cloudlink.ArtifactStore.Disk.{file_at}
use cloudlink.StorageCleanup.{CleanupRequest, within, is_candidate, artifact_candidates, finish_run}
use cloudlink.StorageCleanup.Purge.{
  purge_expired_artifacts, purge_rows, release_dataset_server_copy,
}
use cloudlink.StorageCleanup.Retention.{
  SameStore, touches, purge_expired_artifacts-dry, purge_expired_artifacts-spares,
}
use cloudlink.StorageCleanup.Gone.{Purged, purge_expired_artifacts-Purged}
use cloudlink.StorageCleanup.Release.{
  Released, release_dataset_server_copy-dry, release_dataset_server_copy-Released,
}
use cloudlink.Tests.World.{settings, held, world}
use cloudlink.Tests.Uploads.{model_file, five_bytes}

abbrev over : Task
over = record held {
  id = "over";
  status = success;
  finished_at = some 0;
  locked_by = none;
  lease_id = none;
}

-- The result of a task that ended long ago, and one of a task that runs.
abbrev old_result : Artifact
old_result = record model_file {
  id = "a0";
  task_id = "over";
  status = uploaded;
  storage_path = "/data/artifacts/tasks/over/a0/model.bin";
}

abbrev file : String → File
file path = record { path = path; kind = regular; content = five_bytes }

abbrev images : DatasetVersion
images = record {
  id = "v1";
  dataset_id = "d1";
  version = "1";
  source_kind = "owned_file";
  server_path = "/data/objects/images/1/images.tar";
  original_path = none;
  size_bytes = 5;
  checksum_sha256 = some "9f86";
  content_type = none;
  archive_format = none;
  extract_required = false;
  manifest = "{}";
  created_by = "ann";
  created_at = 0;
  deleted_at = none;
  server_copy_status = available;
  server_copy_released_at = none;
  server_copy_release_reason = none;
}

abbrev images_dataset : Dataset
images_dataset = record {
  id = "d1";
  name = "images";
  title = "images";
  description = "";
  created_at = 0;
  updated_at = 0;
  archived_at = none;
}

abbrev full_store : Db
full_store = record world {
  tasks = over ∷ held ∷ [];
  artifacts = old_result ∷ model_file ∷ [];
  datasets = images_dataset ∷ [];
  versions = images ∷ [];
  files =
      file old_result.storage_path ∷ file model_file.storage_path ∷ file images.server_path ∷ [];
}

abbrev in_place : String → String
in_place path = path

abbrev much_later : ℕ
much_later = 100000000000

abbrev for_good : CleanupRequest
for_good = record { dry_run = false; requested_by = "admin"; reason = "old" }

abbrev dry : CleanupRequest
dry = record { dry_run = true; requested_by = "admin"; reason = "old" }

found_version : get_dataset_version full_store "v1" ≡ ok images
unfolding get_dataset_version
found_version = refl

purge_expired_artifacts-dry_example :
    SameStore full_store
      (purge_expired_artifacts in_place "/data" much_later "r1" settings dry none full_store).1
purge_expired_artifacts-dry_example =
    purge_expired_artifacts-dry in_place "/data" much_later "r1" settings dry none full_store refl

spared :
    All
      (λ c.
        (is_candidate settings much_later none full_store c
          && touches "a1" model_file.storage_path c)
        ≡ false)
      full_store.artifacts
unfolding is_candidate
spared = (refl, (refl, tt))

purge_expired_artifacts-spares_example :
    (get_artifact
        (purge_expired_artifacts in_place "/data" much_later "r1" settings for_good none
          full_store).1
        "a1"
      ≡ get_artifact full_store "a1")
    × (file_at
          (purge_expired_artifacts in_place "/data" much_later "r1" settings for_good none
            full_store).1
          model_file.storage_path
        ≡ file_at full_store model_file.storage_path)
purge_expired_artifacts-spares_example =
    purge_expired_artifacts-spares in_place "/data" much_later "r1" settings for_good none "a1"
      model_file.storage_path full_store spared

abbrev purge_run : CleanupRun
purge_run = record {
  id = "r1";
  cleanup_type = "artifact_retention_purge";
  dry_run = false;
  requested_by = "admin";
  reason = "old";
  filter = none;
  candidate_count = 1;
  processed_count = 1;
  skipped_count = 0;
  estimated_bytes = 5;
  released_bytes = 5;
  status = completed;
  created_at = much_later;
  completed_at = some much_later;
}

abbrev after_purge : Db
after_purge =
    (purge_expired_artifacts in_place "/data" much_later "r1" settings for_good none full_store).1

purged :
    purge_expired_artifacts in_place "/data" much_later "r1" settings for_good none full_store
    ≡ (ok purge_run, after_purge)
unfolding purge_expired_artifacts purge_rows finish_run artifact_candidates is_candidate within
    file_at path_parts ◌>>=◌ query execute pure
purged = refl

purge_expired_artifacts-Purged_example :
    Purged (artifact_candidates settings much_later none full_store) purge_run after_purge
purge_expired_artifacts-Purged_example =
    purge_expired_artifacts-Purged in_place "/data" much_later "r1" settings for_good none purge_run
      full_store after_purge refl purged

abbrev release_run : CleanupRun
release_run = record purge_run { cleanup_type = "dataset_server_copy_release"; filter = some "v1" }

abbrev after_release : Db
after_release =
    (release_dataset_server_copy in_place "/data" much_later "r1" for_good "v1" full_store).1

released_run :
    release_dataset_server_copy in_place "/data" much_later "r1" for_good "v1" full_store
    ≡ (ok release_run, after_release)
unfolding release_dataset_server_copy get_dataset_version finish_run within file_at path_parts ◌>>=◌
    query execute pure
released_run = refl

release_dataset_server_copy-Released_example :
    Released in_place "/data" much_later "old" "v1" images release_run after_release
release_dataset_server_copy-Released_example =
    release_dataset_server_copy-Released in_place "/data" much_later "r1" for_good "v1" images
      release_run full_store after_release refl found_version refl released_run

abbrev manifest_path : String → String
manifest_path path = "/data/objects/images/1/manifest.json"

abbrev after_deletion : Db
after_deletion = (delete_dataset_version manifest_path "v1" full_store).1

deleted_version : delete_dataset_version manifest_path "v1" full_store ≡ (ok tt, after_deletion)
unfolding delete_dataset_version get_dataset_version ◌>>=◌ query execute
deleted_version = refl

delete_dataset_version-gone_example :
    (active_copies full_store "v1" ≡ 0)
    × (get_dataset_version after_deletion "v1" ≡ err (dataset_not_found "v1"))
    × (count_where (λ c. c.dataset_version_id == "v1") after_deletion.caches ≡ 0)
delete_dataset_version-gone_example =
    delete_dataset_version-gone manifest_path "v1" tt full_store after_deletion deleted_version

release_dataset_server_copy-dry_example :
    SameStore full_store
      (release_dataset_server_copy in_place "/data" much_later "r1" dry "v1" full_store).1
release_dataset_server_copy-dry_example =
    release_dataset_server_copy-dry in_place "/data" much_later "r1" dry "v1" images full_store
      found_version refl
