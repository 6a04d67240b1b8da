-- ===== src/StorageCleanup/Release.antt =====
-- What the release of a server copy of a dataset version does and leaves alone.
use cloudlink.Prelude.{
  Bool, true, false, ◌&&◌, ◌||◌, not, String, List, [], ◌∷◌, none, some, ◌≡◌, refl, arith,
  if◌then◌else◌, ◌==◌, string_eq, find, update_where, delete_where, contains, is_some, beq_self,
}
use cloudlink.Prelude.Paths.{◌+++◌}
use cloudlink.Errors.{ok, or_raise, dataset_not_found}
use cloudlink.Database.Tasks.{Time}
use cloudlink.Database.Datasets.{DatasetVersion, releasing}
use cloudlink.Database.Storage.{File, CleanupRun}
use cloudlink.Database.Action.{Db}
use cloudlink.Database.Safe.{
  passed, Leaves-query, Leaves-read, Leaves-execute, Leaves-if, Leaves-state, Leaves-result,
  Leaves-map,
}
use cloudlink.DatasetStore.Queries.{get_dataset_version, is_released, is_live}
use cloudlink.ArtifactStore.Disk.{file_at, exists, unlink, has_path}
use cloudlink.StorageCleanup.{within, CleanupRequest, new_run, put_item}
use cloudlink.StorageCleanup.Purge.{
  set_version, one_candidate, released_version, release_dataset_server_copy, version_item,
}
use cloudlink.StorageCleanup.Counts.{Reports, finish_run-Reports}
use cloudlink.StorageCleanup.Retention.{SameStore, finish_run-SameStore}

-- A dry run of a release changes no task, artifact, dataset version or file; nor does a release of a copy that is released
-- already.
pub release_dataset_server_copy-dry :
    (resolve : String → String) (data_root : String) (now : Time) (run_id : String)
    (request : CleanupRequest) (id : String) (v : DatasetVersion) (db : Db)
    → get_dataset_version db id ≡ ok v
    → (request.dry_run || is_released v.server_copy_status) ≡ true
    → SameStore db (release_dataset_server_copy resolve data_root now run_id request id db).1
unfolding release_dataset_server_copy
release_dataset_server_copy-dry resolve data_root now run_id request id v db found dry =
    let begun : Db = new_run run_id now "dataset_server_copy_release" request (some id) db in
    let same : SameStore db begun = record {
      tasks = refl;
      artifacts = refl;
      versions = refl;
      files = refl;
    } in
    let noted : Db = put_item (version_item resolve data_root now run_id request v) begun in
    let still : SameStore db noted = record {
      tasks = refl;
      artifacts = refl;
      versions = refl;
      files = refl;
    } in
    Leaves-state (SameStore db) (λ _ _. Unit {0}) _
      (Leaves-read _ _ _ _ db v found (
        Leaves-execute _ _ _ _ db (
          Leaves-if _ _ (is_released v.server_copy_status) _ _ begun
            (λ _. finish_run-SameStore db run_id now (one_candidate 0 1 0 0) begun same)
            (λ open_. Leaves-query _ _ _ _ begun same λ _ _. Leaves-query _ _ _ _ begun same λ _ _.
              Leaves-execute _ _ _ _ begun (
                Leaves-if _ _ request.dry_run _ _ noted
                  (λ _.
                    finish_run-SameStore db run_id now (one_candidate 0 0 v.size_bytes 0) noted
                      still)
                  (λ real. absurd (ground arith)))))))

gone_at :
    (path : String) (fs : List File) → find (has_path path) (delete_where (has_path path) fs) ≡ none
gone_at path [] = refl
gone_at path (f ∷ fs) = ground (arith, gone_at path fs)

-- The row of a version after an update by its identifier of columns that the query does not read.
version_updated :
    (db : Db) (id : String) (p : DatasetVersion → Bool) (f : DatasetVersion → DatasetVersion)
    (vs : List DatasetVersion) (v : DatasetVersion)
    → ((w : DatasetVersion) → (f w).id ≡ w.id)
    → ((w : DatasetVersion) → is_live db (f w) ≡ is_live db w)
    → find (λ w. w.id == id && is_live db w) vs ≡ some v
    → find (λ w. w.id == id && is_live db w) (update_where p f vs) ≡ some (if p v then f v else v)
version_updated db id p f [] v same live h = absurd (cc)
version_updated db id p f (w ∷ vs) v same live h =
    ground (arith, same w, live w, version_updated db id p f vs v same live)

-- What is true after a copy was released.
pub record Released (resolve : String → String) (data_root : String) (now : Time)
    (reason id : String) (v : DatasetVersion) (run : CleanupRun) (after : Db) : Type 0 where
  pub gone : exists after v.server_path ≡ false
  pub marked : get_dataset_version after id ≡ ok (released_version now reason v)
  pub safe :
      (within resolve v.server_path (data_root +++ "/objects")
        && contains v.source_kind ("owned_file" ∷ "owned_archive" ∷ []))
      ≡ true
  pub bytes : run.released_bytes ≡ v.size_bytes

-- The versions after both updates of a release.
released_versions :
    (now : Time) (reason id : String) (v : DatasetVersion) (db : Db)
    → is_released v.server_copy_status ≡ false
    → get_dataset_version db id ≡ ok v
    → or_raise
        (find
          (λ w. w.id == id && is_live db w)
          (update_where
            (λ w. w.id == v.id)
            (released_version now reason)
            (update_where
              (λ w. w.id == v.id && not (is_released w.server_copy_status))
              (λ w. record w { server_copy_status = releasing })
              db.versions)))
        (dataset_not_found id)
      ≡ ok (released_version now reason v)
unfolding get_dataset_version
released_versions now reason id v db open_ found =
    let p : DatasetVersion → Bool = λ w. w.id == v.id && not (is_released w.server_copy_status) in
    let f : DatasetVersion → DatasetVersion = λ w. record w { server_copy_status = releasing } in
    let row : find (λ w. w.id == id && is_live db w) db.versions ≡ some v = ground arith in
    let first = version_updated db id p f db.versions v (λ w. refl) (λ w. refl) row in
    let second =
      version_updated db id (λ w. w.id == v.id) (released_version now reason)
        (update_where p f db.versions) (if p v then f v else v) (λ w. refl) (λ w. refl) first in
    rw (second, beq_self v.id, open_, beq_self v.id) refl

allowed : (kind place link : Bool) → kind ≡ true → (place && link) ≡ true → (place && kind) ≡ true
allowed kind place link h k = ground arith

-- A release that is no dry run, of a copy that is not released yet, has removed the file and marked the version when it
-- returns, and it returns only for an owned copy whose file lies in the objects of the data directory; the run reports the
-- bytes of the version.
pub release_dataset_server_copy-Released :
    (resolve : String → String) (data_root : String) (now : Time) (run_id : String)
    (request : CleanupRequest) (id : String) (v : DatasetVersion) (run : CleanupRun) (db after : Db)
    → request.dry_run ≡ false
    → get_dataset_version db id ≡ ok v
    → is_released v.server_copy_status ≡ false
    → release_dataset_server_copy resolve data_root now run_id request id db ≡ (ok run, after)
    → Released resolve data_root now request.reason id v run after
unfolding release_dataset_server_copy get_dataset_version file_at
release_dataset_server_copy-Released resolve data_root now run_id request id v run db after real
      found open_ returns =
    let begun : Db = new_run run_id now "dataset_server_copy_release" request (some id) db in
    let noted : Db = put_item (version_item resolve data_root now run_id request v) begun in
    let f : DatasetVersion → DatasetVersion = λ w. record w { server_copy_status = releasing } in
    let marked : Db =
      set_version (λ w. w.id == v.id && not (is_released w.server_copy_status)) f noted in
    let over : Db =
      set_version (λ w. w.id == v.id) (released_version now request.reason)
        (unlink v.server_path marked) in
    let end = released_versions now request.reason id v db open_ found in
    let Done : Db → Type 0 = λ final.
      (exists final v.server_path ≡ false)
      × (get_dataset_version final id ≡ ok (released_version now request.reason v)) in
    let no_file : is_some
          (find (has_path v.server_path) (delete_where (has_path v.server_path) db.files))
        ≡ false =
      rw (gone_at v.server_path db.files) refl in
    (Leaves-result (λ _. Unit {0}) (Released resolve data_root now request.reason id v) _ run after
      (Leaves-read _ _ _ _ db v found (
        Leaves-execute _ _ _ _ db (
          Leaves-if _ _ (is_released v.server_copy_status) _ _ begun (λ closed. absurd (cc))
            (λ _. Leaves-query _ _ _ _ begun tt λ _ kind. Leaves-query _ _ _ _ begun tt λ _ place.
              Leaves-execute _ _ _ _ begun (
                Leaves-if _ _ request.dry_run _ _ noted (λ dry. absurd (cc))
                  (λ _. Leaves-execute _ _ _ _ noted (
                    Leaves-query _ _ _ _ marked tt λ _ _. Leaves-execute _ _ _ _ marked (
                      Leaves-execute _ _ _ _ _ (
                        Leaves-map _
                          (λ r final.
                            Reports (one_candidate 1 0 v.size_bytes v.size_bytes) r × Done final)
                          _ _
                          (λ r final _ k. record {
                            gone = k.1.0;
                            marked = k.1.1;
                            safe = allowed _ _ _ (passed _ _ _ kind) (passed _ _ _ place);
                            bytes = k.0.released;
                          })
                          (finish_run-Reports run_id now
                            (one_candidate 1 0 v.size_bytes v.size_bytes) Done over
                            λ runs. (no_file, end)))))))))))
      returns).1
