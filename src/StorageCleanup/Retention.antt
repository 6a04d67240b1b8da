-- ===== src/StorageCleanup/Retention.antt =====
-- What a purge of artifacts leaves alone, and how it counts.
use cloudlink.Prelude.{
  Bool, true, false, ◌&&◌, ◌||◌, String, List, [], ◌∷◌, Option, ◌≡◌, ◌∙◌, refl, arith,
  if◌then◌else◌, ◌==◌, string_eq, find, update_where, All, All-map, All-both, All-select,
  All-select_meets, All-order_by, select,
}
use text.Mathlib.TextEquality.{eq_iff}
use cloudlink.Errors.{Result}
use cloudlink.Database.Tasks.{Time, Artifact}
use cloudlink.Database.Storage.{File}
use cloudlink.Database.Action.{Db, Settings}
use cloudlink.Database.Safe.{
  Leaves, Leaves-query, Leaves-read, Leaves-execute, Leaves-pure, Leaves-if, Leaves-then,
  Leaves-last, Leaves-state, Leaves-map,
}
use cloudlink.ArtifactStore.{has_artifact_id, get_artifact, set_artifact, part_path}
use cloudlink.ArtifactStore.Disk.{file_at, exists, unlink, file_at-unlink_other}
use cloudlink.StorageCleanup.{
  is_file, CleanupRequest, new_run, Tally, finish_run, put_item, is_candidate, artifact_candidates,
}
use cloudlink.StorageCleanup.Purge.{
  purging_row, purged_row, artifact_item, remove_file, purge_files, purge_row, purge_rows,
  purge_expired_artifacts, started_tally,
}

-- Two databases with the same tasks, artifacts, dataset versions and files.
pub record SameStore (db after : Db) : Type 0 where
  pub tasks : after.tasks ≡ db.tasks
  pub artifacts : after.artifacts ≡ db.artifacts
  pub versions : after.versions ≡ db.versions
  pub files : after.files ≡ db.files

module _ (db0 : Db) where
  pub finish_run-SameStore :
      (run_id : String) (now : Time) (t : Tally) (db : Db)
      → SameStore db0 db
      → Leaves (SameStore db0) (λ _ _. Unit {0}) (finish_run run_id now t db)
  unfolding finish_run
  finish_run-SameStore run_id now t db same = Leaves-execute _ _ _ _ db (
      Leaves-last _ _ _ _
        (record {
          tasks = same.tasks;
          artifacts = same.artifacts;
          versions = same.versions;
          files = same.files;
        })
        λ _ _. tt)

  module _ (resolve : String → String) (data_root : String) (now : Time) (run_id : String)
      (request : CleanupRequest) (dry : request.dry_run ≡ true) where
    purge_row-SameStore :
        (a : Artifact) (t : Tally) (db : Db)
        → SameStore db0 db
        → Leaves
            (SameStore db0)
            (λ u _. u ≡ t)
            (purge_row resolve data_root now run_id request t a db)
    purge_row-SameStore a t db same =
        let kept : SameStore db0
            (put_item (artifact_item resolve data_root now run_id request a) db) =
          record {
            tasks = same.tasks;
            artifacts = same.artifacts;
            versions = same.versions;
            files = same.files;
          } in
        Leaves-execute _ _ _ _ db (
          Leaves-query _ _ _ _ _ kept λ _ _.
            Leaves-if _ _ request.dry_run _ _ _ (λ _. Leaves-pure _ _ t _ kept refl)
              (λ real. absurd (cc)))

    purge_rows-SameStore :
        (rows : List Artifact) (t : Tally) (db : Db)
        → SameStore db0 db
        → Leaves
            (SameStore db0)
            (λ u _. u ≡ t)
            (purge_rows resolve data_root now run_id request t rows db)
    unfolding purge_rows
    purge_rows-SameStore [] t db same = Leaves-pure _ _ t db same refl
    purge_rows-SameStore (a ∷ rows) t db same = Leaves-then _ _ _ _ db (
        Leaves-map _ (λ u _. u ≡ t) _ _
          (λ u after kept e. rw (← e) (purge_rows-SameStore rows u after kept))
          (purge_row-SameStore a t db same))

-- A dry run of a purge changes no task, artifact, dataset version or file.
pub purge_expired_artifacts-dry :
    (resolve : String → String) (data_root : String) (now : Time) (run_id : String)
    (settings : Settings) (request : CleanupRequest) (task_id : Option String) (db : Db)
    → request.dry_run ≡ true
    → SameStore db
        (purge_expired_artifacts resolve data_root now run_id settings request task_id db).1
unfolding purge_expired_artifacts
purge_expired_artifacts-dry resolve data_root now run_id settings request task_id db dry =
    let rows = artifact_candidates settings now task_id db in
    let begun : Db = new_run run_id now "artifact_retention_purge" request task_id db in
    Leaves-state (SameStore db) (λ _ _. Unit {0}) _
      (Leaves-read _ _ _ _ db rows refl (
        Leaves-execute _ _ _ _ db (
          Leaves-then _ _ _ _ _ (
            Leaves-map _ _ _ _ (λ t after kept _. finish_run-SameStore db run_id now t after kept)
              (purge_rows-SameStore db resolve data_root now run_id request dry rows
                (started_tally rows) begun
                (record { tasks = refl; artifacts = refl; versions = refl; files = refl }))))))

abbrev pub touches : String → String → Artifact → Bool
touches id path c = c.id == id || c.storage_path == path || part_path c == path

find_spared :
    (id other : String) (f : Artifact → Artifact) (rows : List Artifact)
    → (other == id) ≡ false
    → ((b : Artifact) → (f b).id ≡ b.id)
    → find (has_artifact_id id) (update_where (has_artifact_id other) f rows)
      ≡ find (has_artifact_id id) rows
find_spared id other f [] apart keeps = refl
find_spared id other f (b ∷ rows) apart keeps = ground (
  arith,
  keeps b,
  eq_iff b.id id,
  eq_iff b.id other,
  eq_iff other id,
  find_spared id other f rows apart keeps,
)

module _ (id path : String) (row : Result Artifact) (file : Option File) where
  -- The artifact and the file are as they were.
  abbrev Spared : Db → Type 0
  Spared db = (get_artifact db id ≡ row) × (file_at db path ≡ file)

  set_artifact-Spared :
      (other : String) (f : Artifact → Artifact) (db : Db)
      → (other == id) ≡ false
      → ((b : Artifact) → (f b).id ≡ b.id)
      → Spared db
      → Spared (set_artifact other f db)
  unfolding get_artifact file_at
  set_artifact-Spared other f db apart keeps s =
      (rw (find_spared id other f db.artifacts apart keeps) s.0, s.1)

  remove_file-Spared :
      (q : String) (db : Db) → (q == path) ≡ false → Spared db → Spared (remove_file q db)
  unfolding get_artifact
  remove_file-Spared q db apart s = removed (exists db q && is_file db q)
    where
      removed : (b : Bool) → Spared (if b then unlink q db else db)
      removed true = (s.0, file_at-unlink_other q path db apart ∙ s.1)
      removed false = s

  module _ (resolve : String → String) (data_root : String) (now : Time) (run_id : String)
      (request : CleanupRequest) where
    purge_files-Spared :
        (a : Artifact) (t : Tally) (db : Db)
        → touches id path a ≡ false
        → Spared db
        → Leaves Spared (λ _ _. Unit {0}) (purge_files resolve data_root now run_id request t a db)
    unfolding get_artifact file_at
    purge_files-Spared a t db apart s =
        let own : (a.id == id) ≡ false = ground arith in
        let stored : (a.storage_path == path) ≡ false = ground arith in
        let part : (part_path a == path) ≡ false = ground arith in
        let s1 = set_artifact-Spared a.id (purging_row now) db own (λ _. refl) s in
        let s2 =
          remove_file-Spared a.storage_path (set_artifact a.id (purging_row now) db) stored s1 in
        let s3 =
          remove_file-Spared (part_path a)
            (remove_file a.storage_path (set_artifact a.id (purging_row now) db)) part s2 in
        let end =
          set_artifact-Spared a.id (purged_row now request.reason a.size_bytes)
            (remove_file (part_path a)
              (remove_file a.storage_path (set_artifact a.id (purging_row now) db)))
            own (λ _. refl) s3 in
        Leaves-execute _ _ _ _ db (
          Leaves-read _ _ _ _ _ _ refl (
            Leaves-execute _ _ _ _ _ (
              Leaves-read _ _ _ _ _ _ refl (
                Leaves-execute _ _ _ _ _ (
                  Leaves-execute _ _ _ _ _
                    (Leaves-execute _ _ _ _ _ (Leaves-pure _ _ _ _ end tt)))))))

    purge_row-Spared :
        (a : Artifact) (t : Tally) (db : Db)
        → touches id path a ≡ false
        → Spared db
        → Leaves Spared (λ _ _. Unit {0}) (purge_row resolve data_root now run_id request t a db)
    unfolding get_artifact file_at
    purge_row-Spared a t db apart s = Leaves-execute _ _ _ _ db (
        Leaves-query _ _ _ _ _ s λ unsafe _.
          Leaves-if _ _ request.dry_run _ _ _ (λ _. Leaves-pure _ _ t _ s tt)
            (λ _.
              Leaves-if _ _ unsafe _ _ _ (λ _. Leaves-execute _ _ _ _ _ (Leaves-pure _ _ _ _ s tt))
                (λ _. purge_files-Spared a t _ apart s)))

    purge_rows-Spared :
        (rows : List Artifact) (t : Tally) (db : Db)
        → All (λ c. touches id path c ≡ false) rows
        → Spared db
        → Leaves Spared
            (λ _ _. Unit {0})
            (purge_rows resolve data_root now run_id request t rows db)
    unfolding purge_rows
    purge_rows-Spared [] t db h s = Leaves-pure _ _ t db s tt
    purge_rows-Spared (a ∷ rows) t db h s = Leaves-then _ _ _ _ db (
        Leaves-map _ (λ _ _. Unit {0}) _ _
          (λ u after kept _. purge_rows-Spared rows u after h.1 kept)
          (purge_row-Spared a t db h.0 s))

    finish_run-Spared :
        (t : Tally) (db : Db)
        → Spared db
        → Leaves Spared (λ _ _. Unit {0}) (finish_run run_id now t db)
    unfolding finish_run get_artifact file_at
    finish_run-Spared t db s = Leaves-execute _ _ _ _ db (Leaves-last _ _ _ _ s λ _ _. tt)

    purge-Spared :
        (settings : Settings) (task_id : Option String) (db : Db)
        → All (λ c. touches id path c ≡ false) (artifact_candidates settings now task_id db)
        → Spared db
        → Spared
            (purge_expired_artifacts resolve data_root now run_id settings request task_id db).1
    unfolding purge_expired_artifacts get_artifact file_at
    purge-Spared settings task_id db h s =
        let rows = artifact_candidates settings now task_id db in
        Leaves-state Spared (λ _ _. Unit {0}) _
          (Leaves-read _ _ _ _ db rows refl (
            Leaves-execute _ _ _ _ db (
              Leaves-then _ _ _ _ _ (
                Leaves-map _ (λ _ _. Unit {0}) _ _
                  (λ t after kept _. finish_run-Spared t after kept)
                  (purge_rows-Spared rows (started_tally rows) _ h s)))))

candidates_apart :
    (settings : Settings) (now : Time) (task_id : Option String) (id path : String) (db : Db)
    → All (λ c. (is_candidate settings now task_id db c && touches id path c) ≡ false) db.artifacts
    → All (λ c. touches id path c ≡ false) (artifact_candidates settings now task_id db)
unfolding artifact_candidates
candidates_apart settings now task_id id path db h =
    let p = is_candidate settings now task_id db in
    All-order_by _ (λ a. a.created_at) (select p db.artifacts)
      (All-map _ _ (select p db.artifacts) (λ c k. ground arith)
        (All-both _ _ (select p db.artifacts) (All-select _ p db.artifacts h)
          (All-select_meets p db.artifacts)))

-- A purge, dry or not, leaves an artifact and a file as they were when every row that has that identifier, or that file
-- for its content or its partial content, fails a condition of the purge: its task has ended, its time is over, it is not
-- purged, and no download of it is under way.
pub purge_expired_artifacts-spares :
    (resolve : String → String) (data_root : String) (now : Time) (run_id : String)
    (settings : Settings) (request : CleanupRequest) (task_id : Option String) (id path : String)
    (db : Db)
    → All (λ c. (is_candidate settings now task_id db c && touches id path c) ≡ false) db.artifacts
    → (get_artifact
          (purge_expired_artifacts resolve data_root now run_id settings request task_id db).1
          id
        ≡ get_artifact db id)
      × (file_at
            (purge_expired_artifacts resolve data_root now run_id settings request task_id db).1
            path
          ≡ file_at db path)
purge_expired_artifacts-spares resolve data_root now run_id settings request task_id id path db h =
    purge-Spared id path (get_artifact db id) (file_at db path) resolve data_root now run_id request
      settings task_id db (candidates_apart settings now task_id id path db h) (refl, refl)
