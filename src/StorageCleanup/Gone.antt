-- ===== src/StorageCleanup/Gone.antt =====
-- What a purge does to the artifacts that it selects, and that its counts add up.
use cloudlink.Prelude.{
  ◌+◌, ◌≤◌, Bool, true, false, ◌&&◌, not, String, List, [], ◌∷◌, Option, none, some, ◌≡◌, ◌∙◌, refl,
  arith, if◌then◌else◌, string_eq, length, find, any, update_where, All, All-map, All-select,
  All-order_by, inl, inr, ◌⊎◌, select, beq_self, ap, count_where, Bool-cases,
}
use cloudlink.Errors.{
  Result, ok, err, or_raise, artifact_gone, artifact_conflict, artifact_not_found,
}
use cloudlink.Database.Tasks.{Time, Artifact}
use cloudlink.Database.Storage.{CleanupRun, ItemStatus}
use cloudlink.Database.Action.{Db, Settings}
use cloudlink.Database.Safe.{
  Leaves, Leaves-query, Leaves-read, Leaves-execute, Leaves-pure, Leaves-if, Leaves-then,
  Leaves-map, Leaves-result,
}
use cloudlink.ArtifactStore.{
  has_artifact_id, get_artifact, set_artifact, part_path, is_purged, is_uploaded,
  get_uploaded_artifact_path,
}
use cloudlink.ArtifactStore.Disk.{exists, unlink}
use cloudlink.StorageCleanup.{
  is_file, CleanupRequest, new_run, Tally, put_item, set_item, is_candidate, artifact_candidates,
}
use cloudlink.StorageCleanup.Purge.{
  artifact_item, purging_row, purged_row, remove_file, purge_files, purge_row, purge_rows,
  purge_expired_artifacts, started_tally,
}
use cloudlink.StorageCleanup.Counts.{Reports, finish_run-Reports}

abbrev gone_row : Option Artifact → Bool
gone_row none = false
gone_row (some a) = is_purged a.status

abbrev is_gone : String → Db → Bool
is_gone id db = gone_row (find (has_artifact_id id) db.artifacts)

-- The artifact is there, and it has been purged.
unfoldable Gone : String → Db → Type 0
Gone id db = is_gone id db ≡ true

unfoldable Present : String → Db → Type 0
Present id db = any (has_artifact_id id) db.artifacts ≡ true

gone_update :
    (id other : String) (f : Artifact → Artifact) (rows : List Artifact)
    → ((b : Artifact) → (f b).id ≡ b.id)
    → ((b : Artifact) → is_purged (f b).status ≡ true)
    → gone_row (find (has_artifact_id id) rows) ≡ true
    → gone_row (find (has_artifact_id id) (update_where (has_artifact_id other) f rows)) ≡ true
gone_update id other f [] keeps gone h = absurd (cc)
gone_update id other f (b ∷ rows) keeps gone h =
    ground (arith, keeps b, gone b, gone_update id other f rows keeps gone)

gone_own :
    (id : String) (f : Artifact → Artifact) (rows : List Artifact)
    → ((b : Artifact) → (f b).id ≡ b.id)
    → ((b : Artifact) → is_purged (f b).status ≡ true)
    → any (has_artifact_id id) rows ≡ true
    → gone_row (find (has_artifact_id id) (update_where (has_artifact_id id) f rows)) ≡ true
gone_own id f [] keeps gone h = absurd (cc)
gone_own id f (b ∷ rows) keeps gone h =
    ground (arith, keeps b, gone b, gone_own id f rows keeps gone)

present_update :
    (id other : String) (f : Artifact → Artifact) (rows : List Artifact)
    → ((b : Artifact) → (f b).id ≡ b.id)
    → any (has_artifact_id id) rows ≡ true
    → any (has_artifact_id id) (update_where (has_artifact_id other) f rows) ≡ true
present_update id other f [] keeps h = absurd (cc)
present_update id other f (b ∷ rows) keeps h =
    ground (arith, keeps b, present_update id other f rows keeps)

-- What later rounds keep of the artifacts.
record Keeps (db after : Db) : Type 0 where
  gone : (id : String) → Gone id db → Gone id after
  present : (id : String) → Present id db → Present id after

remove_file-artifacts : (q : String) (db : Db) → (remove_file q db).artifacts ≡ db.artifacts
remove_file-artifacts q db = by_case (exists db q && is_file db q)
  where
    by_case : (b : Bool) → (if b then unlink q db else db).artifacts ≡ db.artifacts
    by_case true = refl
    by_case false = refl

-- One round: the row is skipped, or it is purged.
record Round (t : Tally) (a : Artifact) (db : Db) (u : Tally) (after : Db) : Type 0 where
  keeps : Keeps db after
  candidates : u.candidates ≡ t.candidates
  outcome :
      ((u.skipped ≡ t.skipped + 1) × (u.processed ≡ t.processed))
      ⊎ ((u.skipped ≡ t.skipped) × (u.processed ≡ t.processed + 1) × Gone a.id after)

-- The rows after both updates of a purge.
abbrev marked_twice : Time → String → Artifact → List Artifact → List Artifact
marked_twice now reason a rows =
    update_where (has_artifact_id a.id) (purged_row now reason a.size_bytes)
      (update_where (has_artifact_id a.id) (purging_row now) rows)

marked_twice-Keeps :
    (now : Time) (reason : String) (a : Artifact) (db after : Db)
    → after.artifacts ≡ marked_twice now reason a db.artifacts
    → Present a.id db
    → Keeps db after × Gone a.id after
unfolding Gone Present
marked_twice-Keeps now reason a db after e here =
    let once : List Artifact = update_where (has_artifact_id a.id) (purging_row now) db.artifacts in
    let f = purged_row now reason a.size_bytes in
    (
      record {
        gone = λ id h. rw e (
            gone_update id a.id f once (λ _. refl) (λ _. refl)
              (gone_update id a.id (purging_row now) db.artifacts (λ _. refl) (λ _. refl) h));
        present = λ id h. rw e (
            present_update id a.id f once (λ _. refl)
              (present_update id a.id (purging_row now) db.artifacts (λ _. refl) h));
      },
      rw e (
          gone_own a.id f once (λ _. refl) (λ _. refl)
            (present_update a.id a.id (purging_row now) db.artifacts (λ _. refl) here)),
    )

module _ (resolve : String → String) (data_root : String) (now : Time) (run_id : String)
    (request : CleanupRequest) (real : request.dry_run ≡ false) where
  purge_files-Round :
      (t : Tally) (a : Artifact) (db : Db)
      → Present a.id db
      → Leaves
          (λ _. Unit {0})
          (Round t a db)
          (purge_files resolve data_root now run_id request t a db)
  purge_files-Round t a db here =
      let marked : Db = set_artifact a.id (purging_row now) db in
      let removed : Db = remove_file (part_path a) (remove_file a.storage_path marked) in
      let over : Db = set_artifact a.id (purged_row now request.reason a.size_bytes) removed in
      let after : Db = set_item run_id a.id (λ i. record i { status = ItemStatus.purged }) over in
      let same : removed.artifacts ≡ marked.artifacts =
        remove_file-artifacts (part_path a) (remove_file a.storage_path marked)
        ∙ remove_file-artifacts a.storage_path marked in
      let kept =
        marked_twice-Keeps now request.reason a db after
          (ap (update_where (has_artifact_id a.id) (purged_row now request.reason a.size_bytes))
            same)
          here in
      Leaves-execute _ _ _ _ db (
        Leaves-read _ _ _ _ _ _ refl (
          Leaves-execute _ _ _ _ _ (
            Leaves-read _ _ _ _ _ _ refl (
              Leaves-execute _ _ _ _ _ (
                Leaves-execute _ _ _ _ _ (
                  Leaves-execute _ _ _ _ _ (
                    Leaves-pure _ _ _ _ tt (record {
                      keeps = kept.0;
                      candidates = refl;
                      outcome = inr (refl, refl, kept.1);
                    }))))))))

  untouched :
      (t u : Tally) (a : Artifact) (db after : Db)
      → after.artifacts ≡ db.artifacts
      → u.candidates ≡ t.candidates
      → u.skipped ≡ t.skipped + 1
      → u.processed ≡ t.processed
      → Round t a db u after
  unfolding Gone Present
  untouched t u a db after e c s p = record {
    keeps = record { gone = λ id h. rw e h; present = λ id h. rw e h };
    candidates = c;
    outcome = inl (s, p);
  }

  purge_row-Round :
      (t : Tally) (a : Artifact) (db : Db)
      → Present a.id db
      → Leaves
          (λ _. Unit {0})
          (Round t a db)
          (purge_row resolve data_root now run_id request t a db)
  unfolding Gone Present
  purge_row-Round t a db here = Leaves-execute _ _ _ _ db (
      Leaves-query _ _ _ _ _ tt λ unsafe _.
        Leaves-if _ _ request.dry_run _ _ _ (λ dry. absurd (cc))
          (λ _.
            Leaves-if _ _ unsafe _ _ _
              (λ _.
                Leaves-execute _ _ _ _ _
                  (Leaves-pure _ _ _ _ tt (untouched _ _ a db _ refl refl refl refl)))
              (λ _.
                Leaves-map _
                  (Round t a (put_item (artifact_item resolve data_root now run_id request a) db)) _
                  _
                  (λ u after _ r. record {
                    keeps = record { gone = r.keeps.gone; present = r.keeps.present };
                    candidates = r.candidates;
                    outcome = r.outcome;
                  })
                  (purge_files-Round t a
                    (put_item (artifact_item resolve data_root now run_id request a) db) here))))

  -- The rounds: what is not skipped is purged.
  record Rounds (t : Tally) (rows : List Artifact) (db : Db) (u : Tally) (after : Db) : Type 0 where
    keeps : Keeps db after
    candidates : u.candidates ≡ t.candidates
    total : u.processed + u.skipped ≡ t.processed + t.skipped + length rows
    purged : u.processed ≤ t.processed + count_where (λ c. is_gone c.id after) rows

  joined :
      (t u w : Tally) (a : Artifact) (rows : List Artifact) (db between after : Db)
      → Round t a db u between
      → Rounds u rows between w after
      → Rounds t (a ∷ rows) db w after
  joined t u w a rows db between after r rs = record {
    keeps = record {
      gone = λ id g. rs.keeps.gone id (r.keeps.gone id g);
      present = λ id g. rs.keeps.present id (r.keeps.present id g);
    };
    candidates = rs.candidates ∙ r.candidates;
    total = counted r.outcome;
    purged = purged_all r.outcome;
  }
    where
      counted :
          ((u.skipped ≡ t.skipped + 1) × (u.processed ≡ t.processed))
            ⊎ ((u.skipped ≡ t.skipped) × (u.processed ≡ t.processed + 1) × Gone a.id between)
          → w.processed + w.skipped ≡ t.processed + t.skipped + length (a ∷ rows)
      counted (inl o) = let k = rs.total in omega arith
      counted (inr o) = let k = rs.total in omega arith

      purged_all :
          ((u.skipped ≡ t.skipped + 1) × (u.processed ≡ t.processed))
            ⊎ ((u.skipped ≡ t.skipped) × (u.processed ≡ t.processed + 1) × Gone a.id between)
          → w.processed ≤ t.processed + count_where (λ c. is_gone c.id after) (a ∷ rows)
      purged_all (inl o) = let k = rs.purged in ground arith
      purged_all (inr o) =
          let hit : is_gone a.id after ≡ true = unfold Gone in rs.keeps.gone a.id o.2 in
          let k = rs.purged in rw hit (omega arith)

  purge_rows-Rounds :
      (rows : List Artifact) (t : Tally) (db : Db)
      → All (λ c. Present c.id db) rows
      → Leaves
          (λ _. Unit {0})
          (Rounds t rows db)
          (purge_rows resolve data_root now run_id request t rows db)
  unfolding purge_rows
  purge_rows-Rounds [] t db h = Leaves-pure _ _ t db tt (record {
    keeps = record { gone = λ id g. g; present = λ id g. g };
    candidates = refl;
    total = omega arith;
    purged = omega arith;
  })
  purge_rows-Rounds (a ∷ rows) t db h = Leaves-then _ _ _ _ db (
      Leaves-map _ (Round t a db) _ _
        (λ u between _ r.
          Leaves-map _ (Rounds u rows between) _ _
            (λ w after _ rs. joined t u w a rows db between after r rs)
            (purge_rows-Rounds rows u between
              (All-map _ _ rows (λ c p. r.keeps.present c.id p) h.1)))
        (purge_row-Round t a db h.0))

Gone-path :
    (id : String) (db : Db) → Gone id db → get_uploaded_artifact_path db id ≡ err (artifact_gone id)
unfolding Gone get_uploaded_artifact_path get_artifact
Gone-path id db h = by_row (find (has_artifact_id id) db.artifacts) h
  where
    by_row :
        (row : Option Artifact)
        → gone_row row ≡ true
        → (elim (or_raise row (artifact_not_found id)) [
          | err e ↦ err e
          | ok a ↦
              if is_purged a.status
              then err (artifact_gone id)
              else if not (is_uploaded a.status)
              then err (artifact_conflict "artifact is not uploaded")
              else if not (exists db a.storage_path)
              then err (artifact_not_found id)
              else ok a.storage_path
        ])
          ≡ err (artifact_gone id)
    by_row none k = absurd (cc)
    by_row (some a) k = rw k refl

all_present : (rows : List Artifact) → All (λ c. any (has_artifact_id c.id) rows ≡ true) rows
all_present [] = tt
all_present (a ∷ rows) =
    (ground (arith, beq_self a.id), All-map _ _ rows (λ c h. ground arith) (all_present rows))

-- The server answers that the artifact is gone.
abbrev pub says_gone : Result String → Bool
says_gone (ok path) = false
says_gone (err (artifact_gone id)) = true
says_gone (err _) = false

-- What a purge reports and leaves: every candidate is counted once, and of the candidates at least as many
-- are gone as it has processed.
pub record Purged (rows : List Artifact) (run : CleanupRun) (after : Db) : Type 0 where
  pub candidates : run.candidate_count ≡ length rows
  pub counted : run.processed_count + run.skipped_count ≡ length rows
  pub gone :
      run.processed_count
      ≤ count_where (λ c. says_gone (get_uploaded_artifact_path after c.id)) rows

gone-says_gone :
    (db : Db) (rows : List Artifact)
    → count_where (λ c. is_gone c.id db) rows
      ≤ count_where (λ c. says_gone (get_uploaded_artifact_path db c.id)) rows
gone-says_gone db [] = omega arith
gone-says_gone db (c ∷ rows) =
    let more = gone-says_gone db rows in
    elim (Bool-cases (is_gone c.id db)) [
      | inl hit ↦ rw (hit, Gone-path c.id db (unfold Gone in hit)) (omega arith)
      | inr miss ↦ rw miss (ground arith)
    ]

reported :
    (rows : List Artifact) (t : Tally) (r : CleanupRun) (between final : Db)
    → t.candidates ≡ length rows
    → t.processed + t.skipped ≡ 0 + length rows
    → t.processed ≤ 0 + count_where (λ c. is_gone c.id between) rows
    → Reports t r
    → final.artifacts ≡ between.artifacts
    → Purged rows r final
reported rows t r between final all_of total purged reports same =
    let processed = reports.processed in
    let skipped = reports.skipped in
    let there : t.processed ≤ count_where (λ c. is_gone c.id final) rows =
      let k : t.processed ≤ count_where (λ c. is_gone c.id between) rows = omega arith in
      rw same k in
    let answered = gone-says_gone final rows in
    record { candidates = reports.candidates ∙ all_of; counted = omega arith; gone = omega arith }

-- A purge that is no dry run counts every candidate once, as processed or as skipped, and afterwards at
-- least as many of the candidates as it reports to have processed can no longer be downloaded: the server
-- answers that they are gone.
pub purge_expired_artifacts-Purged :
    (resolve : String → String) (data_root : String) (now : Time) (run_id : String)
    (settings : Settings) (request : CleanupRequest) (task_id : Option String) (run : CleanupRun)
    (db after : Db)
    → request.dry_run ≡ false
    → purge_expired_artifacts resolve data_root now run_id settings request task_id db
      ≡ (ok run, after)
    → Purged (artifact_candidates settings now task_id db) run after
unfolding purge_expired_artifacts Present artifact_candidates Gone
purge_expired_artifacts-Purged resolve data_root now run_id settings request task_id run db after
      real returns =
    let rows : List Artifact = artifact_candidates settings now task_id db in
    let begun : Db = new_run run_id now "artifact_retention_purge" request task_id db in
    let there : All (λ c. Present c.id begun) rows =
      All-order_by _ (λ a. a.created_at)
        (select (is_candidate settings now task_id db) db.artifacts)
        (All-select _ (is_candidate settings now task_id db) db.artifacts
          (all_present db.artifacts)) in
    (Leaves-result (λ _. Unit {0}) (Purged rows) _ run after
      (Leaves-read _ _ _ _ db rows refl (
        Leaves-execute _ _ _ _ db (
          Leaves-then _ _ _ _ begun (
            Leaves-map _
              (Rounds resolve data_root now run_id request real (started_tally rows) rows begun) _ _
              (λ t between _ rs.
                Leaves-map _ (λ r final. Reports t r × (final.artifacts ≡ between.artifacts)) _ _
                  (λ r final _ k.
                    reported rows t r between final rs.candidates rs.total rs.purged k.0 k.1)
                  (finish_run-Reports run_id now t (λ final. final.artifacts ≡ between.artifacts)
                    between (λ runs. refl)))
              (purge_rows-Rounds resolve data_root now run_id request real rows (started_tally rows)
                begun there)))))
      returns).1
