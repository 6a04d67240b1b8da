-- ===== src/ArtifactStore/Laws.antt =====
-- What the server holds of an upload, and that its operations keep it.
use cloudlink.Prelude.{
  ◌<◌, ℕ, zero, suc, ◌+◌, true, false, String, List, [], ◌∷◌, ◌++◌, some, ◌≡◌, refl, ap, ◌⊎◌, inl,
  inr, arith, ◌==◌, nat_eq, string_eq, length, find, update_where, min, beq_self,
}
use cloudlink.Prelude.Paths.{◌+++◌}
use cloudlink.Errors.{ok, or_raise, artifact_not_found}
use cloudlink.Database.Tasks.{Time, Artifact}
use cloudlink.Database.Action.{Db, ◌>>=◌, query, execute}
use cloudlink.Database.Safe.{Leaves}
use cloudlink.ArtifactStore.Disk.{
  file_at, content_at, regular_file, append_file, file_at-write_file,
}
use cloudlink.ArtifactStore.{
  has_artifact_id, get_artifact, set_artifact, uploaded_row, uploading_row, mark_artifact_uploaded,
  mark_artifact_uploading, part_path, is_uploaded, Upload, slice, file_matches_artifact,
  artifact_upload_status,
}
use text.Mathlib.TextEquality.{eq_iff}

tail_of : String → String
tail_of String.[] = String.[]
tail_of (String.◌∷◌ c s) = s

differs : (s : String) → (s +++ ".part" ≡ s) → ⊥
unfolding tail_of
differs String.[] e = absurd (cc)
differs (String.◌∷◌ c s) e = differs s (ap tail_of e)

-- The part of an upload is not the file that it becomes.
pub part_apart : (s : String) → (s +++ ".part" == s) ≡ false
part_apart s = ground (arith, eq_iff (s +++ ".part") s, differs s)

pub get_artifact-set_artifact :
    (id : String) (f : Artifact → Artifact) (a : Artifact) (db : Db)
    → ((b : Artifact) → (f b).id ≡ b.id)
    → get_artifact db id ≡ ok a
    → get_artifact (set_artifact id f db) id ≡ ok (f a)
unfolding get_artifact
get_artifact-set_artifact id f a db keeps h = go db.artifacts h
  where
    go :
        (rows : List Artifact)
        → or_raise (find (has_artifact_id id) rows) (artifact_not_found id) ≡ ok a
        → or_raise
            (find (has_artifact_id id) (update_where (has_artifact_id id) f rows))
            (artifact_not_found id)
          ≡ ok (f a)
    go [] e = absurd (cc)
    go (b ∷ rows) e = ground (arith, go rows, keeps b)

pub slice_join : (k n : ℕ) (xs : List ℕ) → slice 0 k xs ++ slice k n xs ≡ slice 0 (k + n) xs
slice_join zero n xs = let e : 0 + n ≡ n = omega arith in rw e
slice_join (suc k) zero [] = let e : suc k + 0 ≡ suc k = omega arith in rw e
slice_join (suc k) (suc n) [] = let e : suc k + suc n ≡ suc (k + suc n) = omega arith in rw e
slice_join (suc k) n (x ∷ xs) =
    let e : suc k + n ≡ suc (k + n) = omega arith in rw e (ap (λ t. x ∷ t) (slice_join k n xs))

pub length-slice : (k : ℕ) (xs : List ℕ) → length (slice 0 k xs) ≡ min k (length xs)
length-slice zero xs = ground arith
length-slice (suc k) [] = ground arith
length-slice (suc k) (x ∷ xs) = grind (arith, length-slice k xs)

pub slice_whole : (k : ℕ) (xs : List ℕ) → length (slice 0 k xs) ≡ length xs → slice 0 k xs ≡ xs
slice_whole zero [] h = refl
slice_whole zero (x ∷ xs) h = absurd (omega arith)
slice_whole (suc k) [] h = refl
slice_whole (suc k) (x ∷ xs) h = ap (λ t. x ∷ t) (slice_whole k xs (omega arith))

slice_prefix : (k : ℕ) (xs : List ℕ) → slice 0 k xs ≡ slice 0 (length (slice 0 k xs)) xs
slice_prefix zero xs = refl
slice_prefix (suc k) [] = refl
slice_prefix (suc k) (x ∷ xs) = ap (λ t. x ∷ t) (slice_prefix k xs)

-- What the server holds of the upload `id` of the file `content`: the whole of it under its path when
-- the artifact is uploaded, and before that in the part file no other bytes than its first ones.
module _ (sha256 : List ℕ → String) (id : String) (content : List ℕ) where
  abbrev pub Stored : Artifact → Db → Type 0
  Stored a db =
      (is_uploaded a.status ≡ true)
      × (file_at db a.storage_path ≡ some (regular_file a.storage_path content))

  abbrev pub Arriving : Artifact → Db → Type 0
  Arriving a db =
      (is_uploaded a.status ≡ false) × ((k : ℕ) × (content_at db (part_path a) ≡ slice 0 k content))

  pub record Row (a : Artifact) (db : Db) : Type 0 where
    pub found : get_artifact db id ≡ ok a
    pub size : a.size_bytes ≡ length content
    pub digest : a.sha256 ≡ sha256 content

  unfoldable pub Receives : Db → Type 0
  Receives db = (a : Artifact) × Row a db × (Stored a db ⊎ Arriving a db)

  abbrev pub Whole : Db → Type 0
  Whole db = (a : Artifact) × Row a db × Stored a db

  -- An answer says that the upload is complete only when it is.
  unfoldable pub Answers : Upload → Db → Type 0
  Answers u db =
      ((is_uploaded u.artifact.status ≡ true) × Whole db) ⊎ (is_uploaded u.artifact.status ≡ false)

  -- An answer to a chunk says so too, or that more than the bytes before the chunk are there.
  unfoldable pub Advances : ℕ → Upload → Db → Type 0
  Advances offset u db =
      ((is_uploaded u.artifact.status ≡ true) × Whole db)
      ⊎ ((is_uploaded u.artifact.status ≡ false) × (offset < u.uploaded_bytes))

  -- What completes an upload returns the artifact as uploaded.
  unfoldable pub Completes : Artifact → Db → Type 0
  Completes a db = (is_uploaded a.status ≡ true) × Whole db

  pub valid-Stored :
      (a : Artifact) (db : Db)
      → Row a db
      → Stored a db
      → file_matches_artifact sha256 db a.storage_path a ≡ true
  valid-Stored a db row s =
      rw (s.1, row.size, row.digest)
        (ground (arith, beq_self (length content), beq_self (sha256 content)))

  pub mark_uploading :
      (now : Time) (a : Artifact) (db : Db)
      → Row a db
      → Arriving a db
      → (mark_artifact_uploading now id db
          ≡ (ok (uploading_row now a), set_artifact id (uploading_row now) db))
        × Row (uploading_row now a) (set_artifact id (uploading_row now) db)
        × Arriving (uploading_row now a) (set_artifact id (uploading_row now) db)
  unfolding mark_artifact_uploading ◌>>=◌ execute query file_at
  mark_uploading now a db row arriving =
      let found = get_artifact-set_artifact id (uploading_row now) a db (λ b. refl) row.found in
      (
        rw found refl,
        record { found = found; size = row.size; digest = row.digest },
        (refl, arriving.1),
      )

  pub mark_uploaded :
      (now : Time) (a : Artifact) (db : Db)
      → Row a db
      → file_at db a.storage_path ≡ some (regular_file a.storage_path content)
      → (mark_artifact_uploaded now id db
          ≡ (ok (uploaded_row now a), set_artifact id (uploaded_row now) db))
        × Row (uploaded_row now a) (set_artifact id (uploaded_row now) db)
        × Stored (uploaded_row now a) (set_artifact id (uploaded_row now) db)
  unfolding mark_artifact_uploaded ◌>>=◌ execute query file_at
  mark_uploaded now a db row file =
      let found = get_artifact-set_artifact id (uploaded_row now) a db (λ b. refl) row.found in
      (
        rw (row.found, found) refl,
        record { found = found; size = row.size; digest = row.digest },
        (refl, file),
      )

  -- A chunk of the file that is appended where it belongs.
  pub append_arriving :
      (now : Time) (k n : ℕ) (a : Artifact) (db : Db)
      → Row a db
      → (is_uploaded a.status ≡ false)
      → content_at db (part_path a) ≡ slice 0 k content
      → content_at (append_file (part_path a) (slice k n content) db) (part_path a)
        ≡ slice 0 (k + n) content
  append_arriving now k n a db row open_ have =
      rw
        (
          file_at-write_file (part_path a) (content_at db (part_path a) ++ slice k n content) db,
          have,
        )
        (slice_join k n content)

  pub Arriving-length :
      (a : Artifact) (db : Db)
      → Arriving a db
      → content_at db (part_path a) ≡ slice 0 (length (content_at db (part_path a))) content
  Arriving-length a db arriving = rw arriving.1.1 (slice_prefix arriving.1.0 content)

  pub Arriving-bounded :
      (a : Artifact) (db : Db)
      → Row a db
      → Arriving a db
      → min (length (content_at db (part_path a))) a.size_bytes
        ≡ length (content_at db (part_path a))
  Arriving-bounded a db row arriving =
      let l = length-slice arriving.1.0 content in rw (arriving.1.1, row.size) (omega arith)

  pub artifact_upload_status-Leaves :
      (db : Db) → Receives db → Leaves Receives Answers (artifact_upload_status sha256 id db)
  unfolding artifact_upload_status Leaves Receives Answers ◌>>=◌ query
  artifact_upload_status-Leaves db (a, row, inl s) =
      rw
        (
          row.found,
          s.1,
          row.size,
          row.digest,
          beq_self (length content),
          beq_self (sha256 content),
          s.0,
        )
        ((a, row, inl s), inl (s.0, (a, row, s)))
  artifact_upload_status-Leaves db (a, row, inr s) = rw (row.found, s.0) ((a, row, inr s), inr s.0)
