-- ===== src/ArtifactStore.antt =====
-- app/artifact_store.py: the results that workers upload, whole or in chunks. `sha256` is the digest of
-- bytes, `data_root` the resolved data directory, `artifact_id` the fresh `uuid4`. A task identifier is
-- a single part of a path.
pub mod Disk
pub mod Laws
pub mod Receipt
pub mod Paths
use cloudlink.Prelude.{
  ℕ, zero, suc, ◌+◌, Bool, true, false, ◌&&◌, ◌||◌, not, String, List, [], ◌∷◌, ◌++◌, Option, none,
  some, if◌then◌else◌, ◌==◌, nat_eq, string_eq, option_eq, ltb, min, length, find, any, select,
  update_where, or_else, strip, non_empty, text_or, ℤ, pos, negsuc, is_some,
}
use cloudlink.Prelude.Paths.{◌+++◌, path_parts, last_part, join_parts, has_backslash, is_absolute}
use cloudlink.Errors.{
  Result, ok, err, or_raise, raise_if, artifact_conflict, artifact_not_found, artifact_gone,
  integrity_error,
}
use cloudlink.Database.Tasks.{
  Time, Task, Artifact, ArtifactStatus, created, uploading, uploaded, purging, purged,
}
use cloudlink.Database.Storage.{File}
use cloudlink.Database.Action.{Db, Action, ◌>>=◌, ◌>>◌, query, execute, pure, raise}
use cloudlink.TaskStore.Queue.{has_id}
use cloudlink.ArtifactStore.Disk.{
  file_at, exists, content_at, content_of, write_file, append_file, move_file,
}

abbrev pub unsafe_path : String
unsafe_path = "artifact relative_path must stay inside outputs"

-- `safe_relative_path`: the parts of the path.
unfoldable pub safe_relative_path : String → Result (List String)
safe_relative_path value =
    if not (non_empty (strip value))
    then err (artifact_conflict unsafe_path)
    else if is_absolute value || any (λ w. w == "..") (path_parts value) || has_backslash value
    then err (artifact_conflict unsafe_path)
    else if not (non_empty (last_part (path_parts value)))
    then err (artifact_conflict unsafe_path)
    else ok (path_parts value)

abbrev pub has_artifact_id : String → Artifact → Bool
has_artifact_id id a = a.id == id

unfoldable pub get_artifact : Db → String → Result Artifact
get_artifact db id = or_raise (find (has_artifact_id id) db.artifacts) (artifact_not_found id)

abbrev pub at_task_path : String → String → Artifact → Bool
at_task_path task_id path a = a.task_id == task_id && a.relative_path == path

unfoldable pub get_artifact_for_task_path : Db → String → String → Result Artifact
get_artifact_for_task_path db task_id relative_path = elim (safe_relative_path relative_path) [
  | err e ↦ err e
  | ok parts ↦
      or_raise (find (at_task_path task_id (join_parts parts)) db.artifacts)
        (artifact_not_found relative_path)
]

abbrev pub set_artifact : String → (Artifact → Artifact) → Db → Db
set_artifact id f db = record db { artifacts = update_where (has_artifact_id id) f db.artifacts }

-- The arguments of `create_artifact_record`.
pub record NewArtifact : Type 0 where
  pub task_id : String
  pub worker_id : String
  pub lease_id : String
  pub relative_path : String
  pub title : String
  pub description : String
  pub meaning : String
  pub content_type : Option String
  pub size_bytes : ℕ
  pub sha256 : String
  pub required : Bool

abbrev pub storage_path_of : String → String → String → String → String
storage_path_of data_root task_id artifact_id name =
    data_root +++ ("/artifacts/tasks/" +++ (task_id +++ ("/" +++ (artifact_id +++ ("/" +++ name)))))

abbrev pub artifact_of : String → Time → String → NewArtifact → List String → Artifact
artifact_of data_root now artifact_id n parts = record {
  id = artifact_id;
  task_id = n.task_id;
  worker_id = n.worker_id;
  lease_id = n.lease_id;
  relative_path = join_parts parts;
  display_name = last_part parts;
  title = text_or n.title (last_part parts);
  description = n.description;
  meaning = n.meaning;
  content_type = n.content_type;
  size_bytes = n.size_bytes;
  sha256 = n.sha256;
  storage_path = storage_path_of data_root n.task_id artifact_id (last_part parts);
  status = created;
  required = n.required;
  created_at = now;
  updated_at = now;
  expires_at = none;
  purged_at = none;
  purge_reason = none;
  purged_size_bytes = 0;
}

abbrev same_flag : Bool → Bool → Bool
same_flag true b = b
same_flag false b = not b

-- `all(existing[key] == artifact_values[key] for key in matching_keys)`
abbrev pub matches : Artifact → Artifact → Bool
matches a b =
    a.worker_id == b.worker_id
    && a.lease_id == b.lease_id
    && a.relative_path == b.relative_path
    && a.display_name == b.display_name
    && a.title == b.title
    && a.description == b.description
    && a.meaning == b.meaning
    && a.content_type == b.content_type
    && a.size_bytes == b.size_bytes
    && a.sha256 == b.sha256
    && same_flag a.required b.required

-- The constraints of the table: its key, one row for a path of a task, and a task that exists.
abbrev pub violates : Db → Artifact → Bool
violates db a =
    any (has_artifact_id a.id) db.artifacts
    || any (at_task_path a.task_id a.relative_path) db.artifacts
    || not (any (has_id a.task_id) db.tasks)

-- The handler of `IntegrityError`.
abbrev pub existing_or_conflict : Artifact → Action Artifact
existing_or_conflict a = do
  existing ← query (λ db. get_artifact_for_task_path db a.task_id a.relative_path)
  if matches existing a then pure existing else raise (artifact_conflict "IntegrityError")

abbrev pub insert_artifact : Artifact → Action Artifact
insert_artifact a db =
    if violates db a
    then existing_or_conflict a db
    else (execute (λ d. record d { artifacts = d.artifacts ++ a ∷ [] })
          >> query (λ d. get_artifact d a.id))
        db

unfoldable pub create_artifact_record : String → Time → String → NewArtifact → Action Artifact
create_artifact_record data_root now artifact_id n = do
  parts ← query (λ db. safe_relative_path n.relative_path)
  insert_artifact (artifact_of data_root now artifact_id n parts)

abbrev pub uploaded_row : Time → Artifact → Artifact
uploaded_row now a = record a { status = uploaded; updated_at = now }

-- `mark_artifact_uploaded` as the stores call it, without a new size and digest.
unfoldable pub mark_artifact_uploaded : Time → String → Action Artifact
mark_artifact_uploaded now id = do
  query (λ db. get_artifact db id)
  execute (set_artifact id (uploaded_row now))
  query (λ db. get_artifact db id)

abbrev pub uploading_row : Time → Artifact → Artifact
uploading_row now a = record a { status = uploading; updated_at = now }

unfoldable pub mark_artifact_uploading : Time → String → Action Artifact
mark_artifact_uploading now id = do
  execute (set_artifact id (uploading_row now))
  query (λ db. get_artifact db id)

abbrev pub part_path : Artifact → String
part_path a = a.storage_path +++ ".part"

abbrev pub is_uploaded : ArtifactStatus → Bool
is_uploaded uploaded = true
is_uploaded _ = false

abbrev pub is_created : ArtifactStatus → Bool
is_created created = true
is_created _ = false

-- An artifact with the bytes that have arrived.
pub record Upload : Type 0 where
  pub artifact : Artifact
  pub uploaded_bytes : ℕ

abbrev pub slice : ℕ → ℕ → List ℕ → List ℕ
slice zero zero xs = []
slice zero (suc n) [] = []
slice zero (suc n) (x ∷ xs) = x ∷ slice zero n xs
slice (suc k) n [] = []
slice (suc k) n (x ∷ xs) = slice k n xs

abbrev pub same_bytes : List ℕ → List ℕ → Bool
same_bytes [] [] = true
same_bytes [] (b ∷ t) = false
same_bytes (a ∷ s) [] = false
same_bytes (a ∷ s) (b ∷ t) = a == b && same_bytes s t

module _ (sha256 : List ℕ → String) where
  abbrev pub file_matches_artifact : Db → String → Artifact → Bool
  file_matches_artifact db path a =
      exists db path
      && length (content_at db path) == a.size_bytes
      && sha256 (content_at db path) == a.sha256

  abbrev pub upload_status_of : Db → Artifact → Result Upload
  upload_status_of db a =
      if is_uploaded a.status
      then if file_matches_artifact db a.storage_path a
        then ok (record { artifact = a; uploaded_bytes = a.size_bytes })
        else err (artifact_conflict "uploaded artifact content is missing or invalid")
      else ok (record {
        artifact = a;
        uploaded_bytes = min (length (content_at db (part_path a))) a.size_bytes;
      })

  unfoldable pub artifact_upload_status : String → Action Upload
  artifact_upload_status id = do
    artifact ← query (λ db. get_artifact db id)
    query (λ db. upload_status_of db artifact)

  unfoldable pub store_artifact_content : Time → String → List ℕ → Action Artifact
  store_artifact_content now id content = do
    artifact ← query (λ db. get_artifact db id)
    query (λ db.
        raise_if (not (length content == artifact.size_bytes))
          (artifact_conflict "artifact upload size does not match"))
    query (λ db.
        raise_if (not (sha256 content == artifact.sha256))
          (artifact_conflict "artifact upload sha256 does not match"))
    stored ← query (λ db. ok (exists db artifact.storage_path))
    valid ← query (λ db. ok (file_matches_artifact db artifact.storage_path artifact))
    if is_uploaded artifact.status && stored
        then if valid
          then pure artifact
          else raise (artifact_conflict "uploaded artifact content does not match")
        else execute (write_file artifact.storage_path content) >> mark_artifact_uploaded now id

  -- A chunk that lies behind the end of what has arrived: it must be there already.
  abbrev pub resend_chunk : Time → String → ℕ → List ℕ → Artifact → Action Upload
  resend_chunk now id offset content artifact = do
    have ← query (λ db. ok (content_at db (part_path artifact)))
    query (λ db.
        raise_if (not (same_bytes (slice offset (length content) have) content))
          (artifact_conflict "artifact chunk offset is behind uploaded bytes"))
    status ← artifact_upload_status id
    if is_created status.artifact.status
        then (do
          marked ← mark_artifact_uploading now id
          pure (record { artifact = marked; uploaded_bytes = length have }))
        else pure status

  abbrev pub append_chunk : Time → String → List ℕ → Artifact → Action Upload
  append_chunk now id content artifact = do
    execute (append_file (part_path artifact) content)
    marked ← mark_artifact_uploading now id
    have ← query (λ db. ok (content_at db (part_path artifact)))
    pure (record { artifact = marked; uploaded_bytes = length have })

  abbrev pub receive_chunk : Time → String → ℕ → List ℕ → Artifact → Action Upload
  receive_chunk now id offset content artifact = do
    query (λ db.
        raise_if (ltb artifact.size_bytes (offset + length content))
          (artifact_conflict "artifact chunk exceeds declared size"))
    current ← query (λ db. ok (length (content_at db (part_path artifact))))
    if ltb offset current
        then resend_chunk now id offset content artifact
        else if not (offset == current)
        then raise (artifact_conflict "artifact chunk offset does not match uploaded bytes")
        else append_chunk now id content artifact

  abbrev pub chunk_at : Time → String → ℕ → List ℕ → Action Upload
  chunk_at now id offset content = do
    artifact ← query (λ db. get_artifact db id)
    valid ← query (λ db. ok (file_matches_artifact db artifact.storage_path artifact))
    if is_uploaded artifact.status
        then if valid
          then artifact_upload_status id
          else raise (artifact_conflict "uploaded artifact content is missing or invalid")
        else receive_chunk now id offset content artifact

  unfoldable pub store_artifact_chunk : Time → String → ℤ → List ℕ → Action Upload
  store_artifact_chunk now id (negsuc n) content =
      raise (artifact_conflict "artifact chunk offset must be non-negative")
  store_artifact_chunk now id (pos offset) content = chunk_at now id offset content

  abbrev pub complete_empty : Time → String → Artifact → Action Artifact
  complete_empty now id artifact = do
    query (λ db.
        raise_if (not (artifact.sha256 == sha256 []))
          (artifact_conflict "artifact upload sha256 does not match"))
    execute (write_file artifact.storage_path [])
    mark_artifact_uploaded now id

  abbrev pub complete_part : Time → String → Artifact → Action Artifact
  complete_part now id artifact = do
    query (λ db.
        raise_if (not (exists db (part_path artifact)))
          (artifact_conflict "artifact upload has no partial content"))
    have ← query (λ db. ok (content_at db (part_path artifact)))
    query (λ db.
        raise_if (not (length have == artifact.size_bytes))
          (artifact_conflict "artifact upload is incomplete"))
    query (λ db.
        raise_if (not (sha256 have == artifact.sha256))
          (artifact_conflict "artifact upload sha256 does not match"))
    execute (move_file (part_path artifact) artifact.storage_path)
    mark_artifact_uploaded now id

  unfoldable pub complete_artifact_upload : Time → String → Action Artifact
  complete_artifact_upload now id = do
    artifact ← query (λ db. get_artifact db id)
    valid ← query (λ db. ok (file_matches_artifact db artifact.storage_path artifact))
    if is_uploaded artifact.status
        then if valid
          then pure artifact
          else raise (artifact_conflict "uploaded artifact content is missing or invalid")
        else if artifact.size_bytes == 0
        then complete_empty now id artifact
        else complete_part now id artifact

abbrev pub is_purged : ArtifactStatus → Bool
is_purged purging = true
is_purged purged = true
is_purged _ = false

unfoldable pub get_uploaded_artifact_path : Db → String → Result String
get_uploaded_artifact_path db id = elim (get_artifact db id) [
  | err e ↦ err e
  | ok a ↦
      if is_purged a.status
      then err (artifact_gone id)
      else if not (is_uploaded a.status)
      then err (artifact_conflict "artifact is not uploaded")
      else if not (exists db a.storage_path)
      then err (artifact_not_found id)
      else ok a.storage_path
]
