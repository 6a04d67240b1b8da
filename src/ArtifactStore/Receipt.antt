-- ===== src/ArtifactStore/Receipt.antt =====
-- The operations of an upload keep what the server holds of it: chunks, in any order and sent again, and
-- its completion.
use cloudlink.Prelude.{
  ◌<◌, ℕ, ◌+◌, true, not, String, List, [], ◌∷◌, some, ◌≡◌, refl, sym, ap, ◌∙◌, inl, inr, arith,
  ◌==◌, nat_eq, string_eq, length, ltb, pos, eq_of_beq,
}
use cloudlink.Errors.{ok}
use cloudlink.Database.Tasks.{Time, Artifact}
use cloudlink.Database.Action.{Db, ◌>>=◌, ◌>>◌, query, execute, pure}
use cloudlink.Database.Safe.{
  passed, Leaves, Leaves-query, Leaves-read, Leaves-step, Leaves-execute, Leaves-pure, Leaves-raise,
  Leaves-if,
}
use cloudlink.ArtifactStore.Disk.{
  file_at, content_at, regular_file, write_file, append_file, move_file, unlink, file_at-write_file,
}
use cloudlink.ArtifactStore.{
  get_artifact, uploaded_row, uploading_row, mark_artifact_uploaded, part_path, is_created, slice,
  artifact_upload_status, resend_chunk, append_chunk, receive_chunk, store_artifact_chunk,
  complete_empty, complete_part, complete_artifact_upload,
}
use cloudlink.ArtifactStore.Laws.{
  Row, Arriving, Receives, Advances, Completes, valid-Stored, mark_uploading, mark_uploaded,
  append_arriving, Arriving-length, Arriving-bounded, slice_whole, length-slice,
}

module _ (sha256 : List ℕ → String) (id : String) (content : List ℕ) where
  append_chunk-Leaves :
      (now : Time) (offset n : ℕ) (a : Artifact) (db : Db)
      → Row sha256 id content a db
      → Arriving sha256 id content a db
      → offset ≡ length (content_at db (part_path a))
      → offset < length content
      → 0 < n
      → Leaves
          (Receives sha256 id content)
          (Advances sha256 id content offset)
          (append_chunk sha256 now id (slice offset n content) a db)
  unfolding Leaves Receives Advances ◌>>=◌ execute query pure file_at get_artifact
  append_chunk-Leaves now offset n a db row arriving at_end short some_bytes =
      let chunk = slice offset n content in
      let have : content_at db (part_path a) ≡ slice 0 offset content =
        rw at_end (Arriving-length sha256 id content a db arriving) in
      let after : Db = append_file (part_path a) chunk db in
      let now_there : content_at after (part_path a) ≡ slice 0 (offset + n) content =
        append_arriving sha256 id content now offset n a db row arriving.0 have in
      let row' : Row sha256 id content a after = record {
        found = row.found;
        size = row.size;
        digest = row.digest;
      } in
      let m =
        mark_uploading sha256 id content now a after row' (arriving.0, (offset + n, now_there)) in
      let l = length-slice (offset + n) content in
      rw m.0 ((uploading_row now a, m.1, inr m.2), inr (refl, rw now_there (omega arith)))

  status-Arriving :
      (a : Artifact) (db : Db)
      → Row sha256 id content a db
      → Arriving sha256 id content a db
      → artifact_upload_status sha256 id db
        ≡ (ok (record { artifact = a; uploaded_bytes = length (content_at db (part_path a)) }), db)
  unfolding artifact_upload_status ◌>>=◌ query
  status-Arriving a db row arriving =
      rw (row.found, arriving.0, Arriving-bounded sha256 id content a db row arriving) refl

  resend_chunk-Leaves :
      (now : Time) (offset : ℕ) (chunk : List ℕ) (a : Artifact) (db : Db)
      → Row sha256 id content a db
      → Arriving sha256 id content a db
      → offset < length (content_at db (part_path a))
      → Leaves
          (Receives sha256 id content)
          (Advances sha256 id content offset)
          (resend_chunk sha256 now id offset chunk a db)
  unfolding Receives Advances
  resend_chunk-Leaves now offset chunk a db row arriving behind =
      let held : Receives sha256 id content db = (a, row, inr arriving) in
      let m = mark_uploading sha256 id content now a db row arriving in
      Leaves-query _ _ _ _ db held λ have read. Leaves-query _ _ _ _ db held λ _ _.
        Leaves-step _ _ _ _ db db _ (status-Arriving a db row arriving) (
          Leaves-if _ _ (is_created a.status) _ _ db
            (λ _.
              Leaves-step _ _ _ _ db _ _ m.0 (
                Leaves-pure _ _ _ _ (uploading_row now a, m.1, inr m.2) (inr (refl, ground arith))))
            (λ _. Leaves-pure _ _ _ db held (inr (arriving.0, behind))))

  receive_chunk-Leaves :
      (now : Time) (offset n : ℕ) (a : Artifact) (db : Db)
      → Row sha256 id content a db
      → Arriving sha256 id content a db
      → offset < length content
      → 0 < n
      → Leaves
          (Receives sha256 id content)
          (Advances sha256 id content offset)
          (receive_chunk sha256 now id offset (slice offset n content) a db)
  unfolding Receives
  receive_chunk-Leaves now offset n a db row arriving short some_bytes =
      let held : Receives sha256 id content db = (a, row, inr arriving) in
      let size = length (content_at db (part_path a)) in
      Leaves-query _ _ _ _ db held λ _ _. Leaves-read _ _ _ _ db size refl (
        Leaves-if _ _ (ltb offset size) _ _ db
          (λ before.
            resend_chunk-Leaves now offset (slice offset n content) a db row arriving
              (ground arith))
          (λ not_before.
            Leaves-if _ _ (not (offset == size)) _ _ db (λ gap. Leaves-raise _ _ _ db held)
              (λ at_end.
                append_chunk-Leaves now offset n a db row arriving (ground arith) short
                  some_bytes)))

  -- A chunk of the file, at any offset and whenever it comes: what the server holds of the upload stays true to the file.
  pub store_artifact_chunk-Leaves :
      (now : Time) (offset n : ℕ) (db : Db)
      → Receives sha256 id content db
      → offset < length content
      → 0 < n
      → Leaves
          (Receives sha256 id content)
          (Advances sha256 id content offset)
          (store_artifact_chunk sha256 now id (pos offset) (slice offset n content) db)
  unfolding store_artifact_chunk Receives Advances artifact_upload_status Leaves ◌>>=◌ query
  store_artifact_chunk-Leaves now offset n db (a, row, inl s) short some_bytes =
      let valid = valid-Stored sha256 id content a db row s in
      rw (row.found, s.0, valid, row.found, s.0, valid) ((a, row, inl s), inl (s.0, (a, row, s)))
  store_artifact_chunk-Leaves now offset n db (a, row, inr s) short some_bytes =
      rw (row.found, s.0) (receive_chunk-Leaves now offset n a db row s short some_bytes)

  finish :
      (now : Time) (a : Artifact) (db : Db)
      → Row sha256 id content a db
      → file_at db a.storage_path ≡ some (regular_file a.storage_path content)
      → Leaves
          (Receives sha256 id content)
          (Completes sha256 id content)
          (mark_artifact_uploaded now id db)
  unfolding Receives Completes Leaves
  finish now a db row file =
      let m = mark_uploaded sha256 id content now a db row file in
      rw m.0 ((uploaded_row now a, m.1, inl m.2), (refl, (uploaded_row now a, m.1, m.2)))

  -- The file is written whole, and the artifact is marked.
  store-Leaves :
      (now : Time) (a : Artifact) (db after : Db)
      → Row sha256 id content a db
      → Leaves
          (Receives sha256 id content)
          (Completes sha256 id content)
          ((execute (write_file a.storage_path content) >> mark_artifact_uploaded now id) db)
  unfolding get_artifact
  store-Leaves now a db after row = Leaves-execute _ _ _ _ db (
      finish now a (write_file a.storage_path content db)
        (record { found = row.found; size = row.size; digest = row.digest })
        (file_at-write_file a.storage_path content db))

  complete_part-Leaves :
      (now : Time) (a : Artifact) (db : Db)
      → Row sha256 id content a db
      → Arriving sha256 id content a db
      → Leaves
          (Receives sha256 id content)
          (Completes sha256 id content)
          (complete_part sha256 now id a db)
  unfolding Receives get_artifact
  complete_part-Leaves now a db row arriving =
      let held : Receives sha256 id content db = (a, row, inr arriving) in
      let have = content_at db (part_path a) in
      Leaves-query _ _ _ _ db held λ _ _. Leaves-read _ _ _ _ db have refl (
        Leaves-query _ _ _ _ db held λ _ full. Leaves-query _ _ _ _ db held λ _ _.
          Leaves-execute _ _ _ _ db (
            let all_of_it : length have ≡ length content =
              eq_of_beq (length have) a.size_bytes (passed _ _ _ full) ∙ row.size in
            let same : have ≡ content =
              arriving.1.1
              ∙ slice_whole arriving.1.0 content (ap length (sym arriving.1.1) ∙ all_of_it) in
            let moved = file_at-write_file a.storage_path have (unlink (part_path a) db) in
            finish now a (move_file (part_path a) a.storage_path db)
              (record { found = row.found; size = row.size; digest = row.digest })
              (moved ∙ ap (λ c. some (regular_file a.storage_path c)) same)))

  complete_empty-Leaves :
      (now : Time) (a : Artifact) (db : Db)
      → Row sha256 id content a db
      → Arriving sha256 id content a db
      → content ≡ []
      → Leaves
          (Receives sha256 id content)
          (Completes sha256 id content)
          (complete_empty sha256 now id a db)
  unfolding Receives get_artifact
  complete_empty-Leaves now a db row arriving empty =
      let held : Receives sha256 id content db = (a, row, inr arriving) in
      Leaves-query _ _ _ _ db held λ _ _. Leaves-execute _ _ _ _ db (
        let written = file_at-write_file a.storage_path [] db in
        finish now a (write_file a.storage_path [] db)
          (record { found = row.found; size = row.size; digest = row.digest }) (rw empty written))

  no_bytes : (xs : List ℕ) → length xs ≡ 0 → xs ≡ []
  no_bytes [] h = refl
  no_bytes (x ∷ xs) h = absurd (omega arith)

  -- An upload completes only with the bytes of the file.
  pub complete_artifact_upload-Leaves :
      (now : Time) (db : Db)
      → Receives sha256 id content db
      → Leaves
          (Receives sha256 id content)
          (Completes sha256 id content)
          (complete_artifact_upload sha256 now id db)
  unfolding complete_artifact_upload Receives Completes
  complete_artifact_upload-Leaves now db (a, row, inl s) =
      let valid = valid-Stored sha256 id content a db row s in
      let held : Receives sha256 id content db = (a, row, inl s) in
      Leaves-read _ _ _ _ db a row.found (
        Leaves-read _ _ _ _ db true (ap ok valid)
          (rw s.0 (Leaves-pure _ _ a db held (s.0, (a, row, s)))))
  complete_artifact_upload-Leaves now db (a, row, inr s) =
      let held : Receives sha256 id content db = (a, row, inr s) in
      Leaves-read _ _ _ _ db a row.found (
        Leaves-query _ _ _ _ db held λ _ _. rw s.0 (
          Leaves-if _ _ (a.size_bytes == 0) _ _ db
            (λ none_left.
              complete_empty-Leaves now a db row s
                (no_bytes content (sym row.size ∙ eq_of_beq a.size_bytes 0 none_left)))
            (λ some_left. complete_part-Leaves now a db row s)))
