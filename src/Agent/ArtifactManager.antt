-- ===== src/Agent/ArtifactManager.antt =====
-- worker/artifact_manager.py: the upload of a file of results in chunks, over a network that loses
-- requests and answers. What the uploader knows of the server is the interface `Server`.
use cloudlink.Prelude.{
  ℕ, zero, suc, ◌+◌, ◌-◌, true, false, List, Option, none, some, ◌==◌, ℤ, pos, negsuc, max, nat_eq,
  ltb, leb, min, length, not, ◌||◌,
}
use cloudlink.Database.Tasks.{Time, Artifact}
use cloudlink.Database.Action.{Action}
use cloudlink.ArtifactStore.{Upload, slice, is_uploaded}
use cloudlink.Agent.Network.{Response, reply, failure, Net, send}
use cloudlink.Agent.ApiClient.{with_retries}

-- The requests of an upload, as the server answers them at a time.
pub record Server : Type 0 where
  pub upload_status : Time → Action Upload
  pub put_chunk : ℕ → List ℕ → Time → Action Upload
  pub complete : Time → Action Artifact

-- The setting, when it is an integer.
unfoldable pub artifact_chunk_bytes : Option ℤ → ℕ
artifact_chunk_bytes none = 262144
artifact_chunk_bytes (some (pos n)) = max 1 n
artifact_chunk_bytes (some (negsuc n)) = 1

pub record UploadSettings : Type 0 where
  pub configured_chunk_bytes : Option ℤ
  pub upload_retries : ℕ
  pub default_retries : ℕ

pub data Outcome : Type 0 where
  uploaded_all upload_failed out_of_rounds : Outcome

module _ (server : Server) (settings : UploadSettings) where
  unfoldable pub get_status : Net → Response Upload × Net
  get_status net = with_retries (send server.upload_status) settings.default_retries net

  abbrev pub status_says : Response Upload × Net → Outcome × Net
  status_says (reply u, net) = elim (is_uploaded u.artifact.status) [
    | true ↦ (uploaded_all, net)
    | false ↦ (upload_failed, net)
  ]
  status_says (failure f, net) = (upload_failed, net)

  abbrev pub completed : Response Artifact × Net → Outcome × Net
  completed (reply a, net) = elim (is_uploaded a.status) [
    | true ↦ (uploaded_all, net)
    | false ↦ status_says (get_status net)
  ]
  completed (failure f, net) = status_says (get_status net)

  unfoldable pub complete_upload : Net → Outcome × Net
  complete_upload net = completed (with_retries (send server.complete) settings.upload_retries net)

  -- After an exception of the request for a chunk: the server says how much it has. `next` are the
  -- further rounds, from an offset and a number of attempts on.
  abbrev pub after_error :
      (ℕ → ℕ → Net → Outcome × Net) → ℕ → ℕ → Response Upload × Net → Outcome × Net
  after_error next offset chunk_attempt (failure g, net) = (upload_failed, net)
  after_error next offset chunk_attempt (reply u, net) = elim (is_uploaded u.artifact.status) [
    | true ↦ (uploaded_all, net)
    | false ↦ elim (ltb offset u.uploaded_bytes) [
      | true ↦ next u.uploaded_bytes 0 net
      | false ↦ elim (leb (settings.upload_retries + 1) chunk_attempt) [
        | true ↦ (upload_failed, net)
        | false ↦ next offset chunk_attempt net
      ]
    ]
  ]

  abbrev pub after_put :
      (ℕ → ℕ → Net → Outcome × Net) → ℕ → ℕ → Response Upload × Net → Outcome × Net
  after_put next offset chunk_attempt (failure f, net) =
      after_error next offset chunk_attempt (get_status net)
  after_put next offset chunk_attempt (reply u, net) = elim (is_uploaded u.artifact.status) [
    | true ↦ (uploaded_all, net)
    | false ↦ next u.uploaded_bytes 0 net
  ]

  abbrev pub chunk_from : ℕ → List ℕ → List ℕ
  chunk_from offset content =
      slice offset
        (min (artifact_chunk_bytes settings.configured_chunk_bytes) (length content - offset))
        content

  -- The `while` loop over the chunks, for a number of rounds.
  unfoldable pub send_chunks : ℕ → List ℕ → ℕ → ℕ → Net → Outcome × Net
  send_chunks zero content offset chunk_attempt net = (out_of_rounds, net)
  send_chunks (suc rounds) content offset chunk_attempt net =
      elim (not (ltb offset (length content)) || length (chunk_from offset content) == 0) [
        | true ↦ complete_upload net
        | false ↦
            after_put (λ o a n. send_chunks rounds content o a n) offset (chunk_attempt + 1)
              (send (server.put_chunk offset (chunk_from offset content)) net)
      ]

  abbrev pub first_status : ℕ → List ℕ → Response Upload × Net → Outcome × Net
  first_status rounds content (failure f, net) = (upload_failed, net)
  first_status rounds content (reply u, net) = elim (is_uploaded u.artifact.status) [
    | true ↦ (uploaded_all, net)
    | false ↦ send_chunks rounds content u.uploaded_bytes 0 net
  ]

  unfoldable pub upload_file_chunks : ℕ → List ℕ → Net → Outcome × Net
  upload_file_chunks rounds content net = first_status rounds content (get_status net)
