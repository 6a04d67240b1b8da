-- ===== src/Web/Laws.antt =====
-- The endpoints keep what the store functions behind them keep.
use cloudlink.Prelude.{ℕ, String, List, ◌<◌, ◌+◌, ◌*◌, ◌≢◌, ◌⊎◌, pos, length}
use cloudlink.Errors.{Result, ok, err}
use cloudlink.Database.Action.{Db, Settings, Action}
use cloudlink.Database.Safe.{Leaves, Leaves-query, Leaves-last, Leaves-then}
use cloudlink.ArtifactStore.Laws.{Receives, Whole, artifact_upload_status-Leaves}
use cloudlink.ArtifactStore.Receipt.{store_artifact_chunk-Leaves, complete_artifact_upload-Leaves}
use cloudlink.Web.Auth.{endpoint, answer}
use cloudlink.Web.Uploads.{
  on_own_artifact, api_worker_artifact_upload_status, api_worker_upload_artifact_chunk,
  api_worker_complete_artifact_upload,
}
use cloudlink.Agent.Network.{Net}
use cloudlink.Agent.ArtifactManager.{
  Server, UploadSettings, uploaded_all, out_of_rounds, upload_file_chunks,
}
use cloudlink.Agent.Delivery.{IsFaithful, upload_delivers, upload_ends}

module _ {A : Type 0} (P : Db → Type 0) (Q : A → Db → Type 0) where
  endpoint-Leaves : (m : Action A) (db : Db) → Leaves P Q (m db) → Leaves P Q (endpoint m db)
  unfolding endpoint Leaves
  endpoint-Leaves m db h = go (m db) h
    where
      go : (x : Result A × Db) → Leaves P Q x → Leaves P Q (answer x)
      go (ok a, after) l = l
      go (err e, after) l = l

  on_own_artifact-Leaves :
      (digest : String → String) (sha256 : List ℕ → String) (settings : Settings)
      (task_id artifact_id worker_token : String) (m : Action A) (db : Db)
      → P db
      → Leaves P Q (m db)
      → Leaves P Q (on_own_artifact digest sha256 settings task_id artifact_id worker_token m db)
  on_own_artifact-Leaves digest sha256 settings task_id artifact_id worker_token m db p h =
      Leaves-query P Q _ _ db p λ _ _. Leaves-query P Q _ _ db p λ _ _.
        Leaves-query P Q _ _ db p λ _ _.
          Leaves-then P Q _ _ db (Leaves-query P _ _ _ db p λ _ _. Leaves-last P _ _ db p λ _ _. h)

  own_artifact-Leaves :
      (digest : String → String) (sha256 : List ℕ → String) (settings : Settings)
      (task_id artifact_id worker_token : String) (m : Action A) (db : Db)
      → P db
      → Leaves P Q (m db)
      → Leaves P Q
          (endpoint (on_own_artifact digest sha256 settings task_id artifact_id worker_token m) db)
  own_artifact-Leaves digest sha256 settings task_id artifact_id worker_token m db p h =
      endpoint-Leaves _ db
        (on_own_artifact-Leaves digest sha256 settings task_id artifact_id worker_token m db p h)

-- The server as the uploader of an artifact sees it.
unfoldable pub api_server :
    (String → String) → (List ℕ → String) → Settings → String → String → String → Server
api_server digest sha256 settings task_id artifact_id worker_token = record {
  upload_status = λ now.
      api_worker_artifact_upload_status digest sha256 settings task_id artifact_id worker_token;
  put_chunk = λ offset chunk now.
      api_worker_upload_artifact_chunk digest sha256 settings now task_id artifact_id worker_token
        (pos offset) chunk;
  complete = λ now.
      api_worker_complete_artifact_upload digest sha256 settings now task_id artifact_id
        worker_token;
}

pub api_server-IsFaithful :
    (digest : String → String) (sha256 : List ℕ → String) (settings : Settings)
    (task_id artifact_id worker_token : String) (content : List ℕ)
    → IsFaithful sha256 artifact_id content
        (api_server digest sha256 settings task_id artifact_id worker_token)
unfolding api_server api_worker_artifact_upload_status api_worker_upload_artifact_chunk
    api_worker_complete_artifact_upload
api_server-IsFaithful digest sha256 settings task_id artifact_id worker_token content = record {
  status_keeps = λ now db p.
      own_artifact-Leaves _ _ digest sha256 settings task_id artifact_id worker_token _ db p
        (artifact_upload_status-Leaves sha256 artifact_id content db p);
  chunk_keeps = λ now offset n db p short some_bytes.
      own_artifact-Leaves _ _ digest sha256 settings task_id artifact_id worker_token _ db p
        (store_artifact_chunk-Leaves sha256 artifact_id content now offset n db p short some_bytes);
  complete_keeps = λ now db p.
      own_artifact-Leaves _ _ digest sha256 settings task_id artifact_id worker_token _ db p
        (complete_artifact_upload-Leaves sha256 artifact_id content now db p);
}

-- For every behaviour of the network, each request and each answer arriving or getting lost, and for every chunk size and
-- number of retries: if the server holds of an artifact nothing but the first bytes of a file of its declared size and
-- digest, or all of the file when it is uploaded, that stays so throughout an upload of the file by a worker; and an
-- upload that ends well has stored the file under the path of the artifact, which is marked as uploaded.
pub upload_file_chunks_stores :
    (digest : String → String) (sha256 : List ℕ → String) (settings : Settings)
    (task_id artifact_id worker_token : String) (content : List ℕ) (uploader : UploadSettings)
    (rounds : ℕ) (net : Net)
    → Receives sha256 artifact_id content net.db
    → let sent =
        upload_file_chunks
          (api_server digest sha256 settings task_id artifact_id worker_token)
          uploader
          rounds
          content
          net in
      Receives sha256 artifact_id content sent.1.db
      × (Whole sha256 artifact_id content sent.1.db ⊎ (sent.0 ≢ uploaded_all))
upload_file_chunks_stores digest sha256 settings task_id artifact_id worker_token content uploader
      rounds net h =
    upload_delivers sha256 artifact_id content
      (api_server digest sha256 settings task_id artifact_id worker_token) uploader
      (api_server-IsFaithful digest sha256 settings task_id artifact_id worker_token content) rounds
      net h

-- Every upload ends, whatever the network does: under the same condition more rounds than the bytes of the file times the
-- attempts for a chunk are never used up.
pub upload_file_chunks_ends :
    (digest : String → String) (sha256 : List ℕ → String) (settings : Settings)
    (task_id artifact_id worker_token : String) (content : List ℕ) (uploader : UploadSettings)
    (rounds : ℕ) (net : Net)
    → Receives sha256 artifact_id content net.db
    → length content * (uploader.upload_retries + 1) < rounds
    → (upload_file_chunks
        (api_server digest sha256 settings task_id artifact_id worker_token)
        uploader
        rounds
        content
        net).0
      ≢ out_of_rounds
upload_file_chunks_ends digest sha256 settings task_id artifact_id worker_token content uploader
      rounds net h enough =
    upload_ends sha256 artifact_id content
      (api_server digest sha256 settings task_id artifact_id worker_token) uploader
      (api_server-IsFaithful digest sha256 settings task_id artifact_id worker_token content) rounds
      net h enough
