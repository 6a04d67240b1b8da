-- ===== src/Tests/Uploads.antt =====
-- An upload over a bad network, and the theorems on uploads at it.
use cloudlink.Prelude.{
  ℕ, true, false, String, List, [], ◌∷◌, none, some, ◌≡◌, ◌≢◌, ◌⊎◌, refl, inr, arith, strip, ℤ, All,
}
use cloudlink.Prelude.Paths.{path_parts, is_absolute}
use cloudlink.Errors.{ok}
use cloudlink.Database.Tasks.{Artifact, created}
use cloudlink.Database.Action.{Db, ◌>>=◌, query, execute, pure, raise}
use cloudlink.ArtifactStore.{
  safe_relative_path, artifact_upload_status, store_artifact_chunk, complete_artifact_upload,
  mark_artifact_uploaded, mark_artifact_uploading,
}
use cloudlink.ArtifactStore.Laws.{Receives, Whole}
use cloudlink.ArtifactStore.Paths.{IsEntry, safe_relative_path-IsEntry}
use cloudlink.Agent.Network.{Net, send, answered, answer_lost, request_lost}
use cloudlink.Agent.ArtifactManager.{
  UploadSettings, uploaded_all, out_of_rounds, upload_file_chunks, get_status, send_chunks,
  complete_upload, artifact_chunk_bytes,
}
use cloudlink.Agent.ApiClient.{with_retries, is_transient_error}
use cloudlink.Web.Auth.{
  endpoint, map_store_error, get_worker_for_api, credentials_valid, verify_worker_secret,
  hash_worker_secret,
}
use cloudlink.Web.Uploads.{
  api_worker_artifact_upload_status, api_worker_upload_artifact_chunk,
  api_worker_complete_artifact_upload,
}
use cloudlink.TaskStore.Workers.{get_worker}
use cloudlink.TaskStore.Queue.{get_task}
use cloudlink.Web.Laws.{api_server, upload_file_chunks_stores, upload_file_chunks_ends}
use cloudlink.ArtifactStore.{get_artifact}
use cloudlink.ArtifactStore.Disk.{file_at}
use cloudlink.Tests.World.{settings, world}

abbrev digest : String → String
digest s = s

-- A digest that tells files of up to two bytes apart by their length.
abbrev pub sha256 : List ℕ → String
sha256 [] = "e3b0"
sha256 (a ∷ []) = "ca97"
sha256 (a ∷ b ∷ s) = "9f86"

abbrev pub five_bytes : List ℕ
five_bytes = 10 ∷ 20 ∷ 30 ∷ 40 ∷ 50 ∷ []

abbrev pub model_file : Artifact
model_file = record {
  id = "a1";
  task_id = "held";
  worker_id = "w1";
  lease_id = "l0";
  relative_path = "out/model.bin";
  display_name = "model.bin";
  title = "model";
  description = "";
  meaning = "";
  content_type = none;
  size_bytes = 5;
  sha256 = "9f86";
  storage_path = "/data/artifacts/tasks/held/a1/model.bin";
  status = created;
  required = true;
  created_at = 7000000;
  updated_at = 7000000;
  expires_at = none;
  purged_at = none;
  purge_reason = none;
  purged_size_bytes = 0;
}

abbrev pub with_artifact : Db
with_artifact = record world { artifacts = model_file ∷ [] }

-- The first status is answered, the first chunk arrives but its answer does not, the second chunk is lost, and so on.
abbrev bad_network : Net
bad_network = record {
  fates =
      answered 8000000
      ∷ answer_lost 8000001 true
      ∷ answered 8000002
      ∷ request_lost true
      ∷ answered 8000003
      ∷ answered 8000004
      ∷ answered 8000005
      ∷ answer_lost 8000006 true
      ∷ answered 8000007
      ∷ [];
  db = with_artifact;
}

abbrev two_bytes_at_once : UploadSettings
two_bytes_at_once = record {
  configured_chunk_bytes = some (ℤ.pos 2);
  upload_retries = 1;
  default_retries = 0;
}

ready : Receives sha256 "a1" five_bytes with_artifact
unfolding Receives get_artifact file_at
ready = (model_file, record { found = refl; size = refl; digest = refl }, inr (refl, (0, refl)))

-- The upload ends well over that network.
bad_network_uploads :
    (upload_file_chunks
      (api_server digest sha256 settings "held" "a1" "worker-key")
      two_bytes_at_once
      20
      five_bytes
      bad_network).0
    ≡ uploaded_all
unfolding upload_file_chunks get_status send_chunks complete_upload send with_retries
    is_transient_error api_server api_worker_artifact_upload_status api_worker_upload_artifact_chunk
    api_worker_complete_artifact_upload endpoint map_store_error get_worker_for_api
    credentials_valid verify_worker_secret hash_worker_secret get_artifact file_at get_worker
    get_task artifact_upload_status store_artifact_chunk complete_artifact_upload
    mark_artifact_uploaded mark_artifact_uploading artifact_chunk_bytes ◌>>=◌ query execute pure
    raise
bad_network_uploads = refl

upload_file_chunks_stores_example :
    let sent =
      upload_file_chunks
        (api_server digest sha256 settings "held" "a1" "worker-key")
        two_bytes_at_once
        20
        five_bytes
        bad_network in
    Receives sha256 "a1" five_bytes sent.1.db
    × (Whole sha256 "a1" five_bytes sent.1.db ⊎ (sent.0 ≢ uploaded_all))
upload_file_chunks_stores_example =
    upload_file_chunks_stores digest sha256 settings "held" "a1" "worker-key" five_bytes
      two_bytes_at_once 20 bad_network ready

upload_file_chunks_ends_example :
    (upload_file_chunks
      (api_server digest sha256 settings "held" "a1" "worker-key")
      two_bytes_at_once
      20
      five_bytes
      bad_network).0
    ≢ out_of_rounds
upload_file_chunks_ends_example =
    upload_file_chunks_ends digest sha256 settings "held" "a1" "worker-key" five_bytes
      two_bytes_at_once 20 bad_network ready (omega arith)

accepted : safe_relative_path "out/./model.bin" ≡ ok ("out" ∷ "model.bin" ∷ [])
unfolding safe_relative_path path_parts strip
accepted = refl

safe_relative_path-IsEntry_example :
    (is_absolute "out/./model.bin" ≡ false)
    × All IsEntry ("out" ∷ "model.bin" ∷ [])
    × IsEntry "model.bin"
safe_relative_path-IsEntry_example =
    safe_relative_path-IsEntry "out/./model.bin" ("out" ∷ "model.bin" ∷ []) accepted
