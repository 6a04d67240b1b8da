-- ===== src/Web/Uploads.antt =====
-- The endpoints with which a worker uploads the files of a task that it holds.
use cloudlink.Prelude.{ℕ, String, List, not, ◌==◌, string_eq, ℤ}
use cloudlink.Errors.{raise_if, artifact_conflict}
use cloudlink.Database.Tasks.{Time, Artifact}
use cloudlink.Database.Action.{Settings, Action, ◌>>=◌, ◌>>◌, query}
use cloudlink.TaskStore.Report.{assert_owned_running_task}
use cloudlink.ArtifactStore.{
  get_artifact, NewArtifact, create_artifact_record, Upload, artifact_upload_status,
  store_artifact_content, store_artifact_chunk, complete_artifact_upload,
}
use cloudlink.Web.Auth.{endpoint, get_worker_for_api}

-- `digest` hashes a text and `sha256` the content of a file.
module _ (digest : String → String) (sha256 : List ℕ → String) (settings : Settings) where
  abbrev pub api_worker_create_artifact :
      String → Time → String → String → NewArtifact → Action Artifact
  api_worker_create_artifact data_root now artifact_id worker_token body = endpoint (do
    query (λ db. get_worker_for_api digest settings db body.worker_id worker_token)
    assert_owned_running_task body.task_id body.worker_id body.lease_id
    create_artifact_record data_root now artifact_id body)

  -- The checks that the endpoints on an artifact begin with.
  abbrev pub on_own_artifact : {A : Type 0} → String → String → String → Action A → Action A
  on_own_artifact task_id artifact_id worker_token m = do
    artifact ← query (λ db. get_artifact db artifact_id)
    query (λ db.
        raise_if (not (artifact.task_id == task_id))
          (artifact_conflict "Artifact does not belong to this task"))
    query (λ db. get_worker_for_api digest settings db artifact.worker_id worker_token)
    assert_owned_running_task task_id artifact.worker_id artifact.lease_id
    m

  unfoldable pub api_worker_upload_artifact_content :
      Time → String → String → String → List ℕ → Action Artifact
  api_worker_upload_artifact_content now task_id artifact_id worker_token content = endpoint (
      on_own_artifact task_id artifact_id worker_token
        (store_artifact_content sha256 now artifact_id content))

  unfoldable pub api_worker_artifact_upload_status : String → String → String → Action Upload
  api_worker_artifact_upload_status task_id artifact_id worker_token =
      endpoint (
        on_own_artifact task_id artifact_id worker_token
          (artifact_upload_status sha256 artifact_id))

  unfoldable pub api_worker_upload_artifact_chunk :
      Time → String → String → String → ℤ → List ℕ → Action Upload
  api_worker_upload_artifact_chunk now task_id artifact_id worker_token offset content = endpoint (
      on_own_artifact task_id artifact_id worker_token
        (store_artifact_chunk sha256 now artifact_id offset content))

  unfoldable pub api_worker_complete_artifact_upload :
      Time → String → String → String → Action Artifact
  api_worker_complete_artifact_upload now task_id artifact_id worker_token = endpoint (
      on_own_artifact task_id artifact_id worker_token
        (complete_artifact_upload sha256 now artifact_id))
