-- ===== src/Database/Tasks.antt =====
-- app/database.py, the tables `tasks` and `task_artifacts`, with the columns that `row_to_task`
-- decodes already decoded. A time is a number of microseconds: the stored texts are ISO times in
-- UTC, which compare like the moments that they name.
use cloudlink.Prelude.{ℕ, Bool, String, List, Option, ◌*◌}
use cloudlink.ResourceModel.Types.{ResourceRequest}
use cloudlink.ResourceModel.Request.{Source}

abbrev pub Time : Type 0
Time = ℕ

-- `timedelta(seconds=n)`
abbrev pub seconds : ℕ → ℕ
seconds n = n * 1000000

pub data Status : Type 0 where
  pending running success failed timeout cancelled : Status

-- An entry of `payload["datasets"]`.
pub record DatasetReference : Type 0 where
  pub required : Option Bool
  pub dataset_version_id : Option String

-- A payload: its JSON text, and the keys of it that the server reads.
pub record Payload : Type 0 where
  pub encoded : String
  pub runtime : Option String
  pub resource_request : Option Source
  pub datasets : List DatasetReference
  pub context_group_id : Option String

pub record Task : Type 0 where
  pub id : String
  pub type : String
  pub status : Status
  pub title : String
  pub description : String
  pub payload : Payload
  pub result : Option String
  pub error : Option String
  pub logs : Option String
  pub created_at : Time
  pub updated_at : Time
  pub started_at : Option Time
  pub finished_at : Option Time
  pub locked_by : Option String
  pub locked_until : Option Time
  pub lease_id : Option String
  pub completion_lease_id : Option String
  pub result_sha256 : Option String
  pub resource_request : Option ResourceRequest
  pub resource_reservation : Option ResourceRequest
  pub submitter_id : Option String
  pub group_id : Option String
  pub error_code : Option String
  pub cancel_requested_at : Option Time
  pub cancel_reason : Option String
  pub retry_count : ℕ

pub data ArtifactStatus : Type 0 where
  created uploading uploaded purging purged : ArtifactStatus

pub record Artifact : Type 0 where
  pub id : String
  pub task_id : String
  pub worker_id : String
  pub lease_id : String
  pub relative_path : String
  pub display_name : String
  pub title : String
  pub description : String
  pub meaning : String
  pub content_type : Option String
  pub size_bytes : ℕ
  pub sha256 : String
  pub storage_path : String
  pub status : ArtifactStatus
  pub required : Bool
  pub created_at : Time
  pub updated_at : Time
  pub expires_at : Option Time
  pub purged_at : Option Time
  pub purge_reason : Option String
  pub purged_size_bytes : ℕ
