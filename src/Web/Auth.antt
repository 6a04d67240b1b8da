-- ===== src/Web/Auth.antt =====
-- The dependencies of the endpoints that identify the caller, and the exceptions as HTTP answers.
use cloudlink.Prelude.{
  Bool, ◌&&◌, ◌||◌, not, String, List, [], ◌∷◌, Option, none, some, if◌then◌else◌, ◌==◌, string_eq,
  text_of, non_empty, codes, starts_with,
}
use cloudlink.Prelude.Paths.{◌+++◌}
use cloudlink.Errors.{
  Error, Result, ok, err, raise_if, task_conflict, task_not_found, worker_not_registered,
  payload_too_large, resource_unsatisfiable, queue_limit_exceeded, dataset_not_found,
  artifact_conflict, artifact_not_found, artifact_gone, dataset_conflict, storage_object_gone,
  http_error, uninstall_invite_error, uninstall_invite_not_found, uninstall_invite_expired,
  install_invite_error, install_invite_not_found, install_invite_used, install_invite_expired,
}
use cloudlink.Database.Workers.{Worker}
use cloudlink.Database.Action.{Db, Settings, Action}
use cloudlink.TaskStore.Workers.{get_worker}

-- The `detail` of a rejection is an object.
abbrev detail_object : String
detail_object = "{...}"

unfoldable pub map_store_error : Error → Error
map_store_error (http_error code detail) = http_error code detail
map_store_error (task_not_found id) = http_error 404 "Task not found"
map_store_error (artifact_not_found id) = http_error 404 "Artifact not found"
map_store_error (artifact_gone id) = http_error 410 "Stored content has expired"
map_store_error (storage_object_gone id) = http_error 410 "Stored content has expired"
map_store_error (dataset_not_found id) = http_error 404 "Dataset not found"
map_store_error (worker_not_registered id) = http_error 403 "Worker is not registered"
map_store_error (task_conflict message) = http_error 409 message
map_store_error (artifact_conflict message) = http_error 409 message
map_store_error (dataset_conflict message) = http_error 409 message
map_store_error (resource_unsatisfiable rejection) = http_error 422 detail_object
map_store_error (queue_limit_exceeded limit pending) = http_error 429 detail_object
map_store_error (payload_too_large message) = http_error 413 message
map_store_error _ = http_error 500 "Internal server error"

unfoldable pub map_install_invite_error : Error → Error
map_install_invite_error install_invite_not_found = http_error 404 "Worker install invite not found"
map_install_invite_error install_invite_expired = http_error 410 "Worker install invite has expired"
map_install_invite_error install_invite_used =
    http_error 410 "Worker install invite has already been used"
map_install_invite_error (install_invite_error message) = http_error 400 message
map_install_invite_error e = map_store_error e

unfoldable pub map_uninstall_invite_error : Error → Error
map_uninstall_invite_error uninstall_invite_not_found =
    http_error 404 "Worker uninstall invite not found"
map_uninstall_invite_error uninstall_invite_expired =
    http_error 410 "Worker uninstall invite has expired"
map_uninstall_invite_error (uninstall_invite_error message) = http_error 400 message
map_uninstall_invite_error e = map_store_error e

-- `try: ... except Exception as exc: raise map_store_error(exc)`
abbrev pub answer {ℓ} : {A : Type ℓ} → Result A × Db → Result A × Db
answer (ok a, db) = (ok a, db)
answer (err e, db) = (err (map_store_error e), db)

unfoldable pub endpoint : {A : Type 0} → Action A → Action A
endpoint m db = answer (m db)

-- What follows a prefix of a text.
abbrev pub after_prefix : String → String → Option String
after_prefix String.[] t = some t
after_prefix (String.◌∷◌ c s) String.[] = none
after_prefix (String.◌∷◌ c s) (String.◌∷◌ d t) =
    let rest = after_prefix s t in
    if String.◌∷◌ c String.[] == String.◌∷◌ d String.[] then rest else none

abbrev bearer_token : Option String → Result String
bearer_token none = err (http_error 401 "Invalid worker credentials")
bearer_token (some token) =
    if non_empty token then ok token else err (http_error 401 "Invalid worker credentials")

unfoldable pub require_worker_auth : Option String → Result String
require_worker_auth none = err (http_error 401 "Invalid worker credentials")
require_worker_auth (some authorization) = bearer_token (after_prefix "Bearer " authorization)

pub data AuthContext : Type 0 where
  internal : AuthContext
  codex : String → AuthContext

-- The submitter whose token was given.
abbrev pub codex_submitter : String → List (String × String) → Option String
codex_submitter token [] = none
codex_submitter token ((submitter, expected) ∷ rest) =
    let other = codex_submitter token rest in
    if non_empty expected && token == expected then some submitter else other

abbrev pub known_submitter : Option String → Result AuthContext
known_submitter none = err (http_error 401 "Invalid internal credentials")
known_submitter (some submitter) = ok (codex submitter)

-- `direct` is `is_direct_local_request(request)`.
unfoldable pub require_internal_or_codex_auth :
    Settings → Bool → Option String → Option String → Result AuthContext
require_internal_or_codex_auth settings direct secret token =
    if not direct
    then err (http_error 403 "Internal API requires direct local access")
    else if non_empty settings.internal_api_secret && text_of secret == settings.internal_api_secret
    then ok internal
    else known_submitter (codex_submitter (text_of token) settings.codex_tokens)

unfoldable pub require_internal_auth : Settings → Bool → Option String → Result (Unit {0})
require_internal_auth settings direct secret =
    if not direct
    then err (http_error 403 "Internal API requires direct local access")
    else raise_if
        (not (non_empty settings.internal_api_secret)
          || not (text_of secret == settings.internal_api_secret))
        (http_error 401 "Invalid internal credentials")

unfoldable pub submitter_filter_for_auth : AuthContext → Option String
submitter_filter_for_auth internal = none
submitter_filter_for_auth (codex submitter) = some submitter

-- `digest` is the SHA-256 of a text in hexadecimal.
module _ (digest : String → String) where
  unfoldable pub hash_worker_secret : String → String
  hash_worker_secret secret = "sha256$" +++ digest secret

  -- An encoded secret has the scheme before its first `$`; the digest stands after it.
  unfoldable pub verify_worker_secret : String → String → Bool
  verify_worker_secret secret encoded =
      starts_with (codes encoded) (codes "sha256$") && hash_worker_secret secret == encoded

  unfoldable pub credentials_valid : Settings → Worker → String → Bool
  credentials_valid settings w token =
      if non_empty (text_of w.worker_secret_hash)
      then verify_worker_secret token (text_of w.worker_secret_hash)
      else non_empty settings.worker_secret && token == settings.worker_secret

  unfoldable pub get_worker_secret_hash : Db → String → Result String
  get_worker_secret_hash db worker_id = elim (get_worker db worker_id) [
    | err e ↦ err e
    | ok w ↦ ok (text_of w.worker_secret_hash)
  ]

  unfoldable pub get_worker_for_api : Settings → Db → String → String → Result Worker
  get_worker_for_api settings db worker_id token = elim (get_worker db worker_id) [
    | err e ↦ err e
    | ok w ↦
        if not w.enabled
        then err (worker_not_registered worker_id)
        else if not (credentials_valid settings w token)
        then err (http_error 401 "Invalid worker credentials")
        else ok w
  ]
