-- ===== src/TaskStore/Workers.antt =====
-- What `row_to_worker` adds to a row of `worker_nodes`, and who may be given work. `now` is the
-- moment at which the row is read.
use cloudlink.Prelude.{
  ℕ, ◌+◌, Bool, true, false, ◌&&◌, ◌||◌, not, String, Option, none, some, if◌then◌else◌, ◌==◌,
  string_eq, leb, find, codes, lower, same_codes, starts_with, strip, text_of, text_or,
}
use cloudlink.Errors.{Result, or_raise, worker_not_registered}
use cloudlink.Version.{version_at_least}
use cloudlink.Database.Tasks.{Time, seconds, Payload}
use cloudlink.Database.Workers.{Worker, Lifecycle, active, uninstalling, lost, RuntimeProfile}
use cloudlink.Database.Action.{Db, Settings}

unfoldable pub is_recent : Time → Option Time → ℕ → Bool
is_recent now none n = false
is_recent now (some seen_at) n = leb now (seen_at + seconds n)

abbrev runtime_version : Option RuntimeProfile → String
runtime_version none = ""
runtime_version (some p) = strip (text_of p.cloudlink_version)

abbrev runtime_system : Option RuntimeProfile → String
runtime_system none = ""
runtime_system (some p) = text_of p.system

unfoldable pub worker_uses_unsupported_platform : Worker → Bool
worker_uses_unsupported_platform w =
    same_codes (lower (strip (text_of w.install_platform))) (codes "windows")
    || starts_with (lower (strip (runtime_system w.runtime_profile))) (codes "windows")
    || same_codes (lower (strip (runtime_system w.runtime_profile))) (codes "win32")

abbrev minimum_version : Settings → Worker → String
minimum_version settings w =
    if w.gpu_requested then settings.minimum_gpu_worker_version else settings.minimum_worker_version

-- `version_status != "ok"`
unfoldable pub needs_update : Settings → Worker → Bool
needs_update settings w =
    if worker_uses_unsupported_platform w
    then true
    else not (version_at_least (runtime_version w.runtime_profile) (minimum_version settings w))

abbrev pub is_active : Lifecycle → Bool
is_active active = true
is_active uninstalling = false
is_active lost = false

abbrev pub online : Settings → Time → Worker → Bool
online settings now w = is_recent now w.last_seen_at settings.worker_online_seconds

unfoldable pub worker_is_schedulable : Settings → Time → Worker → Bool
worker_is_schedulable settings now w =
    w.enabled
    && is_active w.lifecycle_status
    && online settings now w
    && not (needs_update settings w)

abbrev pub has_worker_id : String → Worker → Bool
has_worker_id worker_id w = w.worker_id == worker_id

unfoldable pub get_worker : Db → String → Result Worker
get_worker db worker_id =
    or_raise (find (has_worker_id worker_id) db.workers) (worker_not_registered worker_id)

-- `str(payload.get("runtime") or "python-auto").strip()`
abbrev pub payload_runtime : Payload → String
payload_runtime p = strip (text_or (text_of p.runtime) "python-auto")

abbrev pub gpu_enabled : Option RuntimeProfile → Bool
gpu_enabled none = false
gpu_enabled (some p) = elim p.gpu_runtime [ none ↦ false | some g ↦ g.enabled ]

abbrev gpu_verified : Option RuntimeProfile → Bool
gpu_verified none = false
gpu_verified (some p) = elim p.gpu_runtime [ none ↦ false | some g ↦ g.verified ]

unfoldable pub worker_supports_runtime : Worker → Payload → Bool
worker_supports_runtime w payload =
    if payload_runtime payload == "pytorch-cuda"
    then w.gpu_requested && gpu_enabled w.runtime_profile && gpu_verified w.runtime_profile
    else true
