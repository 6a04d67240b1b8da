-- ===== src/Tests/Admin.antt =====
-- The theorems on dataset roots, registration, invites and passwords at samples.
use cloudlink.Prelude.{
  ℕ, true, false, String, List, [], ◌∷◌, none, some, Option, ◌≡◌, refl, any, pos, strip, rstrip,
  lower, lower_codes, ◌==◌, string_eq,
}
use cloudlink.Errors.{Result, ok, err, install_invite_used}
use cloudlink.Database.Datasets.{cached}
use cloudlink.Database.Workers.{Worker, DatasetRoot, InstallInvite}
use cloudlink.Database.Action.{Db, ◌>>=◌, query, execute, pure}
use cloudlink.TaskStore.Workers.{get_worker}
use cloudlink.TaskStore.Roots.{
  Root, RootMode, active_root, readonly_root, normalize_dataset_roots, read_roots, read_mode,
  effective_dataset_roots, worker_has_dataset_cache_under_root, preserve_existing_dataset_roots,
  roots_in_use, like,
}
use cloudlink.TaskStore.Roots.Laws.{IsNormal, normalize_dataset_roots-IsNormal}
use cloudlink.TaskStore.Roots.Preserved.{preserve_existing_dataset_roots-keeps}
use cloudlink.TaskStore.Registration.{Registration, register_worker, sorted_set}
use cloudlink.TaskStore.Registration.Registered.{IsRegistered, register_worker-IsRegistered}
use cloudlink.InstallerStore.{get_worker_install_invite, mark_worker_install_invite_used}
use cloudlink.Web.Auth.{get_worker_for_api, hash_worker_secret}
use cloudlink.Web.Install.{api_worker_install_register, api_worker_install_register-once}
use cloudlink.Tests.World.{settings, world, worker}

abbrev entry : String → String → DatasetRoot
entry path mode = record { path = path; mode = mode; label = none }

abbrev root : String → RootMode → Root
root path mode = record { path = path; mode = mode; label = none }

abbrev entries : List DatasetRoot
entries = entry " /a" "readonly" ∷ entry "/b" "" ∷ entry "/a" "active" ∷ entry "/c" "active" ∷ []

normalized :
    normalize_dataset_roots entries
    ≡ ok (root "/a" readonly_root ∷ root "/b" active_root ∷ root "/c" readonly_root ∷ [])
unfolding normalize_dataset_roots read_roots read_mode strip rstrip lower lower_codes
normalized = refl

normalize_dataset_roots-IsNormal_example :
    IsNormal (root "/a" readonly_root ∷ root "/b" active_root ∷ root "/c" readonly_root ∷ [])
normalize_dataset_roots-IsNormal_example =
    normalize_dataset_roots-IsNormal entries
      (root "/a" readonly_root ∷ root "/b" active_root ∷ root "/c" readonly_root ∷ []) normalized

abbrev with_root : Worker
with_root = record (worker "w1") { configured_dataset_roots = entry "/a" "active" ∷ [] }

abbrev with_cache : Db
with_cache = record world {
  workers = with_root ∷ [];
  caches =
      record {
        worker_id = "w1";
        dataset_version_id = "v1";
        status = cached;
        local_archive_path = some "/a/images.tar";
        local_extracted_path = none;
        size_bytes = 5;
        extracted_size_bytes = 0;
        checksum_sha256 = none;
        data_root_path = none;
        last_used_at = none;
        last_error = none;
        updated_at = 0;
      }
      ∷ [];
}

effective : effective_dataset_roots with_root ≡ ok (root "/a" active_root ∷ [])
unfolding effective_dataset_roots normalize_dataset_roots read_roots read_mode strip rstrip lower
    lower_codes
effective = refl

in_use : worker_has_dataset_cache_under_root with_cache "w1" "/a" ≡ true
unfolding worker_has_dataset_cache_under_root like lower_codes
in_use = refl

abbrev kept : Root
kept = record { path = "/a"; mode = readonly_root; label = some "历史数据盘" }

preserved :
    preserve_existing_dataset_roots with_cache with_root (root "/b" active_root ∷ [])
    ≡ ok (root "/b" active_root ∷ kept ∷ [])
unfolding preserve_existing_dataset_roots roots_in_use worker_has_dataset_cache_under_root like
    effective_dataset_roots normalize_dataset_roots read_roots read_mode strip rstrip lower
    lower_codes
preserved = refl

preserve_existing_dataset_roots-keeps_example :
    any (λ r. r.path == "/a") (root "/b" active_root ∷ kept ∷ []) ≡ true
preserve_existing_dataset_roots-keeps_example =
    preserve_existing_dataset_roots-keeps with_cache with_root (root "/b" active_root ∷ [])
      (root "/a" active_root ∷ []) (root "/b" active_root ∷ kept ∷ []) "/a" effective refl in_use
      preserved

abbrev registration : Registration
registration = record {
  worker_id = "w1";
  display_name = "";
  supported_types = "script_job" ∷ "other" ∷ [];
  enabled = true;
  install_platform = none;
  hardware_profile = none;
  runtime_profile = none;
  capacity_state = none;
  max_concurrent_tasks = pos 2;
  active_task_count = pos 0;
  worker_secret_hash = some "sha256$new";
  gpu_requested = false;
  gpu_environment_path = none;
}

abbrev worker_of : Result Worker → Worker
worker_of (ok w) = w
worker_of (err e) = worker ""

abbrev registered_worker : Worker
registered_worker = worker_of (register_worker settings 9000000 registration world).0

abbrev after_registration : Db
after_registration = (register_worker settings 9000000 registration world).1

registered :
    register_worker settings 9000000 registration world ≡ (ok registered_worker, after_registration)
unfolding register_worker get_worker sorted_set ◌>>=◌ query execute
registered = refl

register_worker-IsRegistered_example :
    IsRegistered settings registration world registered_worker after_registration
register_worker-IsRegistered_example =
    register_worker-IsRegistered settings 9000000 registration registered_worker world
      after_registration registered

abbrev invite : InstallInvite
invite = record {
  token_hash = "token";
  token_preview = "token";
  worker_id = "w3";
  display_name = "w3";
  platform = "linux";
  public_base_url = "https://example.org";
  expires_at = 60000000;
  used_at = none;
  created_at = 0;
  gpu_requested = false;
  gpu_environment_path = none;
}

abbrev with_invite : Db
with_invite = record world { install_invites = invite ∷ [] }

abbrev digest : String → String
digest s = s

abbrev installed_worker : Worker
installed_worker =
    worker_of
      (api_worker_install_register digest settings 9000000 "token" "" "secret" with_invite).0

abbrev after_install : Db
after_install =
    (api_worker_install_register digest settings 9000000 "token" "" "secret" with_invite).1

installed :
    api_worker_install_register digest settings 9000000 "token" "" "secret" with_invite
    ≡ (ok installed_worker, after_install)
unfolding api_worker_install_register get_worker_install_invite mark_worker_install_invite_used
    register_worker get_worker sorted_set hash_worker_secret ◌>>=◌ query execute pure
installed = refl

api_worker_install_register-once_example :
    (get_worker_for_api digest settings after_install installed_worker.worker_id "secret"
      ≡ ok installed_worker)
    × (get_worker_install_invite digest 10000000 "token" after_install ≡ err install_invite_used)
api_worker_install_register-once_example =
    api_worker_install_register-once digest settings 9000000 10000000 "token" "" "secret"
      installed_worker with_invite after_install installed

abbrev pbkdf2 : String → String → ℕ → String
pbkdf2 password salt n = password

abbrev iterations : String → Option ℕ
iterations text = some 260000
