-- ===== src/LifecycleStore.antt =====
-- app/worker_lifecycle_store.py: the invitation to uninstall a worker, the two steps of the uninstall,
-- and the archiving of a worker that is lost. `digest` is the hexadecimal SHA-256 of a text, `token`
-- and `audit_id` are the fresh random values, `now` the first and `later` every further reading of the
-- clock.
pub mod Laws
use cloudlink.Prelude.{
  ℕ, suc, zero, ◌+◌, ◌*◌, Bool, true, false, ◌&&◌, ◌||◌, not, String, List, [], ◌∷◌, ◌++◌, Option,
  none, some, if◌then◌else◌, ◌==◌, string_eq, option_eq, ltb, any, count_where, update_where,
  delete_where, find, is_some, or_else, strip, text_or, text_of, codes, same_codes, starts_with,
  non_empty,
}
use cloudlink.Errors.{
  Result, or_raise, raise_if, task_conflict, uninstall_invite_error, uninstall_invite_not_found,
  uninstall_invite_expired, integrity_error,
}
use cloudlink.Database.Tasks.{Time, Task, seconds}
use cloudlink.Database.Workers.{
  Worker, Lifecycle, active, uninstalling, lost, UninstallInvite, AuditEntry, AuditAction,
  uninstalled, archived_lost,
}
use cloudlink.Database.Datasets.{Cache, CacheStatus, deleted, orphaned}
use cloudlink.Database.Action.{Db, Settings, Action, ◌>>=◌, ◌>>◌, query, execute, pure, transaction}
use cloudlink.TaskStore.Workers.{get_worker, has_worker_id, is_active, online}
use cloudlink.TaskStore.Capacity.{is_running}
use cloudlink.TaskStore.Touch.{on_worker}

abbrev keep_slash : String → String → String
keep_slash String.[] whole = String.[]
keep_slash (String.◌∷◌ c s) whole = whole

-- `text.rstrip("/")`
without_slashes : String → String
without_slashes String.[] = String.[]
without_slashes (String.◌∷◌ c s) =
    let rest = without_slashes s in
    let whole : String = String.◌∷◌ c rest in
    if same_codes (codes (String.◌∷◌ c String.[])) (codes "/") then keep_slash rest whole else whole

-- `token[:n]`
preview : ℕ → String → String
preview zero s = String.[]
preview (suc n) String.[] = String.[]
preview (suc n) (String.◌∷◌ c s) = String.◌∷◌ c (preview n s)

abbrev is_uninstalling : Lifecycle → Bool
is_uninstalling active = false
is_uninstalling uninstalling = true
is_uninstalling lost = false

abbrev pub has_hash : String → UninstallInvite → Bool
has_hash hash i = i.token_hash == hash

abbrev pub on_invite : String → (UninstallInvite → UninstallInvite) → Db → Db
on_invite hash f db = record db {
  uninstall_invites = update_where (has_hash hash) f db.uninstall_invites;
}

abbrev add_audit : AuditEntry → Db → Db
add_audit entry db = record db { audit = db.audit ++ entry ∷ [] }

abbrev is_deleted : CacheStatus → Bool
is_deleted deleted = true
is_deleted _ = false

-- The caches of a worker that are not deleted.
abbrev has_cache : String → Cache → Bool
has_cache worker_id c = c.worker_id == worker_id && not (is_deleted c.status)

abbrev orphan : String → Time → Cache → Cache
orphan message now c = record c { status = orphaned; last_error = some message; updated_at = now }

abbrev orphan_caches : String → String → Time → Db → Db
orphan_caches worker_id message now db = record db {
  caches = update_where (has_cache worker_id) (orphan message now) db.caches;
}

module _ (digest : String → String) where
  -- `verify_worker_secret`, and the check that there is a hash at all.
  abbrev verifies : String → Option String → Bool
  verifies secret encoded =
      starts_with (codes (text_of encoded)) (codes "sha256$")
      && same_codes (codes "sha256$" ++ codes (digest secret)) (codes (text_of encoded))

  -- `get_worker_uninstall_invite` as it is called without `allow_completed`.
  abbrev pub check_invite : Time → UninstallInvite → Result UninstallInvite
  check_invite now i =
      if is_some i.completed_at
      then Result.err (uninstall_invite_error "Worker uninstall has already completed")
      else if ltb i.expires_at now
      then Result.err uninstall_invite_expired
      else Result.ok i

  unfoldable pub get_worker_uninstall_invite : Time → String → Action UninstallInvite
  get_worker_uninstall_invite now token = do
    invite ← query (λ db.
        or_raise (find (has_hash (digest token)) db.uninstall_invites) uninstall_invite_not_found)
    query (λ db. check_invite now invite)

  unfoldable pub verify_bound_worker : UninstallInvite → String → Action Worker
  verify_bound_worker invite secret = do
    worker ← query (λ db. get_worker db invite.worker_id)
    query (λ db.
        raise_if (not (verifies secret worker.worker_secret_hash))
          (uninstall_invite_error "Invalid worker credentials"))
    pure worker

  create_worker_uninstall_invite :
      Time → Time → String → String → String → ℕ → Action UninstallInvite
  unfolding without_slashes preview
  create_worker_uninstall_invite now later token worker_id public_base_url ttl_minutes = do
    worker ← query (λ db. get_worker db worker_id)
    query (λ db.
        raise_if
          (not (is_active worker.lifecycle_status || is_uninstalling worker.lifecycle_status))
          (task_conflict "Worker is not eligible for scripted uninstall"))
    query (λ db.
        raise_if (any (has_hash (digest token)) db.uninstall_invites)
          (integrity_error "worker_uninstall_invites.token_hash"))
    execute (λ db. record db {
      uninstall_invites =
          db.uninstall_invites
          ++ record {
            token_hash = digest token;
            token_preview = preview 8 token;
            worker_id = worker_id;
            public_base_url = without_slashes public_base_url;
            expires_at = now + seconds (60 * ttl_minutes);
            begun_at = none;
            completed_at = none;
            created_at = now;
          }
            ∷ [];
    })
    get_worker_uninstall_invite later token

  abbrev pub holds_task : String → Task → Bool
  holds_task worker_id t = is_running t.status && t.locked_by == some worker_id

  abbrev pub leaving : Time → Worker → Worker
  leaving now w = record w {
    enabled = false;
    lifecycle_status = uninstalling;
    lifecycle_updated_at = some now;
    updated_at = now;
  }

  abbrev pub begun : Time → UninstallInvite → UninstallInvite
  begun now i = record i { begun_at = some (or_else i.begun_at now) }

  unfoldable pub begin_worker_uninstall : Time → Time → String → String → Action Worker
  begin_worker_uninstall now later token secret = do
    invite ← get_worker_uninstall_invite now token
    worker ← verify_bound_worker invite secret
    query (λ db.
        raise_if (any (holds_task worker.worker_id) db.tasks)
          (task_conflict "Worker has active tasks and cannot be uninstalled"))
    execute (on_worker worker.worker_id (leaving later))
    execute (on_invite (digest token) (begun later))
    pure worker

  abbrev pub completed : Time → UninstallInvite → UninstallInvite
  completed now i = record i { completed_at = some now }

  -- The transaction of `complete_worker_uninstall`.
  unfoldable pub remove_worker : Time → String → String → Worker → Action Worker
  remove_worker now token audit_id w = do
    query (λ db.
        raise_if (any (λ a. a.id == audit_id) db.audit)
          (integrity_error "worker_lifecycle_audit.id"))
    execute (
        add_audit (record {
          id = audit_id;
          worker_id = w.worker_id;
          display_name = w.display_name;
          platform = w.install_platform;
          action = uninstalled;
          reason = "";
          registered_at = some w.registered_at;
          last_seen_at = w.last_seen_at;
          created_at = now;
        }))
    execute (orphan_caches w.worker_id "Worker was uninstalled; local files were preserved" now)
    execute (λ db. record db {
      install_invites = delete_where (λ i. i.worker_id == w.worker_id) db.install_invites;
    })
    execute (λ db. record db { workers = delete_where (has_worker_id w.worker_id) db.workers })
    execute (on_invite (digest token) (completed now))
    pure w

  unfoldable pub complete_worker_uninstall : Time → Time → String → String → String → Action Worker
  complete_worker_uninstall now later token secret audit_id = do
    invite ← get_worker_uninstall_invite now token
    worker ← verify_bound_worker invite secret
    query (λ db.
        raise_if (not (is_uninstalling worker.lifecycle_status))
          (task_conflict "Worker uninstall has not started"))
    transaction (remove_worker later token audit_id worker)

abbrev lost_worker : Time → Worker → Worker
lost_worker now w = record w {
  enabled = false;
  lifecycle_status = lost;
  lifecycle_updated_at = some now;
  worker_secret_hash = some "";
  updated_at = now;
}

archive_lost_worker : Settings → Time → Time → String → String → String → ℕ → Action Worker
archive_lost_worker settings now later audit_id worker_id reason offline_seconds = do
  worker ← query (λ db. get_worker db worker_id)
  query (λ db.
      raise_if (online settings now worker)
        (task_conflict "Online worker cannot be archived as lost"))
  query (λ db.
      raise_if (not (is_active worker.lifecycle_status)) (task_conflict "Worker is not active"))
  query (λ db.
      raise_if
        (ltb now (or_else worker.last_seen_at worker.registered_at + seconds offline_seconds))
        (task_conflict "Worker has not been offline long enough"))
  execute (on_worker worker_id (lost_worker later))
  execute (orphan_caches worker_id "Worker was archived as lost" later)
  query (λ db.
      raise_if (any (λ a. a.id == audit_id) db.audit) (integrity_error "worker_lifecycle_audit.id"))
  execute (
      add_audit (record {
        id = audit_id;
        worker_id = worker_id;
        display_name = worker.display_name;
        platform = worker.install_platform;
        action = archived_lost;
        reason = text_or (strip reason) "Worker unavailable";
        registered_at = none;
        last_seen_at = worker.last_seen_at;
        created_at = later;
      }))
  query (λ db. get_worker db worker_id)
