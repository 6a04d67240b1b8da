-- ===== src/Tests/Lifecycle.antt =====
-- The theorems on uninstalling at the sample system.
use cloudlink.Prelude.{false, String, [], ◌∷◌, none, some, ◌≡◌, refl, any}
use cloudlink.Errors.{ok, err, worker_not_registered, uninstall_invite_error}
use cloudlink.Database.Workers.{Worker, UninstallInvite}
use cloudlink.Database.Action.{Db, ◌>>=◌, query, execute, pure, transaction}
use cloudlink.TaskStore.Workers.{get_worker}
use cloudlink.TaskStore.Claim.{claim_task}
use cloudlink.LifecycleStore.{
  holds_task, leaving, get_worker_uninstall_invite, verify_bound_worker, begin_worker_uninstall,
  complete_worker_uninstall, remove_worker,
}
use cloudlink.LifecycleStore.Laws.{begin_worker_uninstall_stops, complete_worker_uninstall_removes}
use cloudlink.Tests.World.{settings, worker, world}

abbrev digest : String → String
digest text = text

abbrev secured : Worker
secured = record (worker "w2") { worker_secret_hash = some "sha256$secret" }

abbrev invite : UninstallInvite
invite = record {
  token_hash = "token";
  token_preview = "token";
  worker_id = "w2";
  public_base_url = "https://example.org";
  expires_at = 900000000;
  begun_at = none;
  completed_at = none;
  created_at = 1000000;
}

abbrev invited : Db
invited = record world { workers = worker "w1" ∷ secured ∷ []; uninstall_invites = invite ∷ [] }

abbrev after_begin : Db
after_begin = (begin_worker_uninstall digest 20000000 20000001 "token" "secret" invited).1

begins :
    begin_worker_uninstall digest 20000000 20000001 "token" "secret" invited
    ≡ (ok secured, after_begin)
unfolding begin_worker_uninstall get_worker_uninstall_invite verify_bound_worker ◌>>=◌ query execute
    pure get_worker
begins = refl

begin_worker_uninstall_stops_example :
    (any (holds_task digest "w2") after_begin.tasks ≡ false)
    × (claim_task settings 30000000 30000001 "l1" "w2" ("script_job" ∷ []) none none after_begin
        ≡ (err (worker_not_registered "w2"), after_begin))
begin_worker_uninstall_stops_example =
    begin_worker_uninstall_stops digest settings 20000000 20000001 30000000 30000001 "token"
      "secret" "l1" ("script_job" ∷ []) none none secured invited after_begin begins

abbrev left : Worker
left = leaving digest 20000001 secured

abbrev after_complete : Db
after_complete =
    (complete_worker_uninstall digest 25000000 25000001 "token" "secret" "a1" after_begin).1

completes :
    complete_worker_uninstall digest 25000000 25000001 "token" "secret" "a1" after_begin
    ≡ (ok left, after_complete)
unfolding complete_worker_uninstall remove_worker transaction begin_worker_uninstall
    get_worker_uninstall_invite verify_bound_worker ◌>>=◌ query execute pure get_worker
completes = refl

complete_worker_uninstall_removes_example :
    (after_complete.tasks ≡ after_begin.tasks)
    × (claim_task settings 30000000 30000001 "l1" "w2" ("script_job" ∷ []) none none after_complete
        ≡ (err (worker_not_registered "w2"), after_complete))
    × (get_worker_uninstall_invite digest 30000000 "token" after_complete
        ≡ (err (uninstall_invite_error "Worker uninstall has already completed"), after_complete))
complete_worker_uninstall_removes_example =
    complete_worker_uninstall_removes digest settings 25000000 25000001 30000000 30000001 "token"
      "secret" "a1" "l1" ("script_job" ∷ []) none none left after_begin after_complete completes
