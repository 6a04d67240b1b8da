-- ===== src/Web/Install.antt =====
-- The installation of a worker with an invite: `api_worker_install_register`, and what it gives the
-- worker. `worker_secret` is fresh.
use cloudlink.Prelude.{
  Bool, true, false, ◌&&◌, not, String, List, [], ◌∷◌, Option, none, some, ◌≡◌, ◌∙◌, refl, sym, ap,
  subst, arith, if◌then◌else◌, ◌==◌, string_eq, option_eq, contains, non_empty, text_of, find,
  update_where, pos, nat_eq, beq_self, Bool-cases, inl, inr, any,
}
use cloudlink.Prelude.Paths.{◌+++◌}
use cloudlink.Errors.{
  Result, ok, err, raise_if, worker_not_registered, install_invite_error, install_invite_used,
  http_error,
}
use cloudlink.Database.Tasks.{Time}
use cloudlink.Database.Workers.{Worker, InstallInvite, RuntimeProfile}
use cloudlink.Database.Action.{Db, Settings, Action, ◌>>=◌, ◌>>◌, query, execute, pure}
use cloudlink.Database.Safe.{
  Leaves, Leaves-query, Leaves-execute, Leaves-then, Leaves-last, Leaves-result, Leaves-of,
  Leaves-state,
}
use cloudlink.TaskStore.Workers.{get_worker, has_worker_id}
use cloudlink.TaskStore.Registration.{Registration, register_worker, upsert_worker}
use cloudlink.TaskStore.Registration.Registered.{
  IsRegistered, IsRegistered-secret, register_worker-IsRegistered,
}
use cloudlink.InstallerStore.{
  has_install_hash, normalize_runtime_platform, get_worker_install_invite,
  mark_worker_install_invite_used, check_install_invite,
}
use cloudlink.Web.Auth.{
  hash_worker_secret, verify_worker_secret, get_worker_for_api, credentials_valid,
  map_install_invite_error,
}

abbrev answer_install {ℓ} : {A : Type ℓ} → Result A × Db → Result A × Db
answer_install (ok a, db) = (ok a, db)
answer_install (err e, db) = (err (map_install_invite_error e), db)

abbrev platform_matches : String → InstallInvite → Bool
platform_matches platform i =
    if non_empty platform then normalize_runtime_platform platform == some i.platform else true

-- The profile of a worker that is being installed.
abbrev first_profile : InstallInvite → RuntimeProfile
first_profile i = record {
  cloudlink_version = none;
  system = none;
  gpu_runtime = some (record { enabled = i.gpu_requested; verified = false });
  dataset_root = none;
  dataset_roots = [];
  job_root = none;
}

abbrev registration_of : (String → String) → Settings → String → InstallInvite → Registration
registration_of digest settings worker_secret i = record {
  worker_id = i.worker_id;
  display_name = i.display_name;
  supported_types = settings.allowed_task_types;
  enabled = true;
  install_platform = some i.platform;
  hardware_profile = none;
  runtime_profile = some (first_profile i);
  capacity_state = none;
  max_concurrent_tasks = pos 1;
  active_task_count = pos 0;
  worker_secret_hash = some (hash_worker_secret digest worker_secret);
  gpu_requested = i.gpu_requested;
  gpu_environment_path = i.gpu_environment_path;
}

module _ (digest : String → String) (settings : Settings) where
  abbrev install_register : Time → String → String → String → Action Worker
  install_register now token platform worker_secret = do
    invite ← query (get_worker_install_invite digest now token)
    query (λ db. raise_if (not (contains invite.platform ("macos" ∷ "linux" ∷ []))) (
        install_invite_error
          "Windows native workers are not supported; use WSL and register as Linux"))
    query (λ db.
        raise_if (not (platform_matches platform invite))
          (install_invite_error "platform does not match invite"))
    worker ← register_worker settings now (registration_of digest settings worker_secret invite)
    mark_worker_install_invite_used digest now token
    pure worker

  unfoldable pub api_worker_install_register : Time → String → String → String → Action Worker
  api_worker_install_register now token platform worker_secret db =
      answer_install (install_register now token platform worker_secret db)

  used_row :
      (now later : Time) (hash : String) (is : List InstallInvite)
      → any (has_install_hash hash) is ≡ true
      → check_install_invite later (
          find
            (has_install_hash hash)
            (update_where (has_install_hash hash) (λ i. record i { used_at = some now }) is))
        ≡ err install_invite_used
  used_row now later hash [] h = absurd (cc)
  used_row now later hash (i ∷ is) h = elim (Bool-cases (i.token_hash == hash)) [
    | inl own ↦ rw (own, own) refl
    | inr foreign ↦ rw (foreign, foreign) (used_row now later hash is (rw foreign at h))
  ]

  register_worker-install_invites :
      (now : Time) (r : Registration) (db : Db)
      → (register_worker settings now r db).1.install_invites ≡ db.install_invites
  unfolding register_worker
  register_worker-install_invites now r db =
      Leaves-state (λ d. d.install_invites ≡ db.install_invites) (λ _ _. Unit {0}) _
        (Leaves-query _ _ _ _ db refl λ _ _. Leaves-query _ _ _ _ db refl λ concurrent _.
          Leaves-query _ _ _ _ db refl
            λ running _. Leaves-execute _ _ _ _ db (Leaves-last _ _ _ _ (kept _) λ _ _. tt))
    where
      kept : (new : Worker) → (upsert_worker new db).install_invites ≡ db.install_invites
      kept new = elim (Bool-cases (any (has_worker_id new.worker_id) db.workers)) [
        | inl known ↦ rw known refl
        | inr fresh ↦ rw fresh refl
      ]

  -- A worker that has registered with a secret is admitted with it.
  registered-admitted :
      (now : Time) (worker_secret : String) (i : InstallInvite) (w : Worker) (db after : Db)
      → IsRegistered settings (registration_of digest settings worker_secret i) db w after
      → get_worker_for_api digest settings after w.worker_id worker_secret ≡ ok w
  unfolding get_worker_for_api credentials_valid verify_worker_secret hash_worker_secret
  registered-admitted now worker_secret i w db after is =
      let found : get_worker after w.worker_id ≡ ok w =
        subst (λ id. get_worker after id ≡ ok w) (sym is.named) is.found in
      let stored =
        IsRegistered-secret settings _ db w after (hash_worker_secret digest worker_secret) is
          refl in
      rw (get_worker_for_api, found)
        (admits w.enabled (credentials_valid digest settings w worker_secret) is.enabled
          (valid w.worker_secret_hash stored))
    where
      admits :
          (enabled valid : Bool)
          → enabled ≡ true
          → valid ≡ true
          → (if not enabled
              then err (worker_not_registered w.worker_id)
              else if not valid
              then err (http_error 401 "Invalid worker credentials")
              else ok w)
            ≡ ok w
      admits enabled valid e v = rw (e, v) refl

      valid :
          (stored : Option String)
          → stored ≡ some (hash_worker_secret digest worker_secret)
          → (if non_empty (text_of stored)
              then verify_worker_secret digest worker_secret (text_of stored)
              else (non_empty settings.worker_secret && worker_secret == settings.worker_secret))
            ≡ true
      valid stored e = rw (e, beq_self ("sha256$" +++ digest worker_secret)) refl

  present :
      (hash : String) (now : Time) (i : InstallInvite) (is : List InstallInvite)
      → check_install_invite now (find (has_install_hash hash) is) ≡ ok i
      → any (has_install_hash hash) is ≡ true
  present hash now i [] h = absurd (cc)
  present hash now i (j ∷ is) h = elim (Bool-cases (j.token_hash == hash)) [
    | inl own ↦ rw own refl
    | inr foreign ↦ rw foreign (present hash now i is (rw foreign at h))
  ]

  -- What holds once the invite is marked.
  marked_once :
      (now later : Time) (token worker_secret : String) (i : InstallInvite) (v : Worker) (db d : Db)
      → get_worker_install_invite digest now token db ≡ ok i
      → register_worker settings now (registration_of digest settings worker_secret i) db
        ≡ (ok v, d)
      → (mark_worker_install_invite_used digest now token >> pure v) d ≡ (
        ok v,
        record d {
          install_invites =
              update_where
                (has_install_hash (digest token))
                (λ j. record j { used_at = some now })
                d.install_invites;
        },
      )
  unfolding mark_worker_install_invite_used ◌>>=◌ execute pure
  marked_once now later token worker_secret i v db d found e = refl

  marked_admitted :
      (v : Worker) (d : Db) (is : List InstallInvite) (worker_secret : String)
      → get_worker_for_api digest settings d v.worker_id worker_secret ≡ ok v
      → get_worker_for_api digest settings
          (record d { install_invites = is })
          v.worker_id
          worker_secret
        ≡ ok v
  unfolding get_worker_for_api get_worker
  marked_admitted v d is worker_secret h = h

  marked_used :
      (now later : Time) (token worker_secret : String) (i : InstallInvite) (v : Worker) (db d : Db)
      → get_worker_install_invite digest now token db ≡ ok i
      → register_worker settings now (registration_of digest settings worker_secret i) db
        ≡ (ok v, d)
      → get_worker_install_invite digest later token (record d {
        install_invites =
            update_where
              (has_install_hash (digest token))
              (λ j. record j { used_at = some now })
              d.install_invites;
      })
        ≡ err install_invite_used
  unfolding get_worker_install_invite
  marked_used now later token worker_secret i v db d found e =
      let r = registration_of digest settings worker_secret i in
      let same : d.install_invites ≡ db.install_invites =
        sym (ap (λ x. x.1.install_invites) e) ∙ register_worker-install_invites now r db in
      used_row now later (digest token) d.install_invites
        (rw same (present (digest token) now i db.install_invites found))

  -- What an installation leaves.
  abbrev pub Once : Time → String → String → Worker → Db → Type 0
  Once later token worker_secret v d =
      (get_worker_for_api digest settings d v.worker_id worker_secret ≡ ok v)
      × (get_worker_install_invite digest later token d ≡ err install_invite_used)

  marking-Leaves :
      (now later : Time) (token worker_secret : String) (i : InstallInvite) (v : Worker) (db d : Db)
      → get_worker_install_invite digest now token db ≡ ok i
      → register_worker settings now (registration_of digest settings worker_secret i) db
        ≡ (ok v, d)
      → Leaves
          (λ _. Unit {0})
          (Once later token worker_secret)
          ((mark_worker_install_invite_used digest now token >> pure v) d)
  unfolding Leaves
  marking-Leaves now later token worker_secret i v db d found e =
      let is =
        register_worker-IsRegistered settings now (registration_of digest settings worker_secret i)
          v db d e in
      rw (marked_once now later token worker_secret i v db d found e) (
        tt,
        (
          marked_admitted v d _ worker_secret (registered-admitted now worker_secret i v db d is),
          marked_used now later token worker_secret i v db d found e,
        ),
      )

  -- An installation that succeeds hands the worker a secret with which it is admitted from then on; and the invite is used
  -- up: at any later time it is refused.
  pub api_worker_install_register-once :
      (now later : Time) (token platform worker_secret : String) (w : Worker) (db after : Db)
      → api_worker_install_register now token platform worker_secret db ≡ (ok w, after)
      → (get_worker_for_api digest settings after w.worker_id worker_secret ≡ ok w)
        × (get_worker_install_invite digest later token after ≡ err install_invite_used)
  unfolding api_worker_install_register
  api_worker_install_register-once now later token platform worker_secret w db after returns =
      (Leaves-result (λ _. Unit {0}) (Once later token worker_secret)
        (install_register now token platform worker_secret db) w after ran (answered _ returns)).1
    where
      answered : (x : Result Worker × Db) → answer_install x ≡ (ok w, after) → x ≡ (ok w, after)
      answered (ok v, d) h = h
      answered (err e, d) h = absurd (ground arith)

      ran :
          Leaves
            (λ _. Unit {0})
            (Once later token worker_secret)
            (install_register now token platform worker_secret db)
      ran = Leaves-query _ _ _ _ db tt λ i found. Leaves-query _ _ _ _ db tt λ _ _.
          Leaves-query _ _ _ _ db tt λ _ _. Leaves-then _ _ _ _ db (
            Leaves-of _ _
              (register_worker settings now (registration_of digest settings worker_secret i) db) tt
              λ v d e. marking-Leaves now later token worker_secret i v db d found e)
