-- ===== src/InstallerStore.antt =====
-- app/installer_store.py: the invites with which workers are installed, each for one registration.
-- `token_hash` stands for the digest of a token, and `token` for a fresh `secrets.token_urlsafe`.
use cloudlink.Prelude.{
  ℕ, ◌+◌, ◌*◌, Bool, ◌&&◌, ◌||◌, not, String, List, [], ◌∷◌, ◌++◌, Option, none, some,
  if◌then◌else◌, ◌==◌, string_eq, leb, ltb, nat_eq, any, all, find, update_where, codes, lower,
  same_codes, starts_with, strip, non_empty, text_or, text_of, or_none, is_some,
}
use cloudlink.Prelude.Paths.{is_absolute}
use cloudlink.Errors.{
  Result, ok, err, raise_if, install_invite_error, install_invite_not_found, install_invite_used,
  install_invite_expired, integrity_error,
}
use cloudlink.Database.Tasks.{Time, seconds}
use cloudlink.Database.Workers.{InstallInvite}
use cloudlink.Database.Action.{Db, Action, ◌>>=◌, ◌>>◌, query, execute, raise}
use cloudlink.TaskStore.Roots.{rstrip_slash}

-- `normalize_runtime_platform`
unfoldable pub normalize_runtime_platform : String → Option String
normalize_runtime_platform platform =
    let value = lower (strip platform) in
    if same_codes value (codes "macos")
      || same_codes value (codes "darwin")
      || starts_with value (codes "darwin-")
    then some "macos"
    else if same_codes value (codes "linux") || starts_with value (codes "linux-")
    then some "linux"
    else none

abbrev platform_of : List ℕ → Result String
platform_of value =
    if same_codes value (codes "macos")
    then ok "macos"
    else if same_codes value (codes "linux")
    then ok "linux"
    else err (install_invite_error "platform must be macos or linux")

abbrev is_id_char : ℕ → Bool
is_id_char c =
    (leb b'a' c && leb c b'z')
    || (leb b'A' c && leb c b'Z')
    || (leb b'0' c && leb c b'9')
    || c == b'.'
    || c == b'_'
    || c == b'-'

abbrev id_check : String → Result (Unit {0})
id_check worker_id =
    if not (non_empty worker_id)
    then err (install_invite_error "worker_id is required")
    else raise_if (not (all is_id_char (codes worker_id))) (
        install_invite_error
          "worker_id may contain only letters, numbers, dot, underscore, and hyphen")

abbrev gpu_check : Bool → String → String → Result (Unit {0})
gpu_check gpu_requested platform path =
    if gpu_requested
    then if not (platform == "linux")
      then err (install_invite_error "GPU workers currently require Linux")
      else raise_if (not (is_absolute path))
          (install_invite_error "gpu_environment_path must be an absolute Linux path")
    else raise_if (non_empty path)
        (install_invite_error "gpu_environment_path requires gpu_requested=true")

-- The arguments of `create_worker_install_invite`.
pub record NewInvite : Type 0 where
  pub platform : String
  pub worker_id : Option String
  pub display_name : Option String
  pub public_base_url : String
  pub ttl_minutes : ℕ
  pub gpu_requested : Bool
  pub gpu_environment_path : Option String

abbrev first_codes : ℕ → String → String
first_codes n String.[] = String.[]
first_codes n (String.◌∷◌ c s) = elim n [
  | ℕ.zero ↦ String.[]
  | ℕ.suc k ↦ String.◌∷◌ c (first_codes k s)
]

abbrev pub install_row :
    String → Time → String → String → String → String → NewInvite → InstallInvite
install_row hash now token platform worker_id gpu_path n = record {
  token_hash = hash;
  token_preview = first_codes 8 token;
  worker_id = worker_id;
  display_name = text_or (strip (text_of n.display_name)) worker_id;
  platform = platform;
  public_base_url = rstrip_slash n.public_base_url;
  expires_at = now + seconds (60 * n.ttl_minutes);
  used_at = none;
  created_at = now;
  gpu_requested = n.gpu_requested;
  gpu_environment_path = or_none gpu_path;
}

abbrev pub has_install_hash : String → InstallInvite → Bool
has_install_hash hash i = i.token_hash == hash

abbrev add_install_invite : InstallInvite → Action (Unit {0})
add_install_invite i db =
    if any (has_install_hash i.token_hash) db.install_invites
    then raise (integrity_error "worker_install_invites.token_hash") db
    else execute (λ d. record d { install_invites = d.install_invites ++ i ∷ [] }) db

-- What is true of an invite that may be used at a time.
abbrev pub usable_invite : Time → InstallInvite → Result InstallInvite
usable_invite now i =
    if is_some i.used_at
    then err install_invite_used
    else if ltb i.expires_at now
    then err install_invite_expired
    else ok i

abbrev pub check_install_invite : Time → Option InstallInvite → Result InstallInvite
check_install_invite now none = err install_invite_not_found
check_install_invite now (some i) = usable_invite now i

module _ (token_hash : String → String) where
  unfoldable pub get_worker_install_invite : Time → String → Db → Result InstallInvite
  get_worker_install_invite now token db =
      check_install_invite now (find (has_install_hash (token_hash token)) db.install_invites)

  unfoldable pub create_worker_install_invite : Time → String → NewInvite → Action InstallInvite
  create_worker_install_invite now token n = do
    platform ← query (λ db. platform_of (lower (strip n.platform)))
    query (λ db. id_check (strip (text_of n.worker_id)))
    query (λ db. gpu_check n.gpu_requested platform (strip (text_of n.gpu_environment_path)))
    add_install_invite (
        install_row (token_hash token) now token platform (strip (text_of n.worker_id))
          (strip (text_of n.gpu_environment_path)) n)
    query (get_worker_install_invite now token)

  unfoldable pub mark_worker_install_invite_used : Time → String → Action (Unit {0})
  mark_worker_install_invite_used now token = execute (λ db. record db {
    install_invites =
        update_where (has_install_hash (token_hash token)) (λ i. record i { used_at = some now })
          db.install_invites;
  })
