-- ===== src/Errors.antt =====
-- The exceptions that the stores raise, as values, and computations that return or raise. An
-- exception that is raised for several reasons carries the message of the source.
use cloudlink.Prelude.{
  ℕ, Bool, true, false, String, List, Option, none, some, ◌≡◌, refl, ap, ◌⊎◌, inl, inr,
}
use cloudlink.ResourceModel.Types.{Capacity, ResourceRequest, Shortage}

-- A worker that was considered and how it falls short (`resource_request_rejection`).
pub record Candidate : Type 0 where
  pub worker_id : String
  pub supported_types : List String
  pub capacity : Capacity

-- The `detail` of `ResourceUnsatisfiable`, by its `code`.
pub data Rejection : Type 0 where
  gpu_runtime_declaration_invalid : Rejection
  resource_request_unsatisfiable :
      ResourceRequest → List Candidate → List (String × List Shortage) → Rejection
  dataset_unavailable : List String → Rejection

pub data Error : Type 0 where
  task_conflict : String → Error
  task_not_found : String → Error
  worker_not_registered : String → Error
  payload_too_large : String → Error
  resource_unsatisfiable : Rejection → Error
  queue_limit_exceeded : ℕ → ℕ → Error
  resource_invalid : String → Error
  dataset_not_found : String → Error
  uninstall_invite_error : String → Error
  uninstall_invite_not_found : Error
  uninstall_invite_expired : Error
  install_invite_error : String → Error
  install_invite_not_found : Error
  install_invite_used : Error
  install_invite_expired : Error
  integrity_error : String → Error
  artifact_conflict : String → Error
  artifact_not_found : String → Error
  artifact_gone : String → Error
  dataset_conflict : String → Error
  value_error : String → Error
  file_not_found : String → Error
  storage_object_gone : String → Error
  http_error : ℕ → String → Error

pub data Result {ℓ} (A : Type ℓ) : Type ℓ where
  ok : A → Result A
  err : Error → Result A

-- `if bad: raise e`.
abbrev pub raise_if : Bool → Error → Result (Unit {0})
raise_if true e = err e
raise_if false e = ok tt

-- A row that a query did not find.
abbrev pub or_raise {ℓ} : {A : Type ℓ} → Option A → Error → Result A
or_raise none e = err e
or_raise (some a) e = ok a

pub Result-cases {ℓ} :
    {A : Type ℓ} (r : Result A) → ((e : Error) × (r ≡ err e)) ⊎ ((a : A) × (r ≡ ok a))
Result-cases (ok a) = inr (a, refl)
Result-cases (err e) = inl (e, refl)

abbrev value_or {ℓ} : {A : Type ℓ} → A → Result A → A
value_or d (ok a) = a
value_or d (err e) = d

pub ok_injective {ℓ} : {A : Type ℓ} (a b : A) → Result.ok a ≡ ok b → a ≡ b
ok_injective a b h = ap (value_or a) h

infixl 5 ◌>>=◌ ◌>>◌
abbrev pub ◌>>=◌ {ℓ κ} : {A : Type ℓ} {B : Type κ} → Result A → (A → Result B) → Result B
err e >>= next = err e
ok found >>= next = next found

abbrev pub ◌>>◌ {ℓ κ} : {A : Type ℓ} {B : Type κ} → Result A → Result B → Result B
first >> next = first >>= λ _. next
