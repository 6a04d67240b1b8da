-- ===== src/ResourceModel/Request/Laws.antt =====
-- What a normalized request says of its source, and that normalizing again changes nothing.
use cloudlink.Prelude.{
  ℕ, zero, suc, ◌+◌, ◌-◌, ◌*◌, ◌/◌, ◌^◌, ◌<◌, ◌≤◌, Bool, true, false, String, Option, none, some,
  ◌≡◌, refl, arith, ltb, nat_eq, ◌⊎◌, inl, inr, Bool-cases, sym, ◌∙◌, subst,
}
use cloudlink.Prelude.Double.{float, float_exact, ceil_div}
use native.Mathlib.Nat.{
  pow-suc, div-le_self, div-eq_of_lt, div-le_of_le-mul, div-mul-le_self, lt-div-mul-add,
}
use cloudlink.Errors.{ok, Result-cases}
use cloudlink.ResourceModel.Types.{ResourceRequest}
use cloudlink.ResourceModel.Request.{
  Value, whole, fraction, negative, not_number, null, Source, GpuSource, no_gpu, get, truthy,
  gpu_object, int, ceil_int, normalize_resource_request,
}

-- A normalized request, written down again as the JSON document that is stored.
abbrev bool_value : Bool → Value
bool_value true = whole 1
bool_value false = whole 0

pub to_source : ResourceRequest → Source
to_source r = record {
  cpu_cores = some (whole r.cpu_cores);
  memory_bytes = some (whole r.memory_bytes);
  job_disk_bytes = some (whole r.job_disk_bytes);
  dataset_disk_bytes = some (whole r.dataset_disk_bytes);
  expected_runtime_seconds = some (whole r.expected_runtime_seconds);
  concurrency_slots = some (whole r.concurrency_slots);
  gpu = some (
      some (record {
        required = some (bool_value r.gpu.required);
        count = some (whole r.gpu.count);
        memory_bytes = some (whole r.gpu.memory_bytes);
      }));
}

int_whole : (n : ℕ) (field : String) → n < 2 ^ 53 → int (whole n) field ≡ ok n
unfolding int
int_whole n field h = rw (float_exact n h) (ground arith)

ceil_int_whole : (n : ℕ) (field : String) → n < 2 ^ 53 → ceil_int (whole n) field ≡ ok n
unfolding ceil_int
ceil_int_whole n field h = rw (float_exact n h) (ground arith)

truthy-bool_value : (b : Bool) → truthy (bool_value b) ≡ b
truthy-bool_value true = refl
truthy-bool_value false = refl

-- The GPU part of a request as it was written; a missing one is empty.
unfoldable pub gpu_source : Option (Option GpuSource) → GpuSource
gpu_source none = no_gpu
gpu_source (some none) = no_gpu
gpu_source (some (some g)) = g

-- What a result has been read from.
record Readings (s : Source) (r : ResourceRequest) : Type 0 where
  slots : int (get s.concurrency_slots 1) "concurrency_slots" ≡ ok r.concurrency_slots
  some_slot : 1 ≤ r.concurrency_slots
  cpu : ceil_int (get s.cpu_cores 0) "cpu_cores" ≡ ok r.cpu_cores
  memory : int (get s.memory_bytes 0) "memory_bytes" ≡ ok r.memory_bytes
  job_disk : int (get s.job_disk_bytes 0) "job_disk_bytes" ≡ ok r.job_disk_bytes
  dataset_disk : int (get s.dataset_disk_bytes 0) "dataset_disk_bytes" ≡ ok r.dataset_disk_bytes
  runtime :
      int (get s.expected_runtime_seconds 0) "expected_runtime_seconds"
      ≡ ok r.expected_runtime_seconds
  gpu_count : int (get (gpu_source s.gpu).count 0) "gpu.count" ≡ ok r.gpu.count
  gpu_memory :
      int (get (gpu_source s.gpu).memory_bytes 0) "gpu.memory_bytes" ≡ ok r.gpu.memory_bytes
  required : truthy (get (gpu_source s.gpu).required 0) ≡ r.gpu.required

gpu_object_ok :
    (o : Option (Option GpuSource)) (g : GpuSource) → gpu_object o ≡ ok g → gpu_source o ≡ g
unfolding gpu_source
gpu_object_ok none g h = ground arith
gpu_object_ok (some none) g h = absurd (cc)
gpu_object_ok (some (some x)) g h = ground arith

normalize-Readings :
    (s : Source) (r : ResourceRequest) → normalize_resource_request s ≡ ok r → Readings s r
unfolding normalize_resource_request
normalize-Readings s r h = elim (Result-cases (gpu_object s.gpu)) [
  | inl (e, no_object) ↦ absurd (ground arith)
  | inr (g, object) ↦
      let is_gpu = gpu_object_ok s.gpu g object in
      record {
        slots = ground arith;
        some_slot = ground arith;
        cpu = ground arith;
        memory = ground arith;
        job_disk = ground arith;
        dataset_disk = ground arith;
        runtime = ground arith;
        gpu_count = rw is_gpu (ground arith);
        gpu_memory = rw is_gpu (ground arith);
        required = rw is_gpu (ground arith);
      }
]

-- A number that was written below 2 ^ 53, a fraction with a mantissa of at most 53 bits.
abbrev pub IsSmallValue : Value → Type 0
IsSmallValue (whole n) = n < 2 ^ 53
IsSmallValue (fraction m k) = m < 2 ^ 53
IsSmallValue _ = Unit

pub record IsSmallSource (s : Source) : Type 0 where
  pub slots : IsSmallValue (get s.concurrency_slots 1)
  pub cpu : IsSmallValue (get s.cpu_cores 0)
  pub memory : IsSmallValue (get s.memory_bytes 0)
  pub job_disk : IsSmallValue (get s.job_disk_bytes 0)
  pub dataset_disk : IsSmallValue (get s.dataset_disk_bytes 0)
  pub runtime : IsSmallValue (get s.expected_runtime_seconds 0)
  pub gpu_count : IsSmallValue (get (gpu_source s.gpu).count 0)
  pub gpu_memory : IsSmallValue (get (gpu_source s.gpu).memory_bytes 0)

pow_pos : (k : ℕ) → 0 < 2 ^ k
pow_pos zero = omega arith
pow_pos (suc k) = omega (arith, pow-suc 2 k, pow_pos k)

int_small : (v : Value) (field : String) (n : ℕ) → int v field ≡ ok n → IsSmallValue v → n < 2 ^ 53
unfolding int
int_small (whole m) field n h small =
    let e : float m ≡ n = ground arith in
    subst (λ k. k < 2 ^ 53) (sym (float_exact m small) ∙ e) small
int_small (fraction m k) field n h small =
    let le = div-le_self m (2 ^ k) in let e : m / 2 ^ k ≡ n = ground arith in omega arith
int_small negative field n h small = absurd (cc)
int_small not_number field n h small = absurd (cc)
int_small null field n h small = absurd (cc)

ceil_div-le : (m d : ℕ) → 0 < d → ceil_div m d ≤ m
ceil_div-le zero d h = let e = div-eq_of_lt {n = 0 + d - 1} {m = d} (omega arith) in omega arith
ceil_div-le (suc m) zero h = absurd (omega arith)
ceil_div-le (suc m) (suc d) h = div-le_of_le-mul (suc d) (omega arith)

ceil_whole : (m : ℕ) (field : String) (n : ℕ) → ceil_int (whole m) field ≡ ok n → float m ≡ n
unfolding ceil_int
ceil_whole m field n h = ground arith

ceil_int_small :
    (v : Value) (field : String) (n : ℕ) → ceil_int v field ≡ ok n → IsSmallValue v → n < 2 ^ 53
unfolding ceil_int
ceil_int_small (whole m) field n h small =
    let e = ceil_whole m field n h in subst (λ k. k < 2 ^ 53) (sym (float_exact m small) ∙ e) small
ceil_int_small (fraction m k) field n h small =
    let e : ceil_div m (2 ^ k) ≡ n = ground arith in
    let le = ceil_div-le m (2 ^ k) (pow_pos k) in omega arith
ceil_int_small negative field n h small = absurd (cc)
ceil_int_small not_number field n h small = absurd (cc)
ceil_int_small null field n h small = absurd (cc)

-- When the whole numbers of a request are below 2 ^ 53, and so are the mantissas of its fractions, its
-- normalization, written down and normalized again, does not change.
pub normalize-to_source :
    (s : Source) (r : ResourceRequest)
    → IsSmallSource s
    → normalize_resource_request s ≡ ok r
    → normalize_resource_request (to_source r) ≡ ok r
unfolding normalize_resource_request to_source
normalize-to_source s r small h =
    let q = normalize-Readings s r h in
    let some_slot = q.some_slot in
    rw
      (
        int_whole r.concurrency_slots "concurrency_slots" (int_small _ _ _ q.slots small.slots),
        ceil_int_whole r.cpu_cores "cpu_cores" (ceil_int_small _ _ _ q.cpu small.cpu),
        int_whole r.memory_bytes "memory_bytes" (int_small _ _ _ q.memory small.memory),
        int_whole r.job_disk_bytes "job_disk_bytes" (int_small _ _ _ q.job_disk small.job_disk),
        int_whole r.dataset_disk_bytes "dataset_disk_bytes"
            (int_small _ _ _ q.dataset_disk small.dataset_disk),
        int_whole r.expected_runtime_seconds "expected_runtime_seconds"
            (int_small _ _ _ q.runtime small.runtime),
        int_whole r.gpu.count "gpu.count" (int_small _ _ _ q.gpu_count small.gpu_count),
        int_whole r.gpu.memory_bytes "gpu.memory_bytes"
            (int_small _ _ _ q.gpu_memory small.gpu_memory),
        truthy-bool_value r.gpu.required,
      )
      (ground arith)

-- The whole number that a value stands for: as it was written, or from 2 ^ 53 on the nearest double.
abbrev pub Denotes : Value → ℕ → Type 0
Denotes (whole m) n = (n ≡ m) ⊎ ((2 ^ 53 ≤ m) × (n ≡ float m))
Denotes (fraction m k) n = m ≡ n * 2 ^ k
Denotes negative n = ⊥
Denotes not_number n = ⊥
Denotes null n = ⊥

-- The least whole number that is not below a value.
abbrev pub Ceils : Value → ℕ → Type 0
Ceils (whole m) n = (n ≡ m) ⊎ ((2 ^ 53 ≤ m) × (n ≡ float m))
Ceils (fraction m k) n = (m ≤ n * 2 ^ k) × (n * 2 ^ k < m + 2 ^ k)
Ceils negative n = ⊥
Ceils not_number n = ⊥
Ceils null n = ⊥

float_whole : (m n : ℕ) → float m ≡ n → (n ≡ m) ⊎ ((2 ^ 53 ≤ m) × (n ≡ float m))
float_whole m n h = elim (Bool-cases (ltb m (2 ^ 53))) [
  | inl small ↦ inl (sym h ∙ float_exact m (ground arith))
  | inr large ↦ inr (ground arith, sym h)
]

int_ok : (v : Value) (field : String) (n : ℕ) → int v field ≡ ok n → Denotes v n
unfolding int
int_ok (whole m) field n h = float_whole m n (ground arith)
int_ok (fraction m k) field n h = grind (arith, pow_pos k)
int_ok negative field n h = absurd (cc)
int_ok not_number field n h = absurd (cc)
int_ok null field n h = absurd (cc)

ceil_int_ok : (v : Value) (field : String) (n : ℕ) → ceil_int v field ≡ ok n → Ceils v n
unfolding ceil_int
ceil_int_ok (whole m) field n h = float_whole m n (ceil_whole m field n h)
ceil_int_ok (fraction m k) field n h =
    let p = pow_pos k in
    let e : ceil_div m (2 ^ k) ≡ n = ground arith in
    let below : n * 2 ^ k ≤ m + 2 ^ k - 1 = rw e at (div-mul-le_self (m + 2 ^ k - 1) (2 ^ k)) in
    let above : m + 2 ^ k - 1 < n * 2 ^ k + 2 ^ k =
      rw e at (lt-div-mul-add {a = m + 2 ^ k - 1} p) in
    (omega arith, omega arith)
ceil_int_ok negative field n h = absurd (cc)
ceil_int_ok not_number field n h = absurd (cc)
ceil_int_ok null field n h = absurd (cc)

-- What a normalized request says of its source: slots, bytes, seconds and the count and memory of GPUs are
-- the whole numbers that were written, or their nearest doubles from 2 ^ 53 on; the cores are rounded up;
-- a GPU is required when the value written for that is true; and at least one slot is taken.
pub normalize_sound :
    (s : Source) (r : ResourceRequest)
    → normalize_resource_request s ≡ ok r
    → Ceils (get s.cpu_cores 0) r.cpu_cores
      × Denotes (get s.concurrency_slots 1) r.concurrency_slots
      × Denotes (get s.memory_bytes 0) r.memory_bytes
      × Denotes (get s.job_disk_bytes 0) r.job_disk_bytes
      × Denotes (get s.dataset_disk_bytes 0) r.dataset_disk_bytes
      × Denotes (get s.expected_runtime_seconds 0) r.expected_runtime_seconds
      × Denotes (get (gpu_source s.gpu).count 0) r.gpu.count
      × Denotes (get (gpu_source s.gpu).memory_bytes 0) r.gpu.memory_bytes
      × (truthy (get (gpu_source s.gpu).required 0) ≡ r.gpu.required)
      × (1 ≤ r.concurrency_slots)
normalize_sound s r h =
    let q = normalize-Readings s r h in
    (
      ceil_int_ok _ _ _ q.cpu,
      int_ok _ _ _ q.slots,
      int_ok _ _ _ q.memory,
      int_ok _ _ _ q.job_disk,
      int_ok _ _ _ q.dataset_disk,
      int_ok _ _ _ q.runtime,
      int_ok _ _ _ q.gpu_count,
      int_ok _ _ _ q.gpu_memory,
      q.required,
      q.some_slot,
    )
