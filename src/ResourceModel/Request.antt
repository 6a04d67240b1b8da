-- ===== src/ResourceModel/Request.antt =====
-- `normalize_resource_request` and the readers of numbers that it calls. Infinities and
-- not-a-number are left out.
pub mod Laws
use cloudlink.Prelude.{
  ℕ, zero, suc, ◌+◌, ◌-◌, ◌*◌, ◌/◌, ◌%◌, ◌^◌, ◌<◌, ◌≤◌, Bool, true, false, String, Option, none,
  some, ◌≡◌, refl, arith, ltb, if◌then◌else◌, ◌==◌, nat_eq, ◌⊎◌, inl, inr, Bool-cases, sym, ◌∙◌,
  subst,
}
use cloudlink.Prelude.Double.{float, float_exact, ceil_div}
use native.Mathlib.Nat.{
  pow-suc, div-le_self, div-eq_of_lt, div-le_of_le-mul, div-mul-le_self, lt-div-mul-add,
}
use cloudlink.Errors.{Result, ok, err, ◌>>=◌, ◌>>◌, raise_if, resource_invalid, Result-cases}
use cloudlink.ResourceModel.Types.{ResourceRequest}

-- A value of a JSON document, by what `float` makes of it: `fraction m k` is the double m / 2 ^ k.
pub data Value : Type 0 where
  whole : ℕ → Value
  fraction : ℕ → ℕ → Value
  negative : Value
  not_number : Value
  null : Value

-- A double that is not negative: mantissa and negated exponent.
pub record Parsed : Type 0 where
  pub mantissa : ℕ
  pub shift : ℕ

unfoldable pub number : Value → String → Result Parsed
number (whole n) field = ok (record { mantissa = float n; shift = 0 })
number (fraction m k) field = ok (record { mantissa = m; shift = k })
number negative field = err (resource_invalid field)
number not_number field = err (resource_invalid field)
number null field = err (resource_invalid field)

unfoldable pub int : Value → String → Result ℕ
unfolding number
int v field = do
  parsed ← number v field
  raise_if (if parsed.mantissa % 2 ^ parsed.shift == 0 then false else true)
      (resource_invalid field)
  ok (parsed.mantissa / 2 ^ parsed.shift)

unfoldable pub ceil_int : Value → String → Result ℕ
unfolding number
ceil_int v field = do parsed ← number v field; ok (ceil_div parsed.mantissa (2 ^ parsed.shift))

-- `bool(value)` of a value under `required`.
abbrev pub truthy : Value → Bool
truthy (whole n) = ltb 0 n
truthy (fraction m k) = ltb 0 m
truthy negative = true
truthy not_number = true
truthy null = false

-- The keys that are read; a missing one is `none`. `gpu` is `none` when it is missing or empty, and
-- `some none` when it is not an object.
pub record GpuSource : Type 0 where
  pub required : Option Value
  pub count : Option Value
  pub memory_bytes : Option Value

pub record Source : Type 0 where
  pub cpu_cores : Option Value
  pub memory_bytes : Option Value
  pub job_disk_bytes : Option Value
  pub dataset_disk_bytes : Option Value
  pub expected_runtime_seconds : Option Value
  pub concurrency_slots : Option Value
  pub gpu : Option (Option GpuSource)

abbrev pub no_gpu : GpuSource
no_gpu = record { required = none; count = none; memory_bytes = none }

abbrev pub no_source : Source
no_source = record {
  cpu_cores = none;
  memory_bytes = none;
  job_disk_bytes = none;
  dataset_disk_bytes = none;
  expected_runtime_seconds = none;
  concurrency_slots = none;
  gpu = none;
}

-- `source.get(key, default)`.
abbrev pub get : Option Value → ℕ → Value
get none d = whole d
get (some v) d = v

abbrev pub gpu_object : Option (Option GpuSource) → Result GpuSource
gpu_object none = ok no_gpu
gpu_object (some none) = err (resource_invalid "gpu")
gpu_object (some (some g)) = ok g

unfoldable pub normalize_resource_request : Source → Result ResourceRequest
normalize_resource_request s = do
  gpu ← gpu_object s.gpu
  slots ← int (get s.concurrency_slots 1) "concurrency_slots"
  raise_if (ltb slots 1) (resource_invalid "concurrency_slots")
  cpu ← ceil_int (get s.cpu_cores 0) "cpu_cores"
  memory ← int (get s.memory_bytes 0) "memory_bytes"
  job ← int (get s.job_disk_bytes 0) "job_disk_bytes"
  dataset ← int (get s.dataset_disk_bytes 0) "dataset_disk_bytes"
  runtime ← int (get s.expected_runtime_seconds 0) "expected_runtime_seconds"
  count ← int (get gpu.count 0) "gpu.count"
  gpu_memory ← int (get gpu.memory_bytes 0) "gpu.memory_bytes"
  ok (record {
    cpu_cores = cpu;
    memory_bytes = memory;
    job_disk_bytes = job;
    dataset_disk_bytes = dataset;
    expected_runtime_seconds = runtime;
    concurrency_slots = slots;
    gpu = record {
      required = truthy (get gpu.required 0);
      count = count;
      memory_bytes = gpu_memory;
    };
  })
