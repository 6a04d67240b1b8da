-- ===== src/ResourceModel/Fits.antt =====
-- `fits_capacity` against its reading as a comparison, resource by resource.
use cloudlink.Prelude.{
  ℕ, ◌^◌, ◌≤◌, ◌<◌, max, Bool, true, false, ◌&&◌, List, [], ◌∷◌, ◌++◌, Option, none, some, ◌≡◌,
  refl, ◌↔◌, arith, ltb, leb, if◌then◌else◌, ◌==◌, nat_eq, length, select,
}
use cloudlink.Prelude.Double.{float, float_exact}
use cloudlink.ResourceModel.Types.{
  GpuDevice, GpuRequest, ResourceRequest, Capacity, Resource, Shortage, short, gpu_short,
}

-- One round of the loop over the four fields.
unfoldable pub field_shortage : Resource → ℕ → Option ℕ → List Shortage
field_shortage r requested none = if ltb 0 requested then short r requested none ∷ [] else []
field_shortage r requested (some available) =
    if ltb 0 requested && ltb (float available) (float requested)
    then short r requested (some available) ∷ []
    else []

-- `int(gpu_request.get("count") or 1)`.
abbrev pub count_or_one : ℕ → ℕ
count_or_one n = if n == 0 then 1 else n

abbrev pub matching : ℕ → List GpuDevice → List GpuDevice
matching memory devices = select (λ d. leb memory d.memory_bytes) devices

max_memory : List GpuDevice → ℕ
max_memory [] = 0
max_memory (d ∷ ds) = max d.memory_bytes (max_memory ds)

unfoldable pub gpu_shortage : GpuRequest → List GpuDevice → List Shortage
unfolding max_memory
gpu_shortage r devices =
    if r.required && ltb (length (matching r.memory_bytes devices)) (count_or_one r.count)
    then gpu_short (count_or_one r.count) r.memory_bytes (length (matching r.memory_bytes devices))
        (max_memory devices)
      ∷ []
    else []

abbrev is_empty : List Shortage → Bool
is_empty [] = true
is_empty (x ∷ xs) = false

unfoldable pub shortages : ResourceRequest → Capacity → List Shortage
shortages r c =
    field_shortage Resource.cpu_cores r.cpu_cores c.cpu_cores
    ++ (field_shortage Resource.memory_bytes r.memory_bytes c.memory_bytes
        ++ (field_shortage Resource.job_disk_bytes r.job_disk_bytes c.job_disk_bytes
            ++ (field_shortage Resource.dataset_disk_bytes r.dataset_disk_bytes c.dataset_disk_bytes
                ++ gpu_shortage r.gpu c.gpu_devices)))

unfoldable pub fits_capacity : ResourceRequest → Capacity → Bool × List Shortage
fits_capacity r c = (is_empty (shortages r c), shortages r c)

-- What fitting means: nothing is asked for, or at least as much is offered.
abbrev pub Covers : ℕ → Option ℕ → Type 0
Covers requested none = requested ≡ 0
Covers requested (some available) = requested ≤ available

pub record Satisfies (r : ResourceRequest) (c : Capacity) : Type 0 where
  pub cpu : Covers r.cpu_cores c.cpu_cores
  pub memory : Covers r.memory_bytes c.memory_bytes
  pub job_disk : Covers r.job_disk_bytes c.job_disk_bytes
  pub dataset_disk : Covers r.dataset_disk_bytes c.dataset_disk_bytes
  pub gpu :
      r.gpu.required ≡ true
      → count_or_one r.gpu.count ≤ length (matching r.gpu.memory_bytes c.gpu_devices)

-- Amounts of at most 53 bits, on which `float` is exact.
abbrev pub IsSmall? : Option ℕ → Type 0
IsSmall? none = Unit
IsSmall? (some n) = n < 2 ^ 53

pub record IsSmallRequest (r : ResourceRequest) : Type 0 where
  pub cpu : r.cpu_cores < 2 ^ 53
  pub memory : r.memory_bytes < 2 ^ 53
  pub job_disk : r.job_disk_bytes < 2 ^ 53
  pub dataset_disk : r.dataset_disk_bytes < 2 ^ 53

pub record IsSmallCapacity (c : Capacity) : Type 0 where
  pub cpu : IsSmall? c.cpu_cores
  pub memory : IsSmall? c.memory_bytes
  pub job_disk : IsSmall? c.job_disk_bytes
  pub dataset_disk : IsSmall? c.dataset_disk_bytes

field_shortage-nil :
    (x : Resource) (n : ℕ) (a : Option ℕ)
    → n < 2 ^ 53
    → IsSmall? a
    → (is_empty (field_shortage x n a) ≡ true) ↔ Covers n a
unfolding field_shortage
field_shortage-nil x n none h k = ground arith
field_shortage-nil x n (some a) h k = rw (float_exact a k, float_exact n h) (ground arith)

gpu_shortage-nil :
    (r : GpuRequest) (ds : List GpuDevice)
    → (is_empty (gpu_shortage r ds) ≡ true)
      ↔ (r.required ≡ true → count_or_one r.count ≤ length (matching r.memory_bytes ds))
unfolding gpu_shortage
gpu_shortage-nil r ds = ground arith

is_empty-append : (xs ys : List Shortage) → is_empty (xs ++ ys) ≡ (is_empty xs && is_empty ys)
is_empty-append [] ys = refl
is_empty-append (x ∷ xs) ys = refl

is_empty-append_five :
    (a b c d e : List Shortage)
    → (is_empty (a ++ (b ++ (c ++ (d ++ e)))) ≡ true) ↔ (
        (is_empty a ≡ true)
        × (is_empty b ≡ true)
        × (is_empty c ≡ true)
        × (is_empty d ≡ true)
        × (is_empty e ≡ true))
is_empty-append_five a b c d e = simp is_empty-append (ground arith)

-- Below 2 ^ 53 a request fits exactly when every resource it asks for is offered in at least that
-- amount, and enough devices have the memory it asks for.
pub fits_capacity_iff :
    (r : ResourceRequest) (c : Capacity)
    → IsSmallRequest r
    → IsSmallCapacity c
    → ((fits_capacity r c).0 ≡ true) ↔ Satisfies r c
unfolding fits_capacity shortages
fits_capacity_iff r c hr hc =
    let all =
      is_empty-append_five (field_shortage Resource.cpu_cores r.cpu_cores c.cpu_cores)
        (field_shortage Resource.memory_bytes r.memory_bytes c.memory_bytes)
        (field_shortage Resource.job_disk_bytes r.job_disk_bytes c.job_disk_bytes)
        (field_shortage Resource.dataset_disk_bytes r.dataset_disk_bytes c.dataset_disk_bytes)
        (gpu_shortage r.gpu c.gpu_devices) in
    let cpu = field_shortage-nil Resource.cpu_cores r.cpu_cores c.cpu_cores hr.cpu hc.cpu in
    let memory =
      field_shortage-nil Resource.memory_bytes r.memory_bytes c.memory_bytes hr.memory hc.memory in
    let job =
      field_shortage-nil Resource.job_disk_bytes r.job_disk_bytes c.job_disk_bytes hr.job_disk
        hc.job_disk in
    let dataset =
      field_shortage-nil Resource.dataset_disk_bytes r.dataset_disk_bytes c.dataset_disk_bytes
        hr.dataset_disk hc.dataset_disk in
    let gpu = gpu_shortage-nil r.gpu c.gpu_devices in
    (
      (λ h.
          let p = all.0 h in
          record {
            cpu = cpu.0 p.0;
            memory = memory.0 p.1;
            job_disk = job.0 p.2;
            dataset_disk = dataset.0 p.3;
            gpu = gpu.0 p.4;
          }),
      (λ s. all.1 (
        cpu.1 s.cpu,
        memory.1 s.memory,
        job.1 s.job_disk,
        dataset.1 s.dataset_disk,
        gpu.1 s.gpu,
      )),
    )
