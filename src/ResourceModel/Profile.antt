-- ===== src/ResourceModel/Profile.antt =====
-- `subtract_reserved_profile`: what is left of a machine for the scheduler. Amounts are
-- non-negative integers, so its readers raise nothing.
use cloudlink.Prelude.{
  ℕ, ◌+◌, ◌-◌, ◌*◌, ◌^◌, ◌<◌, max, String, List, [], ◌∷◌, map, Option, none, some, ◌≡◌, arith, ltb,
  if◌then◌else◌, or_else, coalesce, text_or, text_of,
}
use cloudlink.Prelude.Double.{float, ceil_fifth, gib_fifth, gib_tenth, float_exact}
use cloudlink.ResourceModel.Types.{Telemetry, GpuDevice, Capacity}

abbrev gib : ℕ
gib = 2 ^ 30

pub record RawGpu : Type 0 where
  pub name : Option String
  pub memory_total_bytes : Option ℕ
  pub memory_free_bytes : Option ℕ
  pub telemetry : Telemetry

pub record RawProfile : Type 0 where
  pub cpu_logical_cores : Option ℕ
  pub memory_total_bytes : Option ℕ
  pub job_disk_total_bytes : Option ℕ
  pub dataset_disk_total_bytes : Option ℕ
  pub gpu_devices : List RawGpu

pub record Reserve : Type 0 where
  pub cpu_cores : ℕ
  pub memory_bytes : ℕ
  pub job_disk_bytes : ℕ
  pub dataset_disk_bytes : ℕ
  pub gpu_memory_bytes : ℕ

-- What an administrator or the worker sets instead; `disk_bytes` stands in for both disks.
pub record ReserveOverrides : Type 0 where
  pub cpu_cores : Option ℕ
  pub memory_bytes : Option ℕ
  pub job_disk_bytes : Option ℕ
  pub dataset_disk_bytes : Option ℕ
  pub disk_bytes : Option ℕ
  pub gpu_memory_bytes : Option ℕ

-- `_int(source.get(key, 0), key)`.
abbrev amount : Option ℕ → ℕ
amount o = float (or_else o 0)

-- `floor if total else 0`.
abbrev if_any : ℕ → ℕ → ℕ
if_any total floor = if ltb 0 total then floor else 0

max_total : List RawGpu → ℕ
max_total [] = 0
max_total (d ∷ ds) = max (amount d.memory_total_bytes) (max_total ds)

unfoldable pub default_reserve : RawProfile → Reserve
unfolding max_total
default_reserve raw = record {
  cpu_cores = max (if_any cpu_total 1) (ceil_fifth cpu_total);
  memory_bytes = max (if_any memory_total (4 * gib)) (gib_fifth memory_total);
  job_disk_bytes = max (if_any job_disk_total (20 * gib)) (gib_tenth job_disk_total);
  dataset_disk_bytes = max (if_any dataset_total (20 * gib)) (gib_tenth dataset_total);
  gpu_memory_bytes = max (if_any gpu_total (1 * gib)) (gib_tenth gpu_total);
}
  where
    cpu_total : ℕ
    cpu_total = amount raw.cpu_logical_cores

    memory_total : ℕ
    memory_total = amount raw.memory_total_bytes

    job_disk_total : ℕ
    job_disk_total = amount raw.job_disk_total_bytes

    dataset_total : ℕ
    dataset_total = float (or_else raw.dataset_disk_total_bytes job_disk_total)

    gpu_total : ℕ
    gpu_total = max_total raw.gpu_devices

abbrev chosen_reserve : Reserve → ReserveOverrides → Reserve
chosen_reserve defaults overrides = record {
  cpu_cores = float (or_else overrides.cpu_cores defaults.cpu_cores);
  memory_bytes = float (or_else overrides.memory_bytes defaults.memory_bytes);
  job_disk_bytes =
      float
        (or_else (coalesce overrides.job_disk_bytes overrides.disk_bytes) defaults.job_disk_bytes);
  dataset_disk_bytes = float (
      or_else (coalesce overrides.dataset_disk_bytes overrides.disk_bytes)
        defaults.dataset_disk_bytes);
  gpu_memory_bytes = float (or_else overrides.gpu_memory_bytes defaults.gpu_memory_bytes);
}

-- `max(0, total - reserve)`, on doubles that are integers.
unfoldable pub subtract : ℕ → ℕ → ℕ
subtract total reserve = float (float total - float reserve)

-- The same on integers.
unfoldable pub subtract_int : ℕ → ℕ → ℕ
subtract_int total reserve = float total - float reserve

scheduler_gpu : ℕ → RawGpu → GpuDevice
scheduler_gpu reserve d = record {
  name = text_or (text_of d.name) "GPU";
  memory_bytes = elim d.memory_total_bytes [ none ↦ 0 | some total ↦ subtract total reserve ];
  memory_free_bytes = or_else d.memory_free_bytes 0;
  telemetry = d.telemetry;
}

pub record Profile : Type 0 where
  pub raw : RawProfile
  pub reserve : Reserve
  pub scheduler : Capacity

unfoldable pub subtract_reserved_profile : RawProfile → ReserveOverrides → Profile
unfolding scheduler_gpu
subtract_reserved_profile raw overrides =
    let reserve : Reserve = chosen_reserve (default_reserve raw) overrides in
    record {
      raw = raw;
      reserve = reserve;
      scheduler = record {
        cpu_cores = some (subtract_int (or_else raw.cpu_logical_cores 0) reserve.cpu_cores);
        memory_bytes = some (subtract (or_else raw.memory_total_bytes 0) reserve.memory_bytes);
        job_disk_bytes =
            some (subtract (or_else raw.job_disk_total_bytes 0) reserve.job_disk_bytes);
        dataset_disk_bytes = some (
            subtract (or_else raw.dataset_disk_total_bytes (or_else raw.job_disk_total_bytes 0))
              reserve.dataset_disk_bytes);
        gpu_devices = map (scheduler_gpu reserve.gpu_memory_bytes) raw.gpu_devices;
      };
    }

-- A reserve is held back in full: what is scheduled and what is reserved make up the total, unless
-- the reserve alone is the larger.
abbrev pub HoldsBack : ℕ → ℕ → Option ℕ → Type 0
HoldsBack total reserve none = ⊥
HoldsBack total reserve (some scheduled) = scheduled + reserve ≡ max total reserve

subtract_lem :
    (total reserve : ℕ)
    → total < 2 ^ 53
    → reserve < 2 ^ 53
    → subtract total reserve + reserve ≡ max total reserve
unfolding subtract
subtract_lem t r h k =
    rw (float_exact t h, float_exact r k, float_exact (t - r) (omega arith)) (omega arith)

subtract_int_lem :
    (total reserve : ℕ)
    → total < 2 ^ 53
    → reserve < 2 ^ 53
    → subtract_int total reserve + reserve ≡ max total reserve
unfolding subtract_int
subtract_int_lem t r h k = rw (float_exact t h, float_exact r k) (omega arith)

pub record IsSmallProfile (raw : RawProfile) : Type 0 where
  pub cpu : or_else raw.cpu_logical_cores 0 < 2 ^ 53
  pub memory : or_else raw.memory_total_bytes 0 < 2 ^ 53
  pub job_disk : or_else raw.job_disk_total_bytes 0 < 2 ^ 53
  pub dataset_disk : or_else raw.dataset_disk_total_bytes 0 < 2 ^ 53

pub record IsSmallReserve (r : Reserve) : Type 0 where
  pub cpu : r.cpu_cores < 2 ^ 53
  pub memory : r.memory_bytes < 2 ^ 53
  pub job_disk : r.job_disk_bytes < 2 ^ 53
  pub dataset_disk : r.dataset_disk_bytes < 2 ^ 53

-- For totals and reserves below 2 ^ 53, of processor cores, memory and both disks the scheduler gets
-- the total less the reserve, and nothing where the reserve is the larger; a dataset disk of unknown
-- size counts as the job disk.
pub subtract_reserved_profile-HoldsBack :
    (raw : RawProfile) (overrides : ReserveOverrides)
    → IsSmallProfile raw
    → IsSmallReserve (subtract_reserved_profile raw overrides).reserve
    → let p = subtract_reserved_profile raw overrides in
      HoldsBack (or_else raw.cpu_logical_cores 0) p.reserve.cpu_cores p.scheduler.cpu_cores
      × HoldsBack (or_else raw.memory_total_bytes 0) p.reserve.memory_bytes p.scheduler.memory_bytes
      × HoldsBack
          (or_else raw.job_disk_total_bytes 0)
          p.reserve.job_disk_bytes
          p.scheduler.job_disk_bytes
      × HoldsBack
          (or_else raw.dataset_disk_total_bytes (or_else raw.job_disk_total_bytes 0))
          p.reserve.dataset_disk_bytes
          p.scheduler.dataset_disk_bytes
unfolding subtract_reserved_profile
subtract_reserved_profile-HoldsBack raw overrides h k =
    let r : Reserve = (subtract_reserved_profile raw overrides).reserve in
    (
      subtract_int_lem (or_else raw.cpu_logical_cores 0) r.cpu_cores h.cpu k.cpu,
      subtract_lem (or_else raw.memory_total_bytes 0) r.memory_bytes h.memory k.memory,
      subtract_lem (or_else raw.job_disk_total_bytes 0) r.job_disk_bytes h.job_disk k.job_disk,
      subtract_lem (or_else raw.dataset_disk_total_bytes (or_else raw.job_disk_total_bytes 0))
          r.dataset_disk_bytes (ground arith) k.dataset_disk,
    )
