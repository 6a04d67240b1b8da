-- ===== src/Tests/Resources.antt =====
-- The theorems on resources and versions at concrete requests, profiles and versions.
use cloudlink.Prelude.{◌≤◌, true, [], ◌∷◌, none, some, ◌≡◌, refl, ◌↔◌, arith, strip}
use cloudlink.Prelude.Double.{float}
use cloudlink.Errors.{ok}
use cloudlink.ResourceModel.Types.{ResourceRequest}
use cloudlink.ResourceModel.Request.{
  Source, no_source, fraction, whole, truthy, get, normalize_resource_request, int, ceil_int,
}
use cloudlink.ResourceModel.Request.Laws.{
  gpu_source, to_source, Denotes, Ceils, IsSmallSource, normalize-to_source, normalize_sound,
}
use cloudlink.ResourceModel.Profile.{
  RawProfile, ReserveOverrides, Profile, subtract_reserved_profile, IsSmallReserve, HoldsBack,
  subtract_reserved_profile-HoldsBack,
}
use cloudlink.ResourceModel.Fits.{fits_capacity, Satisfies, fits_capacity_iff}
use cloudlink.Version.{version_at_least, numeric_version_parts}
use cloudlink.Version.Order.{Reads, version_at_least_iff, IsAtLeast}
use cloudlink.Tests.World.{two_cores, eight_cores}

fits_capacity_iff_example :
    ((fits_capacity two_cores eight_cores).0 ≡ true) ↔ Satisfies two_cores eight_cores
fits_capacity_iff_example =
    fits_capacity_iff two_cores eight_cores
      (record {
        cpu = omega arith;
        memory = omega arith;
        job_disk = omega arith;
        dataset_disk = omega arith;
      })
      (record {
        cpu = omega arith;
        memory = omega arith;
        job_disk = omega arith;
        dataset_disk = omega arith;
      })

-- One and a half cores, which take two, and two devices.
abbrev written : Source
written = record no_source {
  cpu_cores = some (fraction 3 1);
  memory_bytes = some (fraction 2000 1);
  gpu = some (
      some (record {
        required = some (whole 1);
        count = some (whole 2);
        memory_bytes = some (whole 8000);
      }));
}

abbrev read : ResourceRequest
read = record two_cores {
  cpu_cores = 2;
  memory_bytes = 1000;
  gpu = record { required = true; count = 2; memory_bytes = 8000 };
}

reads : normalize_resource_request written ≡ ok read
unfolding normalize_resource_request int ceil_int float
reads = refl

written-IsSmall : IsSmallSource written
unfolding gpu_source
written-IsSmall = record {
  slots = omega arith;
  cpu = omega arith;
  memory = omega arith;
  job_disk = omega arith;
  dataset_disk = omega arith;
  runtime = omega arith;
  gpu_count = omega arith;
  gpu_memory = omega arith;
}

normalize-to_source_example : normalize_resource_request (to_source read) ≡ ok read
normalize-to_source_example = normalize-to_source written read written-IsSmall reads

normalize_sound_example :
    Ceils (get written.cpu_cores 0) 2
    × Denotes (get written.concurrency_slots 1) 1
    × Denotes (get written.memory_bytes 0) 1000
    × Denotes (get written.job_disk_bytes 0) 0
    × Denotes (get written.dataset_disk_bytes 0) 0
    × Denotes (get written.expected_runtime_seconds 0) 0
    × Denotes (get (gpu_source written.gpu).count 0) 2
    × Denotes (get (gpu_source written.gpu).memory_bytes 0) 8000
    × (truthy (get (gpu_source written.gpu).required 0) ≡ true)
    × (1 ≤ 1)
normalize_sound_example = normalize_sound written read reads

abbrev machine : RawProfile
machine = record {
  cpu_logical_cores = some 16;
  memory_total_bytes = some 68719476736;
  job_disk_total_bytes = some 1099511627776;
  dataset_disk_total_bytes = none;
  gpu_devices = [];
}

abbrev no_overrides : ReserveOverrides
no_overrides = record {
  cpu_cores = some 2;
  memory_bytes = some 1073741824;
  job_disk_bytes = none;
  dataset_disk_bytes = none;
  disk_bytes = some 1000;
  gpu_memory_bytes = some 0;
}

abbrev profile : Profile
profile = subtract_reserved_profile machine no_overrides

reserve-IsSmall : IsSmallReserve profile.reserve
unfolding subtract_reserved_profile float
reserve-IsSmall = record {
  cpu = omega arith;
  memory = omega arith;
  job_disk = omega arith;
  dataset_disk = omega arith;
}

subtract_reserved_profile-HoldsBack_example :
    HoldsBack 16 profile.reserve.cpu_cores profile.scheduler.cpu_cores
    × HoldsBack 68719476736 profile.reserve.memory_bytes profile.scheduler.memory_bytes
    × HoldsBack 1099511627776 profile.reserve.job_disk_bytes profile.scheduler.job_disk_bytes
    × HoldsBack 1099511627776 profile.reserve.dataset_disk_bytes
        profile.scheduler.dataset_disk_bytes
subtract_reserved_profile-HoldsBack_example =
    subtract_reserved_profile-HoldsBack machine no_overrides
      (record {
        cpu = omega arith;
        memory = omega arith;
        job_disk = omega arith;
        dataset_disk = omega arith;
      })
      reserve-IsSmall

old_version : Reads "2026.07" (2026 ∷ 7 ∷ [])
unfolding numeric_version_parts strip
old_version = record { given = refl; numeric = refl }

version : Reads "2026.7.0" (2026 ∷ 7 ∷ 0 ∷ [])
unfolding numeric_version_parts strip
version = record { given = refl; numeric = refl }

new_version : Reads "2026.08" (2026 ∷ 8 ∷ [])
unfolding numeric_version_parts strip
new_version = record { given = refl; numeric = refl }

version_at_least_iff_example :
    (version_at_least "2026.08" "2026.7.0" ≡ true) ↔ IsAtLeast (2026 ∷ 8 ∷ []) (2026 ∷ 7 ∷ 0 ∷ [])
version_at_least_iff_example =
    version_at_least_iff "2026.08" "2026.7.0" (2026 ∷ 8 ∷ []) (2026 ∷ 7 ∷ 0 ∷ []) new_version
      version

newer : version_at_least "2026.08" "2026.7.0" ≡ true
unfolding version_at_least
newer = refl

as_new : version_at_least "2026.07" "2026.7.0" ≡ true
unfolding version_at_least
as_new = refl
