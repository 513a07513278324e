-- ===== src/Tier/Cost.antt =====
-- cost_model.hpp and the bandwidths of tier_model.hpp: predicted microseconds of a scan and of a migration. The
-- arithmetic of `double` is a parameter; a constant is the quotient of two whole numbers.
use matrixdb.Prelude.{ℕ, Bool, not, if◌then◌else◌}
use matrixdb.Tier.{MemorySpace, host, device, cold, unified, same_tier}

-- `truncate` is the conversion to `int`, with 0 for what is below 0.
pub record Real (F : Type 0) : Type 0 where
  pub of_size : ℕ → F
  pub add : F → F → F
  pub sub : F → F → F
  pub mul : F → F → F
  pub div : F → F → F
  pub less : F → F → Bool
  pub at_most : F → F → Bool
  pub equal : F → F → Bool
  pub truncate : F → ℕ

pub record CostModel : Type 0 where
  pub is_unified : Bool
  pub gpu_available : Bool

module _ {F : Type 0} (real : Real F) where
  unfoldable pub scan_bytes_per_us : MemorySpace → F
  scan_bytes_per_us device = real.of_size 240000
  scan_bytes_per_us host = real.of_size 10000
  scan_bytes_per_us cold = real.of_size 3000
  scan_bytes_per_us unified = real.of_size 240000

  unfoldable pub host_scan_us : ℕ → F
  host_scan_us bytes = real.div (real.of_size bytes) (real.of_size 10000)

  unfoldable pub device_scan_us : ℕ → F
  device_scan_us bytes =
      real.add (real.add (real.of_size 30) (real.of_size 0))
        (real.div (real.of_size bytes) (real.of_size 240000))

  unfoldable pub scan_us : MemorySpace → ℕ → F
  scan_us s bytes =
      real.add (real.of_size (if same_tier s device then 30 else 0))
        (real.div (real.of_size bytes) (scan_bytes_per_us s))

  module _ (cm : CostModel) where
    unfoldable pub place_point : MemorySpace
    place_point = host

    unfoldable pub place_scan : ℕ → MemorySpace
    place_scan bytes =
        if not cm.gpu_available
        then host
        else if real.less (device_scan_us bytes) (host_scan_us bytes)
        then device
        else host

    unfoldable pub migration_us : MemorySpace → MemorySpace → ℕ → F
    migration_us from to bytes =
        let read_bw = scan_bytes_per_us from in
        let write_bw = scan_bytes_per_us to in
        let slower = if real.less read_bw write_bw then read_bw else write_bw in
        if same_tier from to
        then real.of_size 0
        else if cm.is_unified
        then real.of_size 0
        else real.div (real.of_size bytes) slower
