-- ===== src/Memory.antt =====
-- internal/util/memory_derivation.go: the memory settings of a container, derived from its memory limit.
-- A limit counts bytes; a limit that is not positive is 0. The products stay below 64 bits, since a
-- limit in MiB has at most 43 bits and a percentage at most 7. A GOMEMLIMIT is given by its number of MiB,
-- which the source formats with the suffix MiB.
pub mod Margins
mod Tests
use dash0_operator.Base.{
  ℕ, ◌+◌, ◌-◌, ◌*◌, ◌/◌, Bool, true, false, ◌||◌, Option, none, some, if◌then◌else◌, ltb, leb,
}

abbrev pub mib_bytes : ℕ
mib_bytes = 1048576

abbrev pub go_mem_limit_min_headroom_mib : ℕ
go_mem_limit_min_headroom_mib = 8

pub record CollectorMemorySettings : Type 0 where
  pub go_mem_limit_mib : ℕ
  pub limit_mib : ℕ
  pub spike_mib : ℕ
  pub soft_mib : ℕ

unfoldable pub clamp_int : ℕ → ℕ → ℕ → ℕ
clamp_int v lo hi = if ltb v lo then lo else if ltb hi v then hi else v

-- The margins below a limit of l MiB.
abbrev reserve : ℕ → ℕ
reserve l = clamp_int (l * 10 / 100) 96 512

abbrev spike : ℕ → ℕ
spike l = clamp_int (l * 5 / 100) 32 256

abbrev go_mem_gap : ℕ → ℕ
go_mem_gap l = clamp_int (l * 3 / 100) 24 128

-- The thresholds; each difference that would not be positive is 0 here.
settings_for : ℕ → Option CollectorMemorySettings
settings_for l =
    let hard = l - reserve l in
    let soft = hard - spike l in
    let go_mem = soft - go_mem_gap l in
    if leb go_mem 0 || leb soft 0 || leb hard 0
    then none
    else some (record {
      go_mem_limit_mib = go_mem;
      limit_mib = hard;
      spike_mib = spike l;
      soft_mib = soft;
    })

unfoldable pub derive_collector_memory_settings : ℕ → Option CollectorMemorySettings
unfolding settings_for
derive_collector_memory_settings limit =
    let l = limit / mib_bytes in if leb l 0 then none else settings_for l

abbrev smaller : ℕ → ℕ → ℕ
smaller a b = if ltb b a then b else a

go_mem_limit_for : ℕ → ℕ → Option ℕ
go_mem_limit_for l percent =
    let go_mem = smaller (l * percent / 100) (l - go_mem_limit_min_headroom_mib) in
    if leb go_mem 0 then none else some go_mem

unfoldable pub derive_go_mem_limit_from_limit : ℕ → ℕ → Option ℕ
unfolding go_mem_limit_for
derive_go_mem_limit_from_limit limit percent =
    let l = limit / mib_bytes in if leb l 0 then none else go_mem_limit_for l percent
