-- ===== src/Memory/Margins.antt =====
-- internal/util/memory_derivation.go: the order of the derived thresholds and the margins between them.
use dash0_operator.Base.{
  ℕ, ◌+◌, ◌*◌, ◌/◌, ◌≤◌, ◌<◌, none, some, ◌≡◌, ◌↔◌, inl, inr, arith, Option-cases,
}
use dash0_operator.Memory.{
  mib_bytes, CollectorMemorySettings, clamp_int, reserve, spike, go_mem_gap, settings_for,
  derive_collector_memory_settings, go_mem_limit_for, derive_go_mem_limit_from_limit,
}

clamp_int-bounds :
    (v lo hi : ℕ)
    → lo ≤ hi
    → (lo ≤ clamp_int v lo hi)
      × (clamp_int v lo hi ≤ hi)
      × ((v ≤ lo) → clamp_int v lo hi ≡ lo)
      × ((lo ≤ v) → clamp_int v lo hi ≤ v)
unfolding clamp_int
clamp_int-bounds v lo hi h =
    (ground (arith, h), ground (arith, h), λ k. ground (arith, h, k), λ k. ground (arith, h, k))

-- The thresholds below a limit of l MiB are in order, with at least the floors between them.
abbrev pub IsOrdered : ℕ → CollectorMemorySettings → Type 0
IsOrdered l s =
    (1 ≤ s.go_mem_limit_mib)
    × (s.go_mem_limit_mib + 24 ≤ s.soft_mib)
    × (s.soft_mib + s.spike_mib ≡ s.limit_mib)
    × (32 ≤ s.spike_mib)
    × (s.limit_mib + 96 ≤ l)

settings_for-IsOrdered :
    (l : ℕ) (s : CollectorMemorySettings) → settings_for l ≡ some s → IsOrdered l s
unfolding settings_for
settings_for-IsOrdered l s h =
    let r = clamp_int-bounds (l * 10 / 100) 96 512 (ground arith) in
    let p = clamp_int-bounds (l * 5 / 100) 32 256 (ground arith) in
    let g = clamp_int-bounds (l * 3 / 100) 24 128 (ground arith) in
    (
      ground (arith, h, r.0, p.0, g.0),
      ground (arith, h, r.0, p.0, g.0),
      ground (arith, h, r.0, p.0, g.0),
      ground (arith, h, r.0, p.0, g.0),
      ground (arith, h, r.0, p.0, g.0),
    )

settings_for-none : (l : ℕ) → (settings_for l ≡ none) ↔ (l ≤ 152)
unfolding settings_for
settings_for-none l =
    let r = clamp_int-bounds (l * 10 / 100) 96 512 (ground arith) in
    let p = clamp_int-bounds (l * 5 / 100) 32 256 (ground arith) in
    let g = clamp_int-bounds (l * 3 / 100) 24 128 (ground arith) in
    (
      λ h.
          let tight : l ≤ reserve l + spike l + go_mem_gap l = ground (arith, h) in
          ground (arith, tight, r.2, r.3, p.2, p.3, g.2, g.3),
      λ h. ground (arith, h, r.0, p.0, g.0),
    )

-- From a memory limit of 153 MiB on, memory settings are derived for a collector. They are in order, from
-- GOMEMLIMIT over the soft and the hard limit up to the memory limit, with at least 24, 32 and 96 MiB
-- between them.
pub derive_collector_memory_settings-IsOrdered :
    (limit : ℕ)
    → 153 * mib_bytes ≤ limit
    → (s : CollectorMemorySettings) × (derive_collector_memory_settings limit ≡ some s)
      × IsOrdered (limit / mib_bytes) s
unfolding derive_collector_memory_settings
derive_collector_memory_settings-IsOrdered limit h =
    let l = limit / mib_bytes in
    let large : 153 ≤ l = ground (arith, h) in
    elim (Option-cases (settings_for l)) [
      | inl e ↦ absurd (ground (arith, large, (settings_for-none l).0 e))
      | inr (s, e) ↦ (s, ground (arith, large, e), settings_for-IsOrdered l s e)
    ]

-- Below 153 MiB none are derived.
pub derive_collector_memory_settings-none :
    (limit : ℕ) → limit < 153 * mib_bytes → derive_collector_memory_settings limit ≡ none
unfolding derive_collector_memory_settings
derive_collector_memory_settings-none limit h =
    let l = limit / mib_bytes in
    let small : l ≤ 152 = ground (arith, h) in ground (arith, (settings_for-none l).1 small)

-- A GOMEMLIMIT derived without a memory_limiter leaves 8 MiB below the memory limit, and is at most the
-- percentage of it.
pub derive_go_mem_limit_from_limit-bounds :
    (limit percent g : ℕ)
    → derive_go_mem_limit_from_limit limit percent ≡ some g
    → (1 ≤ g) × (g + 8 ≤ limit / mib_bytes) × (g * 100 ≤ limit / mib_bytes * percent)
unfolding derive_go_mem_limit_from_limit go_mem_limit_for
derive_go_mem_limit_from_limit-bounds limit percent g h =
    (ground (arith, h), ground (arith, h), ground (arith, h))
