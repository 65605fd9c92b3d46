-- ===== src/Memory/Tests.antt =====
-- A memory limit of 500 MiB.
use dash0_operator.Base.{◌/◌, some, ◌≡◌, arith}
use dash0_operator.Memory.{mib_bytes, CollectorMemorySettings, derive_collector_memory_settings}
use dash0_operator.Memory.Margins.{IsOrdered, derive_collector_memory_settings-IsOrdered}

derive_collector_memory_settings-IsOrdered_example :
    (s : CollectorMemorySettings) × (derive_collector_memory_settings 524288000 ≡ some s)
    × IsOrdered (524288000 / mib_bytes) s
derive_collector_memory_settings-IsOrdered_example =
    derive_collector_memory_settings-IsOrdered 524288000 (omega arith)
