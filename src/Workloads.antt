-- ===== src/Workloads.antt =====
-- internal/workloads: the instrumentation of workloads and its removal.
pub mod Pod
pub mod DeepEqual
pub mod Env
pub mod LdPreload
pub mod Exporter
pub mod Settings
pub mod Maps
pub mod Attributes
pub mod Instrumentation
pub mod PodSpecs
pub mod Images
pub mod Labels
pub mod Eligibility
pub mod Modifier
pub mod Frames
pub mod UpToDate
mod Tests
