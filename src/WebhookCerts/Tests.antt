-- ===== src/WebhookCerts/Tests.antt =====
-- The theorems about internal/webhookcerts, applied to concrete inputs.
pub mod Library
pub mod Samples
pub mod Facts
pub mod Materials
pub mod Passes
