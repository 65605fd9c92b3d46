-- ===== src/WebhookCerts.antt =====
-- internal/webhookcerts: the operator-managed certificates of the webhook server.
pub mod X509
pub mod Certificates
pub mod Material
pub mod SecretData
pub mod Api
pub mod Ensure
pub mod Targets
pub mod Manager
pub mod Tests
