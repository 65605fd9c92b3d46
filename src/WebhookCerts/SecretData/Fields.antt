-- ===== src/WebhookCerts/SecretData/Fields.antt =====
-- The fields of the Secret that holds a material.
use dash0_operator.Base.{String, ◌≡◌, refl, Option, none, some, List, [], ◌∷◌, arith}
use dash0_operator.Base.Bytes.{Bytes}
use dash0_operator.WebhookCerts.X509.{Certificate, X509}
use dash0_operator.WebhookCerts.Certificates.{KeyPair, encode_certificates}
use dash0_operator.WebhookCerts.Material.{Material, bundle}
use dash0_operator.WebhookCerts.SecretData.{field, to_secret_data}

abbrev pub cert_pem_of : Option KeyPair → Bytes
cert_pem_of none = []
cert_pem_of (some pair) = pair.cert_pem

abbrev pub key_pem_of : Option KeyPair → Bytes
key_pem_of none = []
key_pem_of (some pair) = pair.key_pem

module _ (x : X509) (m : Material) where
  abbrev pub at : String → Bytes
  at key = field (to_secret_data x m) key

  pub field-pending_ca :
      (at "pending-ca.crt" ≡ cert_pem_of m.pending_ca)
      × (at "pending-ca.key" ≡ key_pem_of m.pending_ca)
  unfolding to_secret_data field
  field-pending_ca = (ground arith, ground arith)

  pub field-certs :
      (at "previous-ca.crt" ≡ encode_certificates x m.previous_cas)
      × (at "retained-chart-ca.crt" ≡ encode_certificates x m.retained_chart_cas)
      × (at "retained-ca.crt" ≡ encode_certificates x m.retained_certs)
  unfolding to_secret_data field encode_certificates
  field-certs = (ground arith, ground arith, ground arith)

  pub field-serving : (at "tls.crt" ≡ cert_pem_of m.serving) × (at "tls.key" ≡ key_pem_of m.serving)
  unfolding to_secret_data field
  field-serving = (ground arith, ground arith)

  pub field-active_ca :
      (at "active-ca.crt" ≡ m.active_ca.cert_pem)
      × (at "active-ca.key" ≡ m.active_ca.key_pem)
      × (at "ca.crt" ≡ bundle x m)
  unfolding to_secret_data field
  field-active_ca = (refl, refl, refl)

  abbrev pub started_field : Option KeyPair → Bytes
  started_field none = []
  started_field (some pair) = x.format_time m.rotation_started_at

  abbrev pub since_field : List Certificate → Bytes
  since_field [] = []
  since_field (cert ∷ certs) = x.format_time m.retained_since

  pub field-times :
      (at "rotation-started-at" ≡ started_field m.pending_ca)
      × (at "retained-since" ≡ since_field m.retained_certs)
  unfolding to_secret_data field
  field-times = (ground arith, ground arith)
