-- ===== src/WebhookCerts/Certificates.antt =====
-- internal/webhookcerts/certificates.go
pub mod Issuing
pub mod Chains
pub mod Pem
use dash0_operator.Base.{
  ℕ, zero, suc, ◌+◌, ◌-◌, ◌*◌, String, ◌≡◌, Bool, true, false, not, ◌&&◌, Option, none, some, List,
  [], ◌∷◌, ◌++◌, Result, ok, err, ◌>>=◌, ltb, any, keep, contains, length, is_some, ◌==◌,
  if◌then◌else◌,
}
use dash0_operator.Base.Bytes.{Bytes, bytes_eq}
use dash0_operator.WebhookCerts.X509.{
  Certificate, Key, hour, key_usage_digital_signature, key_usage_cert_sign, key_usage_crl_sign,
  ext_key_usage_server_auth, Template, Parent, self, issuer, PemBlock, X509,
}

abbrev pub ca_validity : ℕ
ca_validity = 10 * 365 * 24 * hour

abbrev pub serving_cert_validity : ℕ
serving_cert_validity = 365 * 24 * hour

abbrev pub serving_cert_renew_before : ℕ
serving_cert_renew_before = 90 * 24 * hour

abbrev pub ca_rotation_lead_time : ℕ
ca_rotation_lead_time = 365 * 24 * hour

abbrev pub forced_switch_lead_time : ℕ
forced_switch_lead_time = 30 * 24 * hour

abbrev pub minimum_rotation_age : ℕ
minimum_rotation_age = 24 * hour

abbrev pub foreign_cert_retention : ℕ
foreign_cert_retention = 7 * 24 * hour

abbrev pub expiry_warning_threshold : ℕ
expiry_warning_threshold = 30 * 24 * hour

abbrev pub backdate : ℕ
backdate = hour

abbrev pub operator_marker_organization : String
operator_marker_organization = "dash0-operator-managed"

abbrev pub ca_common_name : String
ca_common_name = "dash0-operator-webhook-ca"

abbrev pub legacy_chart_ca_common_name : String
legacy_chart_ca_common_name = "dash0-operator-ca"

abbrev pub pem_type_certificate : String
pem_type_certificate = "CERTIFICATE"

abbrev pub pem_type_private_key : String
pem_type_private_key = "PRIVATE KEY"

pub record KeyPair : Type 0 where
  pub cert : Certificate
  pub cert_pem : Bytes
  pub key : Key
  pub key_pem : Bytes

-- Why a certificate operation fails, without the text of the message.
pub data CertError : Type 0 where
  no_key no_serial_number no_dns_names not_created not_parsed key_not_encoded : CertError
  not_one_certificate no_pem_block unsupported_key bad_key key_mismatch : CertError
  no_data active_ca_unusable active_ca_not_ca active_ca_expired no_pending_ca : CertError

abbrev pub or_error : {A : Type 0} → Option A → CertError → Result CertError A
or_error none e = err e
or_error (some a) e = ok a

unfoldable pub encode_certificates : X509 → List Certificate → Bytes
encode_certificates x [] = []
encode_certificates x (cert ∷ certs) =
    x.pem_encode (record { kind = pem_type_certificate; bytes = cert })
    ++ encode_certificates x certs

unfoldable pub latest : ℕ → List ℕ → ℕ
latest result [] = result
latest result (t ∷ times) = latest (if ltb result t then t else result) times

-- appendUnique and containsCertificate; cert.Equal compares the DER encodings.
abbrev pub contains_certificate : List Certificate → Certificate → Bool
contains_certificate certs candidate = any certs (λ cert. bytes_eq cert candidate)

unfoldable pub append_unique : List Certificate → List Certificate → List Certificate
append_unique certs [] = certs
append_unique certs (candidate ∷ additional) =
    append_unique (if contains_certificate certs candidate then certs else certs ++ candidate ∷ [])
      additional

module _ (x : X509) where
  unfoldable pub create_key_pair : ℕ → Template → Parent → Key → Key → Result CertError KeyPair
  create_key_pair draw template parent key signer = do
    public ← or_error (x.key_public key) no_key
    der ← or_error (x.create_certificate draw template parent public signer) not_created
    cert ← or_error (x.parse_certificate der) not_parsed
    key_der ← or_error (x.marshal_key key) key_not_encoded
    ok (record {
      cert = cert;
      cert_pem = x.pem_encode (record { kind = pem_type_certificate; bytes = der });
      key = key;
      key_pem = x.pem_encode (record { kind = pem_type_private_key; bytes = key_der });
    })

  abbrev pub ca_template : ℕ → ℕ → Template
  ca_template serial now = record {
    serial_number = serial;
    common_name = ca_common_name;
    organization = operator_marker_organization ∷ [];
    dns_names = [];
    not_before = now - backdate;
    not_after = now + ca_validity;
    key_usage = key_usage_cert_sign + key_usage_crl_sign + key_usage_digital_signature;
    ext_key_usage = [];
    basic_constraints_valid = true;
    is_ca = true;
  }

  -- The self-signed certificate has its own template as parent.
  unfoldable pub generate_ca : ℕ → ℕ → Result CertError KeyPair
  generate_ca draw now = do
    key ← or_error (x.generate_key draw) no_key
    serial ← or_error (x.random_serial draw) no_serial_number
    create_key_pair draw (ca_template serial now) self key key

  unfoldable pub serving_cert_not_after : KeyPair → ℕ → ℕ
  serving_cert_not_after ca now =
      let not_after = now + serving_cert_validity in
      if ltb (x.not_after ca.cert) not_after then x.not_after ca.cert else not_after

  abbrev pub serving_template : ℕ → KeyPair → String → List String → ℕ → Template
  serving_template serial ca name dns_names now = record {
    serial_number = serial;
    common_name = name;
    organization = operator_marker_organization ∷ [];
    dns_names = dns_names;
    not_before = now - backdate;
    not_after = serving_cert_not_after ca now;
    key_usage = key_usage_digital_signature;
    ext_key_usage = ext_key_usage_server_auth ∷ [];
    basic_constraints_valid = true;
    is_ca = false;
  }

  unfoldable pub issue_serving_cert : ℕ → KeyPair → List String → ℕ → Result CertError KeyPair
  issue_serving_cert draw ca [] now = err no_dns_names
  issue_serving_cert draw ca (name ∷ names) now = do
    key ← or_error (x.generate_key draw) no_key
    serial ← or_error (x.random_serial draw) no_serial_number
    create_key_pair draw (serving_template serial ca name (name ∷ names) now) (issuer ca.cert) key
        ca.key

  parse_private_key_block : Bytes → Result CertError Key
  parse_private_key_block der = elim (x.parse_pkcs8 der) [
    | some (some key) ↦ ok key
    | some none ↦ err unsupported_key
    | none ↦ elim (x.parse_ec der) [
      | some key ↦ ok key
      | none ↦ or_error (x.parse_pkcs1 der) bad_key
    ]
  ]

  pub parse_private_key : Bytes → Result CertError Key
  unfolding parse_private_key_block
  parse_private_key key_pem = elim (x.pem_decode key_pem) [
    | none ↦ err no_pem_block
    | some (block, rest) ↦ parse_private_key_block block.bytes
  ]

  -- One block of the loop of parseCertificates.
  pub block_certificates : PemBlock → List Certificate
  block_certificates block =
      if block.kind == pem_type_certificate
      then elim (x.parse_certificate block.bytes) [ none ↦ [] | some cert ↦ cert ∷ [] ]
      else []

  -- The loop on fuel: each decoded block shortens the rest.
  unfoldable pub parse_certificates_from : ℕ → Bytes → List Certificate
  parse_certificates_from zero rest = []
  parse_certificates_from (suc fuel) rest = elim (x.pem_decode rest) [
    | none ↦ []
    | some (block, rest') ↦ block_certificates block ++ parse_certificates_from fuel rest'
  ]

  unfoldable pub parse_certificates : Bytes → List Certificate
  parse_certificates bytes = parse_certificates_from (suc (length bytes)) bytes

  abbrev key_matches : Option Bytes → Certificate → Bool
  key_matches none cert = false
  key_matches (some public) cert = bytes_eq public (x.public_key cert)

  parse_key_pair_of : List Certificate → Bytes → Result CertError KeyPair
  parse_key_pair_of (cert ∷ []) key_pem = do
    key ← parse_private_key key_pem
    let pair : KeyPair = record {
      cert = cert;
      cert_pem = encode_certificates x (cert ∷ []);
      key = key;
      key_pem = key_pem;
    }
    (if key_matches (x.key_public key) cert then ok pair else err key_mismatch)
  parse_key_pair_of _ key_pem = err not_one_certificate

  unfoldable pub parse_key_pair : Bytes → Bytes → Result CertError KeyPair
  unfolding parse_key_pair_of
  parse_key_pair cert_pem key_pem = parse_key_pair_of (parse_certificates cert_pem) key_pem

  pub is_operator_created : Certificate → Bool
  is_operator_created cert = contains (x.organization cert) operator_marker_organization

  unfoldable pub is_legacy_chart_ca : Certificate → Bool
  unfolding is_operator_created
  is_legacy_chart_ca cert =
      x.common_name cert == legacy_chart_ca_common_name && not (is_operator_created cert)

  unfoldable pub is_expired : Certificate → ℕ → Bool
  is_expired cert now = ltb (x.not_after cert) now

  unfoldable pub without_expired : List Certificate → ℕ → List Certificate
  unfolding is_expired
  without_expired certs now = keep (λ cert. not (is_expired cert now)) certs

  unfoldable pub missing_dns_names : Certificate → List String → List String
  missing_dns_names cert names = keep (λ name. not (contains (x.dns_names cert) name)) names

  unfoldable pub verify_serving_cert_chain : Certificate → Certificate → ℕ → Bool
  verify_serving_cert_chain serving ca now =
      x.chains serving ca (latest now (x.not_before serving ∷ x.not_before ca ∷ []))
