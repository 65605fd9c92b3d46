-- ===== src/WebhookCerts/X509/Laws.antt =====
-- What the operator relies on of crypto/x509, encoding/pem and time: a created certificate carries
-- its template's fields, with times cut to seconds; a certificate for server authentication verifies
-- against the CA that has signed it, where that CA has what Certificate.Verify asks of a CA; what has
-- been encoded is decoded again.
use dash0_operator.Base.{
  ℕ, ◌≤◌, ◌<◌, ◌≡◌, ◌≢◌, ◌⊎◌, Bool, true, false, none, some, List, [], ◌∷◌, ◌++◌, length, any,
  nat_eq, ◌||◌, ◌/◌, ◌%◌,
}
use dash0_operator.Base.Bytes.{Bytes}
use dash0_operator.WebhookCerts.X509.{
  Certificate, Key, key_usage_cert_sign, ext_key_usage_any, ext_key_usage_server_auth, to_seconds,
  Template, Parent, issuer, PemBlock, X509,
}

-- Whether the extended key usages allow server authentication; none at all restrict nothing.
abbrev pub allows_server_auth : List ℕ → Bool
allows_server_auth [] = true
allows_server_auth (usage ∷ usages) =
    any (usage ∷ usages) (λ u. nat_eq u ext_key_usage_any || nat_eq u ext_key_usage_server_auth)

-- The bit x509.KeyUsageCertSign of a key usage; 0 stands for a certificate without the extension.
abbrev pub allows_cert_sign : ℕ → Bool
allows_cert_sign usage = nat_eq usage 0 || nat_eq (usage / key_usage_cert_sign % 2) 1

-- What Certificate.Verify asks of a CA, but for its validity.
pub record CanIssue (x : X509) (ca : Certificate) : Type 0 where
  pub constrained : x.basic_constraints_valid ca ≡ true
  pub authority : x.is_ca ca ≡ true
  pub signs : allows_cert_sign (x.key_usage ca) ≡ true
  pub serves : allows_server_auth (x.ext_key_usage ca) ≡ true
  pub unrestricted : x.has_other_restrictions ca ≡ false

-- The fields of a created certificate.
pub record Carries (x : X509) (c : Certificate) (t : Template) : Type 0 where
  pub names : x.dns_names c ≡ t.dns_names
  pub authority : x.is_ca c ≡ t.is_ca
  pub constrained : x.basic_constraints_valid c ≡ t.basic_constraints_valid
  pub usage : x.key_usage c ≡ t.key_usage
  pub ext_usage : x.ext_key_usage c ≡ t.ext_key_usage
  pub unrestricted : x.has_other_restrictions c ≡ false
  pub from : x.not_before c ≡ to_seconds t.not_before
  pub to : x.not_after c ≡ to_seconds t.not_after

pub record IsLawful (x : X509) : Type 0 where
  -- the certificate that is parsed from the result of x509.CreateCertificate
  pub created_key :
      (draw : ℕ) (t : Template) (parent : Parent) (public : Bytes) (signer : Key) (der : Bytes)
      (c : Certificate)
      → x.create_certificate draw t parent public signer ≡ some der
      → x.parse_certificate der ≡ some c
      → x.public_key c ≡ public
  -- being a CA is encoded only with valid basic constraints, and a key usage has nine bits
  pub created_fields :
      (draw : ℕ) (t : Template) (parent : Parent) (public : Bytes) (signer : Key) (der : Bytes)
      (c : Certificate)
      → x.create_certificate draw t parent public signer ≡ some der
      → x.parse_certificate der ≡ some c
      → t.basic_constraints_valid ≡ true
      → t.key_usage < 512
      → Carries x c t
  -- it verifies while both certificates are valid
  pub created_chains :
      (draw : ℕ) (t : Template) (ca : Certificate) (public : Bytes) (signer : Key) (der : Bytes)
      (c : Certificate) (at : ℕ)
      → x.create_certificate draw t (issuer ca) public signer ≡ some der
      → x.parse_certificate der ≡ some c
      → allows_server_auth t.ext_key_usage ≡ true
      → CanIssue x ca
      → x.key_public signer ≡ some (x.public_key ca)
      → x.not_before c ≤ at
      → at ≤ x.not_after c
      → x.not_before ca ≤ at
      → at ≤ x.not_after ca
      → x.chains c ca at ≡ true

-- A parsed certificate has the DER data as its Raw field, and a marshalled private key is parsed back.
pub record DecodesDer (x : X509) : Type 0 where
  pub raw : (der : Bytes) (c : Certificate) → x.parse_certificate der ≡ some c → c ≡ der
  pub parse_marshal :
      (key : Key) (der : Bytes) → x.marshal_key key ≡ some der → x.parse_pkcs8 der ≡ some (some key)

pub record DecodesPem (x : X509) : Type 0 where
  pub decode_encode :
      (block : PemBlock) (rest : Bytes)
      → (block.kind ≡ "CERTIFICATE") ⊎ (block.kind ≡ "PRIVATE KEY")
      → x.pem_decode (x.pem_encode block ++ rest) ≡ some (block, rest)
  pub decode_nil : x.pem_decode [] ≡ none
  -- a decoded block is taken off the front
  pub decode_shorter :
      (bytes : Bytes) (block : PemBlock) (rest : Bytes)
      → x.pem_decode bytes ≡ some (block, rest)
      → length rest < length bytes

-- RFC 3339 keeps the seconds.
pub record DecodesTime (x : X509) : Type 0 where
  pub parse_format : (t : ℕ) → x.parse_time (x.format_time t) ≡ some (to_seconds t)
  pub format-ne-nil : (t : ℕ) → x.format_time t ≢ []
