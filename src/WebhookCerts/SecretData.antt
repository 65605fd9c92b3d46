-- ===== src/WebhookCerts/SecretData.antt =====
-- internal/webhookcerts/state.go: the data of the Secret, and the material that is stored in it.
pub mod Fields
pub mod RoundTrip
use dash0_operator.Base.{
  ℕ, ◌+◌, String, Bool, true, false, not, ◌&&◌, Option, none, some, List, [], ◌∷◌, ◌++◌, Result, ok,
  err, ◌>>=◌, leb, nat_eq, all, length, ◌==◌, if◌then◌else◌,
}
use dash0_operator.Base.Bytes.{Bytes, bytes_eq}
use dash0_operator.WebhookCerts.X509.{Certificate, X509}
use dash0_operator.WebhookCerts.Certificates.{
  KeyPair, CertError, no_data, active_ca_unusable, active_ca_not_ca, active_ca_expired,
  parse_key_pair, parse_certificates, encode_certificates, is_expired, verify_serving_cert_chain,
}
use dash0_operator.WebhookCerts.Material.{Material, bundle}

-- A map from text to bytes, without order: an association list.
abbrev pub SecretData : Type 0
SecretData = List (String × Bytes)

unfoldable pub get : SecretData → String → Option Bytes
get [] key = none
get ((k, v) ∷ entries) key = if k == key then some v else get entries key

abbrev or_empty : Option Bytes → Bytes
or_empty none = []
or_empty (some bytes) = bytes

-- data[key]: nil for a missing key
pub field : SecretData → String → Bytes
unfolding get
field entries key = or_empty (get entries key)

abbrev same_value : Bytes → Option Bytes → Bool
same_value v none = false
same_value v (some w) = bytes_eq v w

-- dataEqual, by maps.EqualFunc
unfoldable pub data_equal : SecretData → SecretData → Bool
unfolding get
data_equal a b = nat_eq (length a) (length b) && all a (λ e. same_value e.1 (get b e.0))

module _ (x : X509) where
  pending_fields : Option KeyPair → ℕ → SecretData
  pending_fields none started_at = []
  pending_fields (some pair) started_at =
      ("pending-ca.crt", pair.cert_pem)
      ∷ ("pending-ca.key", pair.key_pem)
      ∷ ("rotation-started-at", x.format_time started_at)
      ∷ []

  certs_field : String → List Certificate → SecretData
  certs_field key [] = []
  certs_field key (cert ∷ certs) = (key, encode_certificates x (cert ∷ certs)) ∷ []

  retained_fields : List Certificate → ℕ → SecretData
  retained_fields [] since = []
  retained_fields (cert ∷ certs) since =
      ("retained-ca.crt", encode_certificates x (cert ∷ certs))
      ∷ ("retained-since", x.format_time since)
      ∷ []

  serving_fields : Option KeyPair → SecretData
  serving_fields none = []
  serving_fields (some pair) = ("tls.crt", pair.cert_pem) ∷ ("tls.key", pair.key_pem) ∷ []

  unfoldable pub to_secret_data : Material → SecretData
  unfolding pending_fields certs_field retained_fields serving_fields
  to_secret_data m =
      ("ca.crt", bundle x m)
      ∷ ("active-ca.crt", m.active_ca.cert_pem)
      ∷ ("active-ca.key", m.active_ca.key_pem)
      ∷ (pending_fields m.pending_ca m.rotation_started_at
          ++ (certs_field "previous-ca.crt" m.previous_cas
              ++ (certs_field "retained-chart-ca.crt" m.retained_chart_cas
                  ++ (retained_fields m.retained_certs m.retained_since
                      ++ serving_fields m.serving))))

  parsed_or : ℕ → Option ℕ → ℕ
  parsed_or now none = now
  parsed_or now (some t) = t

  pub parse_timestamp : Bytes → ℕ → ℕ
  unfolding parsed_or
  parse_timestamp [] now = now
  parse_timestamp (b ∷ bytes) now = parsed_or now (x.parse_time (b ∷ bytes))

  -- Only a usable pending CA is taken over.
  usable_pending_ca : Result CertError KeyPair → ℕ → Option KeyPair
  usable_pending_ca (err e) now = none
  usable_pending_ca (ok pair) now =
      if x.is_ca pair.cert && not (is_expired x pair.cert now) then some pair else none

  pending_since : Option KeyPair → Bytes → ℕ → ℕ
  pending_since none raw now = 0
  pending_since (some pair) raw now = parse_timestamp raw now

  usable_serving : Result CertError KeyPair → Certificate → ℕ → Option KeyPair
  usable_serving (err e) active now = none
  usable_serving (ok pair) active now =
      if verify_serving_cert_chain x pair.cert active now then some pair else none

  with_active_ca : SecretData → ℕ → Result CertError KeyPair → Result CertError Material
  unfolding usable_pending_ca pending_since usable_serving
  with_active_ca entries now (err e) = err active_ca_unusable
  with_active_ca entries now (ok active_ca) =
      let pending_ca =
        usable_pending_ca
          (parse_key_pair x (field entries "pending-ca.crt") (field entries "pending-ca.key"))
          now in
      if not (x.is_ca active_ca.cert)
      then err active_ca_not_ca
      else if is_expired x active_ca.cert now
      then err active_ca_expired
      else ok (record {
        active_ca = active_ca;
        pending_ca = pending_ca;
        rotation_started_at = pending_since pending_ca (field entries "rotation-started-at") now;
        previous_cas = parse_certificates x (field entries "previous-ca.crt");
        retained_chart_cas = parse_certificates x (field entries "retained-chart-ca.crt");
        retained_certs = parse_certificates x (field entries "retained-ca.crt");
        retained_since = parse_timestamp (field entries "retained-since") now;
        serving =
            usable_serving (parse_key_pair x (field entries "tls.crt") (field entries "tls.key"))
              active_ca.cert now;
      })

  unfoldable pub material_from_secret_data : SecretData → ℕ → Result CertError Material
  unfolding with_active_ca
  material_from_secret_data [] now = err no_data
  material_from_secret_data (e ∷ entries) now =
      with_active_ca (e ∷ entries) now (
        parse_key_pair x (field (e ∷ entries) "active-ca.crt")
          (field (e ∷ entries) "active-ca.key"))
