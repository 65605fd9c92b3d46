-- ===== src/WebhookCerts/SecretData/RoundTrip.antt =====
-- toSecretData followed by materialFromSecretData, of internal/webhookcerts/state.go.
use dash0_operator.Base.{
  ℕ, ◌≡◌, refl, true, false, Option, none, some, List, [], ◌∷◌, ◌∙◌, arith, All, ok, err,
}
use dash0_operator.WebhookCerts.X509.{Certificate, to_seconds, X509}
use dash0_operator.WebhookCerts.X509.Laws.{DecodesPem, DecodesTime}
use dash0_operator.WebhookCerts.Certificates.{
  KeyPair, parse_key_pair, parse_certificates, parse_certificates_from, is_expired,
  verify_serving_cert_chain, not_one_certificate,
}
use dash0_operator.WebhookCerts.Certificates.Pem.{
  IsParsed, IsEncoded, parse_certificates-encode_certificates, parse_key_pair-encode,
}
use dash0_operator.WebhookCerts.Material.{Material}
use dash0_operator.WebhookCerts.SecretData.{
  to_secret_data, parse_timestamp, usable_pending_ca, pending_since, usable_serving, with_active_ca,
  material_from_secret_data,
}
use dash0_operator.WebhookCerts.SecretData.Fields.{
  at, cert_pem_of, key_pem_of, started_field, since_field, field-pending_ca, field-certs,
  field-serving, field-active_ca, field-times,
}

abbrev pub StorablePending : X509 → ℕ → Option KeyPair → Type 0
StorablePending x now none = Unit
StorablePending x now (some ca) =
    IsEncoded x ca × (x.is_ca ca.cert ≡ true) × (is_expired x ca.cert now ≡ false)

abbrev pub StorableServing : X509 → Certificate → ℕ → Option KeyPair → Type 0
StorableServing x active now none = Unit
StorableServing x active now (some pair) =
    IsEncoded x pair × (verify_serving_cert_chain x pair.cert active now ≡ true)

-- Material in the form in which the operator makes it, with an active CA, and where there are any a
-- pending CA and a serving certificate, that are valid at the time of reading.
pub record IsStorable (x : X509) (m : Material) (now : ℕ) : Type 0 where
  pub active : IsEncoded x m.active_ca
  pub authority : x.is_ca m.active_ca.cert ≡ true
  pub unexpired : is_expired x m.active_ca.cert now ≡ false
  pub pending : StorablePending x now m.pending_ca
  pub previous : All (IsParsed x) m.previous_cas
  pub chart : All (IsParsed x) m.retained_chart_cas
  pub retained : All (IsParsed x) m.retained_certs
  pub serving : StorableServing x m.active_ca.cert now m.serving

abbrev pub stored_start : Option KeyPair → ℕ → ℕ
stored_start none t = 0
stored_start (some ca) t = to_seconds t

abbrev pub stored_since : List Certificate → ℕ → ℕ → ℕ
stored_since [] now t = now
stored_since (c ∷ cs) now t = to_seconds t

-- What is read back: times that nothing depends on are not stored.
abbrev pub stored : Material → ℕ → Material
stored m now = record m {
  rotation_started_at = stored_start m.pending_ca m.rotation_started_at;
  retained_since = stored_since m.retained_certs now m.retained_since;
}

module _ (x : X509) (pem : DecodesPem x) (time : DecodesTime x) where
  parse_key_pair-nil : parse_key_pair x [] [] ≡ err not_one_certificate
  unfolding parse_key_pair parse_certificates parse_certificates_from
  parse_key_pair-nil = ground (arith, pem.decode_nil)

  parse_timestamp-format : (t now : ℕ) → parse_timestamp x (x.format_time t) now ≡ to_seconds t
  unfolding parse_timestamp
  parse_timestamp-format t now = ground (arith, time.parse_format t, time.format-ne-nil t)

  pending-read :
      (pending : Option KeyPair) (now : ℕ)
      → StorablePending x now pending
      → usable_pending_ca x (parse_key_pair x (cert_pem_of pending) (key_pem_of pending)) now
        ≡ pending
  unfolding usable_pending_ca
  pending-read none now h = ground (arith, parse_key_pair-nil)
  pending-read (some ca) now h = ground (arith, parse_key_pair-encode x pem ca h.0)

  serving-read :
      (serving : Option KeyPair) (active : Certificate) (now : ℕ)
      → StorableServing x active now serving
      → usable_serving x (parse_key_pair x (cert_pem_of serving) (key_pem_of serving)) active now
        ≡ serving
  unfolding usable_serving
  serving-read none active now h = ground (arith, parse_key_pair-nil)
  serving-read (some pair) active now h = ground (arith, parse_key_pair-encode x pem pair h.0)

  started-read :
      (m : Material) (now : ℕ)
      → pending_since x m.pending_ca (started_field x m m.pending_ca) now
        ≡ stored_start m.pending_ca m.rotation_started_at
  unfolding pending_since
  started-read m now = ground (arith, parse_timestamp-format m.rotation_started_at now)

  since-read :
      (m : Material) (now : ℕ)
      → parse_timestamp x (since_field x m m.retained_certs) now
        ≡ stored_since m.retained_certs now m.retained_since
  since-read m now = go m.retained_certs
    where
      go :
          (certs : List Certificate)
          → parse_timestamp x (since_field x m certs) now ≡ stored_since certs now m.retained_since
      go [] = unfold parse_timestamp in refl
      go (c ∷ cs) = parse_timestamp-format m.retained_since now

  from-fields :
      (m : Material) (now : ℕ)
      → material_from_secret_data x (to_secret_data x m) now
        ≡ with_active_ca x
            (to_secret_data x m)
            now
            (parse_key_pair x (at x m "active-ca.crt") (at x m "active-ca.key"))
  unfolding to_secret_data material_from_secret_data
  from-fields m now = refl

  with_active_ca-stored :
      (m : Material) (now : ℕ)
      → IsStorable x m now
      → with_active_ca x (to_secret_data x m) now (ok m.active_ca) ≡ ok (stored m now)
  unfolding with_active_ca
  with_active_ca-stored m now h =
      let (pending_crt, pending_key) = field-pending_ca x m in
      let (previous, chart, retained) = field-certs x m in
      let (crt, key) = field-serving x m in
      let (started, since) = field-times x m in
      simp (
        pending_crt,
        pending_key,
        previous,
        chart,
        retained,
        crt,
        key,
        started,
        since,
        pending-read m.pending_ca now h.pending,
        serving-read m.serving m.active_ca.cert now h.serving,
        started-read m now,
        since-read m now,
        parse_certificates-encode_certificates x pem m.previous_cas h.previous,
        parse_certificates-encode_certificates x pem m.retained_chart_cas h.chart,
        parse_certificates-encode_certificates x pem m.retained_certs h.retained,
        h.authority,
        h.unexpired,
      )

-- Where PEM and times are decoded as they have been encoded, reading the data of the Secret that
-- storable material has been written to gives that material, with the start of a running rotation
-- and of a retention cut to seconds; the start of neither is kept where there is none.
pub material_from_secret_data-to_secret_data :
    (x : X509) (pem : DecodesPem x) (time : DecodesTime x) (m : Material) (now : ℕ)
    → IsStorable x m now
    → material_from_secret_data x (to_secret_data x m) now ≡ ok (stored m now)
material_from_secret_data-to_secret_data x pem time m now h =
    let (crt, key, b) = field-active_ca x m in
    from-fields x pem time m now
    ∙ rw (crt, key, parse_key_pair-encode x pem m.active_ca h.active)
        (with_active_ca-stored x pem time m now h)
