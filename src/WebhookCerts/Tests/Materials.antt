-- ===== src/WebhookCerts/Tests/Materials.antt =====
-- The theorems about the material, at the samples.
use dash0_operator.Base.{
  ◌+◌, ◌≤◌, ◌<◌, ◌≡◌, refl, ◌↔◌, ◌⊎◌, inl, inr, Bool, true, false, Option, none, some, [], ◌∷◌, ok,
  arith, is_some, length,
}
use dash0_operator.Base.Bytes.{compare_bytes}
use dash0_operator.Base.Members.{In}
use dash0_operator.Base.Sorting.{sort_stable}
use dash0_operator.WebhookCerts.X509.{Certificate, Template, self}
use dash0_operator.WebhookCerts.Certificates.{
  KeyPair, create_key_pair, ca_template, generate_ca, issue_serving_cert, serving_cert_not_after,
  is_expired, missing_dns_names, without_expired, append_unique, encode_certificates,
  parse_certificates, parse_certificates_from, parse_key_pair, ca_rotation_lead_time,
  forced_switch_lead_time, minimum_rotation_age,
}
use dash0_operator.WebhookCerts.Certificates.Pem.{
  parse_certificates_from-fuel, parse_certificates-encode_certificates,
  parse_key_pair-create_key_pair,
}
use dash0_operator.WebhookCerts.Material.{
  generate_material, maintain, start_rotation, remove_expired, remove_retained, ensure_serving_cert,
  bundle, bundle_certs, collected_certs, compare_certificates, cert_of,
}
use dash0_operator.WebhookCerts.Material.Switch.{
  evaluate_switch, rotation_switch, rotation_forced_switch,
}
use dash0_operator.WebhookCerts.Material.Bundle.{bundle-switch_to_pending_ca}
use dash0_operator.WebhookCerts.Material.Soundness.{
  IsSound, generate_material-IsSound, maintain-IsSound, switch_to_pending_ca-IsSound,
}
use dash0_operator.WebhookCerts.Material.Rotation.{maintain-pending_ca, evaluate_switch_lem}
use dash0_operator.WebhookCerts.Material.Retention.{
  maintain-keeps_bundle, maintain-adds_bundle, bundle-maintain,
}
use dash0_operator.WebhookCerts.Material.Serving.{maintain-Covers}
use dash0_operator.WebhookCerts.SecretData.{to_secret_data, material_from_secret_data}
use dash0_operator.WebhookCerts.SecretData.RoundTrip.{
  stored, material_from_secret_data-to_secret_data,
}
use dash0_operator.WebhookCerts.Tests.Library.{
  library, service_names, create, encode, library-IsLawful, library-DecodesPem, library-DecodesDer,
  fields, library-DecodesTime,
}
use dash0_operator.WebhookCerts.Tests.Samples.{
  start, foreign, candidates, fresh, fresh_made, early, late, aged, aged_made, rotating,
  rotating_made, switch_time, switched, switched_made,
}
use dash0_operator.WebhookCerts.Tests.Facts.{aged-IsSound, rotating-IsSound, rotating-IsStorable}

bundle-switch_to_pending_ca_example : bundle library switched ≡ bundle library rotating.material
bundle-switch_to_pending_ca_example =
    bundle-switch_to_pending_ca library 7 rotating.material service_names switch_time switched
      switched_made

generate_material-IsSound_example : IsSound library fresh start × (is_some fresh.serving ≡ true)
generate_material-IsSound_example =
    generate_material-IsSound library library-IsLawful 1 service_names candidates start fresh
      fresh_made

maintain-IsSound_example : IsSound library rotating.material late.now
maintain-IsSound_example =
    maintain-IsSound library library-IsLawful 5 aged.material late rotating aged-IsSound
      rotating_made

switch_to_pending_ca-IsSound_example :
    IsSound library switched switch_time × (is_some switched.serving ≡ true)
switch_to_pending_ca-IsSound_example =
    switch_to_pending_ca-IsSound library library-IsLawful 7 rotating.material switched service_names
      switch_time rotating-IsSound switched_made

material_from_secret_data-to_secret_data_example :
    material_from_secret_data library (to_secret_data library rotating.material) switch_time
    ≡ ok (stored rotating.material switch_time)
material_from_secret_data-to_secret_data_example =
    material_from_secret_data-to_secret_data library library-DecodesPem library-DecodesTime
      rotating.material switch_time rotating-IsStorable

foreign_listed : In foreign (bundle_certs library fresh)
unfolding maintain start_rotation remove_expired remove_retained ensure_serving_cert
    missing_dns_names generate_ca issue_serving_cert create_key_pair create serving_cert_not_after
    generate_material bundle_certs collected_certs sort_stable append_unique compare_certificates
    compare_bytes without_expired is_expired
foreign_listed = inl refl

foreign_valid : is_expired library foreign early.now ≡ false
unfolding is_expired
foreign_valid = refl

maintain-keeps_bundle_example : In foreign (bundle_certs library aged.material)
maintain-keeps_bundle_example =
    maintain-keeps_bundle library 3 fresh early aged foreign aged_made foreign_listed foreign_valid
      (inr (inr refl))

abbrev new_ca : Option KeyPair → Certificate
new_ca none = []
new_ca (some pair) = pair.cert

abbrev added : Certificate
added = new_ca rotating.material.pending_ca

added_listed : In added (bundle_certs library rotating.material)
unfolding maintain start_rotation remove_expired remove_retained ensure_serving_cert
    missing_dns_names generate_ca issue_serving_cert create_key_pair create serving_cert_not_after
    generate_material bundle_certs collected_certs sort_stable append_unique compare_certificates
    compare_bytes without_expired is_expired
added_listed = inr (inr (inl refl))

maintain-adds_bundle_example :
    In added (bundle_certs library aged.material)
    ⊎ ((aged.material.pending_ca ≡ none) × In added (cert_of rotating.material.pending_ca))
maintain-adds_bundle_example =
    maintain-adds_bundle library 5 aged.material late rotating added rotating_made added_listed

unchanged : aged.result.bundle_changed ≡ false
unfolding maintain start_rotation remove_expired remove_retained ensure_serving_cert
    missing_dns_names generate_ca issue_serving_cert create_key_pair create serving_cert_not_after
    generate_material
unchanged = refl

bundle-maintain_example : bundle library aged.material ≡ bundle library fresh
bundle-maintain_example = bundle-maintain library 3 fresh early aged aged_made unchanged

maintain-pending_ca_example :
    (rotating.material.active_ca ≡ aged.material.active_ca)
    × ((is_some aged.material.pending_ca ≡ true)
        → (rotating.material.pending_ca ≡ aged.material.pending_ca)
          × (rotating.material.rotation_started_at ≡ aged.material.rotation_started_at))
    × ((aged.material.pending_ca ≡ none)
        → (is_some rotating.material.pending_ca ≡ true)
          ↔ (library.not_after aged.material.active_ca.cert < late.now + ca_rotation_lead_time))
maintain-pending_ca_example =
    maintain-pending_ca library 5 aged.material late rotating rotating_made

evaluate_switch_lem_example :
    let is_close =
      library.not_after rotating.material.active_ca.cert < switch_time + forced_switch_lead_time in
    let decision = evaluate_switch library rotating.material true switch_time in
    ((decision ≡ rotation_switch) ↔ (
      (is_some rotating.material.pending_ca ≡ true)
      × (◌≡◌ {A = Bool} true true)
      × (is_close ⊎ (rotating.material.rotation_started_at + minimum_rotation_age ≤ switch_time))))
    × ((decision ≡ rotation_forced_switch)
        ↔ ((is_some rotating.material.pending_ca ≡ true) × (◌≡◌ {A = Bool} true false) × is_close))
evaluate_switch_lem_example = evaluate_switch_lem library rotating.material true switch_time

maintain-Covers_example :
    (pair : KeyPair) × (rotating.material.serving ≡ some pair)
    × (missing_dns_names library pair.cert service_names ≡ [])
maintain-Covers_example =
    maintain-Covers library library-IsLawful 5 aged.material late rotating rotating_made

foreign_short : length (encode_certificates library (foreign ∷ [])) < 20
unfolding encode_certificates encode
foreign_short = omega arith

parse_certificates_from-fuel_example :
    parse_certificates_from library 20 (encode_certificates library (foreign ∷ []))
    ≡ parse_certificates_from library 30 (encode_certificates library (foreign ∷ []))
parse_certificates_from-fuel_example =
    parse_certificates_from-fuel library library-DecodesPem 20 30
      (encode_certificates library (foreign ∷ [])) foreign_short (omega (arith, foreign_short))

parse_certificates-encode_certificates_example :
    parse_certificates library (encode_certificates library (foreign ∷ foreign ∷ []))
    ≡ foreign ∷ foreign ∷ []
parse_certificates-encode_certificates_example =
    parse_certificates-encode_certificates library library-DecodesPem (foreign ∷ foreign ∷ [])
      (refl, (refl, tt))

-- The CA that is created with the key of the draw 5.
abbrev ca_of_5 : Template
ca_of_5 = ca_template library 5 start

abbrev created : KeyPair
created = record {
  cert = fields 5 ca_of_5 0 (5 ∷ []) (5 ∷ []);
  cert_pem = encode (record { kind = "CERTIFICATE"; bytes = fields 5 ca_of_5 0 (5 ∷ []) (5 ∷ []) });
  key = 5 ∷ [];
  key_pem = encode (record { kind = "PRIVATE KEY"; bytes = 5 ∷ [] });
}

created_made : create_key_pair library 5 ca_of_5 self (5 ∷ []) (5 ∷ []) ≡ ok created
unfolding create_key_pair create
created_made = refl

parse_key_pair-create_key_pair_example :
    parse_key_pair library created.cert_pem created.key_pem ≡ ok created
parse_key_pair-create_key_pair_example =
    parse_key_pair-create_key_pair library library-DecodesPem library-IsLawful library-DecodesDer 5
      ca_of_5 self (5 ∷ []) (5 ∷ []) created created_made
