-- ===== src/WebhookCerts/Tests/Samples.antt =====
-- Material, a secret and a pass for the tests: generated material, its maintenance when its CA is
-- about to expire, and the switch to the new CA.
use dash0_operator.Base.{ℕ, ◌+◌, ◌-◌, ◌*◌, ◌≡◌, refl, false, none, [], ◌∷◌, Result, ok, err}
use dash0_operator.WebhookCerts.X509.{hour, Certificate}
use dash0_operator.WebhookCerts.Certificates.{
  KeyPair, ca_validity, create_key_pair, generate_ca, issue_serving_cert, serving_cert_not_after,
  missing_dns_names,
}
use dash0_operator.WebhookCerts.Material.{
  Material, RetentionCandidates, generate_material, MaintainInput, Maintained, no_maintenance,
  maintain, start_rotation, remove_expired, remove_retained, ensure_serving_cert,
}
use dash0_operator.WebhookCerts.Material.Switch.{switch_to_pending_ca}
use dash0_operator.WebhookCerts.Tests.Library.{library, service_names, create}

abbrev value_or : {E A : Type 0} → A → Result E A → A
value_or d (ok a) = a
value_or d (err e) = d

abbrev no_pair : KeyPair
no_pair = record { cert = []; cert_pem = []; key = []; key_pem = [] }

abbrev no_material : Material
no_material = record {
  active_ca = no_pair;
  pending_ca = none;
  rotation_started_at = 0;
  previous_cas = [];
  retained_chart_cas = [];
  retained_certs = [];
  retained_since = 0;
  serving = none;
}

abbrev pub start : ℕ
start = 100000 * hour

-- A foreign certificate that outlives the rotation.
abbrev pub foreign : Certificate
foreign = 0 ∷ 1000000 * hour ∷ 1 ∷ 0 ∷ 7 ∷ 0 ∷ 7 ∷ []

abbrev pub candidates : RetentionCandidates
candidates = record { chart_cas = []; other = foreign ∷ [] }

abbrev pub fresh : Material
fresh = value_or no_material (generate_material library 1 service_names candidates start)

pub fresh_made : generate_material library 1 service_names candidates start ≡ ok fresh
unfolding generate_material generate_ca issue_serving_cert create_key_pair create
fresh_made = refl

-- After the serving certificate's expiry, but before a rotation is due.
abbrev pub early : MaintainInput
early = record {
  now = start + ca_validity - 400 * 24 * hour;
  dns_names = service_names;
  rollout_complete = false;
}

-- Within the lead time of a rotation.
abbrev pub late : MaintainInput
late = record early { now = start + ca_validity - 300 * 24 * hour }

abbrev no_maintained : Maintained
no_maintained = record { material = no_material; result = no_maintenance }

abbrev pub aged : Maintained
aged = value_or no_maintained (maintain library 3 fresh early)

pub aged_made : maintain library 3 fresh early ≡ ok aged
unfolding maintain start_rotation remove_expired remove_retained ensure_serving_cert
    missing_dns_names generate_ca issue_serving_cert create_key_pair create serving_cert_not_after
    generate_material
aged_made = refl

abbrev pub rotating : Maintained
rotating = value_or no_maintained (maintain library 5 aged.material late)

pub rotating_made : maintain library 5 aged.material late ≡ ok rotating
unfolding maintain start_rotation remove_expired remove_retained ensure_serving_cert
    missing_dns_names generate_ca issue_serving_cert create_key_pair create serving_cert_not_after
    generate_material
rotating_made = refl

abbrev pub switch_time : ℕ
switch_time = late.now + 48 * hour

abbrev pub switched : Material
switched =
    value_or no_material
      (switch_to_pending_ca library 7 rotating.material service_names switch_time)

pub switched_made :
    switch_to_pending_ca library 7 rotating.material service_names switch_time ≡ ok switched
unfolding switch_to_pending_ca maintain start_rotation remove_expired remove_retained
    ensure_serving_cert missing_dns_names generate_ca issue_serving_cert create_key_pair create
    serving_cert_not_after generate_material
switched_made = refl
