-- ===== src/WebhookCerts/Tests/Passes.antt =====
-- The theorems about the passes of the manager, at a new installation and at a rotation.
use dash0_operator.Base.{
  ℕ, ◌+◌, ◌≤◌, ◌<◌, ◌≡◌, ◌≢◌, refl, ◌⊎◌, Bool, true, false, none, some, List, [], ◌∷◌, Result, ok,
  err, is_some, All,
}
use dash0_operator.Base.Bytes.{compare_bytes}
use dash0_operator.Base.Sorting.{sort_stable}
use dash0_operator.WebhookCerts.Certificates.{
  KeyPair, create_key_pair, generate_ca, issue_serving_cert, serving_cert_not_after, is_expired,
  missing_dns_names, without_expired, append_unique, encode_certificates, parse_certificates,
  parse_certificates_from, parse_key_pair, forced_switch_lead_time, minimum_rotation_age,
}
use dash0_operator.WebhookCerts.Material.{
  generate_material, maintain, start_rotation, remove_expired, remove_retained, ensure_serving_cert,
  bundle, bundle_certs, collected_certs, compare_certificates, retain_chart_cas,
}
use dash0_operator.WebhookCerts.Material.Switch.{evaluate_switch, switch_to_pending_ca}
use dash0_operator.WebhookCerts.SecretData.{
  get, SecretData, data_equal, to_secret_data, material_from_secret_data,
}
use dash0_operator.WebhookCerts.Api.{
  ApiError, conflict, Secret, Attempt, TargetAnswer, SwitchAnswer, Pass, PassError, nil_dereference,
  Manager,
}
use dash0_operator.WebhookCerts.Ensure.{
  Ensured, write_secret, initial_material, collect_retention_candidates, ensure_material,
  ensure_with_retries,
}
use dash0_operator.WebhookCerts.Ensure.Persistence.{ensure_material-IsStored}
use dash0_operator.WebhookCerts.Targets.{
  TargetOutcome, inject_all, inject_with_retry, inject, evaluate_outcomes, perses_crd_carries,
  perses_crd_notifies,
}
use dash0_operator.WebhookCerts.Targets.Injection.{inject_all-carried}
use dash0_operator.WebhookCerts.Manager.{
  load, complete_switch, complete_rotation_if_possible, run_pass,
}
use dash0_operator.WebhookCerts.Manager.Rotation.{complete_rotation_if_possible-safe}
use dash0_operator.WebhookCerts.Manager.Readiness.{
  run_pass-IsServing, run_pass-ready, run_pass-ne-nil_dereference,
}
use dash0_operator.WebhookCerts.Tests.Library.{
  library, service_names, create, encode, decode, time_of, library-IsLawful,
}
use dash0_operator.WebhookCerts.Tests.Samples.{start, rotating, switch_time}

abbrev manager : Manager
manager = record {
  dns_names = service_names;
  remembered = none;
  store = record { serving = none; ca_bundle = []; ready = false; notified = 0 };
}

abbrev empty : Secret
empty = record { uid = "secret-1"; entries = [] }

abbrev attempt : (SecretData → Result ApiError Unit) → Attempt
attempt update = record {
  now = start;
  draw = 1;
  read = ok empty;
  target_bundles = [];
  previous_secret = none;
  rollout_complete = true;
  update = update;
}

-- A target whose one entry does not carry the bundle yet.
abbrev target : ℕ → TargetAnswer
target n = record { read = ok (some ((1 ∷ []) ∷ [])); patch = ok tt }

abbrev pass_with : (SecretData → Result ApiError Unit) → Pass
pass_with update = record {
  attempts = λ n. attempt update;
  targets = target ∷ [];
  perses_crd = none;
  switch = record { now = start; draw = 9; update = update };
}

abbrev first_pass : Pass
first_pass = pass_with (λ d. ok tt)

abbrev conflicting_pass : Pass
conflicting_pass = pass_with (λ d. err conflict)

abbrev usable : KeyPair → Bool
usable pair = true

inject_all-carried_example :
    All
      (λ o. o.injected ≡ true → All (λ c. c ≡ 5 ∷ []) o.carried × (o.failed ≡ none))
      (inject_all (target ∷ target ∷ []) (5 ∷ []))
inject_all-carried_example = inject_all-carried (target ∷ target ∷ []) (5 ∷ [])

first_pass_done : (run_pass library usable manager first_pass).result ≡ ok tt
unfolding maintain start_rotation remove_expired remove_retained ensure_serving_cert
    missing_dns_names generate_ca issue_serving_cert create_key_pair create serving_cert_not_after
    generate_material bundle_certs collected_certs sort_stable append_unique compare_certificates
    compare_bytes without_expired is_expired ensure_material initial_material
    collect_retention_candidates retain_chart_cas write_secret material_from_secret_data
    parse_key_pair parse_certificates parse_certificates_from to_secret_data data_equal
    ensure_with_retries encode decode time_of encode_certificates get run_pass load
    complete_rotation_if_possible evaluate_switch inject_all inject_with_retry inject
    evaluate_outcomes perses_crd_carries perses_crd_notifies bundle
first_pass_done = refl

run_pass-ready_example :
    ((run_pass library usable manager first_pass).manager.store.ready ≡ true)
    × (is_some (run_pass library usable manager first_pass).manager.store.serving ≡ true)
run_pass-ready_example = run_pass-ready library usable manager first_pass first_pass_done

run_pass-IsServing_example :
    (manager.store.ready ≡ true
      → (run_pass library usable manager first_pass).manager.store.ready ≡ true)
    × ((run_pass library usable manager first_pass).manager.store.ready ≡ true
        → is_some (run_pass library usable manager first_pass).manager.store.serving ≡ true)
run_pass-IsServing_example =
    run_pass-IsServing library usable manager first_pass (λ h. absurd (cc h))

run_pass-ne-nil_dereference_example :
    (run_pass library usable manager first_pass).result ≢ err nil_dereference
run_pass-ne-nil_dereference_example =
    run_pass-ne-nil_dereference library library-IsLawful usable manager first_pass

abbrev nothing_ensured : Ensured
nothing_ensured = record { material = rotating.material; secret = empty; remembered = none }

abbrev ensured_or : Result PassError Ensured → Ensured
ensured_or (ok e) = e
ensured_or (err e) = nothing_ensured

abbrev ensured : Ensured
ensured = ensured_or (ensure_material library manager (first_pass.attempts 0))

ensured_made : ensure_material library manager (first_pass.attempts 0) ≡ ok ensured
unfolding maintain start_rotation remove_expired remove_retained ensure_serving_cert
    missing_dns_names generate_ca issue_serving_cert create_key_pair create serving_cert_not_after
    generate_material bundle_certs collected_certs sort_stable append_unique compare_certificates
    compare_bytes without_expired is_expired ensure_material initial_material
    collect_retention_candidates retain_chart_cas write_secret material_from_secret_data
    parse_key_pair parse_certificates parse_certificates_from to_secret_data data_equal
    ensure_with_retries encode decode time_of encode_certificates get
ensured_made = refl

ensure_material-IsStored_example :
    (secret : Secret) × (◌≡◌ {A = Result ApiError Secret} (ok empty) (ok secret))
    × ((data_equal (to_secret_data library ensured.material) secret.entries ≡ true)
        ⊎ (◌≡◌ {A = Result ApiError Unit} (ok tt) (ok tt)))
    × (ensured.remembered
        ≡ some (record { uid = secret.uid; entries = to_secret_data library ensured.material }))
ensure_material-IsStored_example =
    ensure_material-IsStored library manager (first_pass.attempts 0) ensured ensured_made

-- A rotation whose one target carries the bundle.
abbrev rotation : Ensured
rotation = record { material = rotating.material; secret = empty; remembered = none }

abbrev carried : List TargetOutcome
carried =
    record { injected = true; ignored = false; permanent = false; failed = none; carried = [] } ∷ []

abbrev answer : SwitchAnswer
answer = record { now = switch_time; draw = 9; update = λ d. ok tt }

switched_store :
    is_some
      (complete_rotation_if_possible library usable manager rotation carried true
        answer).manager.store.serving
    ≡ true
unfolding maintain start_rotation remove_expired remove_retained ensure_serving_cert
    missing_dns_names generate_ca issue_serving_cert create_key_pair create serving_cert_not_after
    generate_material bundle_certs collected_certs sort_stable append_unique compare_certificates
    compare_bytes without_expired is_expired complete_rotation_if_possible complete_switch load
    write_secret evaluate_switch switch_to_pending_ca
switched_store = refl

rotation_done :
    complete_rotation_if_possible library usable manager rotation carried true answer
    ≢ record { manager = manager; result = ok tt }
rotation_done h = absurd (cc (switched_store, rw h at switched_store))

complete_rotation_if_possible-safe_example :
    (is_some rotation.material.pending_ca ≡ true)
    × ((library.not_after rotation.material.active_ca.cert < switch_time + forced_switch_lead_time)
        ⊎ ((rotation.material.rotation_started_at + minimum_rotation_age ≤ switch_time)
            × All (λ o. (o.injected ≡ true) ⊎ (o.ignored ≡ true)) carried
            × (◌≡◌ {A = Bool} true true)))
complete_rotation_if_possible-safe_example =
    complete_rotation_if_possible-safe library usable manager rotation carried true answer
      rotation_done
