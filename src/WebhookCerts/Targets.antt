-- ===== src/WebhookCerts/Targets.antt =====
-- internal/webhookcerts/manager.go: the injection of the CA bundle into the targets.
pub mod Injection
use dash0_operator.Base.{
  ℕ, zero, suc, ◌+◌, String, Bool, true, false, not, ◌&&◌, ◌||◌, Option, none, some, List, [], ◌∷◌,
  map, Result, ok, err, ◌>>=◌, any, all, ◌==◌, if◌then◌else◌,
}
use dash0_operator.Base.Bytes.{Bytes, bytes_eq}
use dash0_operator.WebhookCerts.X509.{X509}
use dash0_operator.WebhookCerts.Certificates.{KeyPair, CertError, parse_certificates}
use dash0_operator.WebhookCerts.Material.{
  Material, bundle, RetentionCandidates, add, generate_material, retain_chart_cas, MaintainInput,
  Maintained, maintain,
}
use dash0_operator.WebhookCerts.Material.Switch.{
  SwitchDecision, no_rotation_pending, rotation_waiting, rotation_blocked, rotation_switch,
  rotation_forced_switch, evaluate_switch, switch_to_pending_ca,
}
use dash0_operator.WebhookCerts.SecretData.{
  SecretData, data_equal, to_secret_data, material_from_secret_data,
}
use dash0_operator.WebhookCerts.Api.{
  ApiError, conflict, not_found, forbidden, invalid, bad_request, Secret, Attempt, TargetAnswer,
  SwitchAnswer, Pass, PassError, api, certs, unusable_pair, nil_dereference, not_injected, Store,
  Manager,
}

-- targetOutcome, with the bundles that the target's entries carry afterwards.
pub record TargetOutcome : Type 0 where
  pub injected : Bool
  pub ignored : Bool
  pub permanent : Bool
  pub failed : Option PassError
  pub carried : List Bytes

abbrev pub max_conflict_retries : ℕ
max_conflict_retries = 3

abbrev failed_outcome : Bool → PassError → TargetOutcome
failed_outcome permanent e = record {
  injected = false;
  ignored = false;
  permanent = permanent;
  failed = some e;
  carried = [];
}

abbrev carrying : List Bytes → TargetOutcome
carrying bundles = record {
  injected = true;
  ignored = false;
  permanent = false;
  failed = none;
  carried = bundles;
}

abbrev pub is_forbidden : ApiError → Bool
is_forbidden forbidden = true
is_forbidden _ = false

abbrev pub is_permanent_patch : ApiError → Bool
is_permanent_patch forbidden = true
is_permanent_patch invalid = true
is_permanent_patch bad_request = true
is_permanent_patch _ = false

patched : List Bytes → Bytes → Result ApiError Unit → TargetOutcome
patched bundles bytes (err e) = record (failed_outcome (is_permanent_patch e) (api e)) {
  carried = bundles;
}
patched bundles bytes (ok done) = carrying (map (λ b. bytes) bundles)

inject_found : TargetAnswer → Bytes → Option (List Bytes) → TargetOutcome
unfolding patched
inject_found t bytes none = record {
  injected = false;
  ignored = true;
  permanent = false;
  failed = none;
  carried = [];
}
inject_found t bytes (some []) = failed_outcome true not_injected
inject_found t bytes (some (b ∷ bundles)) =
    if any (b ∷ bundles) (λ c. not (bytes_eq c bytes))
    then patched (b ∷ bundles) bytes t.patch
    else carrying (b ∷ bundles)

unfoldable pub inject : TargetAnswer → Bytes → TargetOutcome
unfolding inject_found
inject t bytes = elim t.read [
  | err e ↦ failed_outcome (is_forbidden e) (api e)
  | ok found ↦ inject_found t bytes found
]

abbrev is_conflicted : Option PassError → Bool
is_conflicted (some (api conflict)) = true
is_conflicted _ = false

-- injectWithRetry, with the number of retries that are left
unfoldable pub inject_with_retry : ℕ → ℕ → (ℕ → TargetAnswer) → Bytes → TargetOutcome
inject_with_retry zero attempt answers bytes = inject (answers attempt) bytes
inject_with_retry (suc left) attempt answers bytes =
    let retry = inject_with_retry left (suc attempt) answers bytes in
    let outcome = inject (answers attempt) bytes in
    if is_conflicted outcome.failed then retry else outcome

unfoldable pub inject_all : List (ℕ → TargetAnswer) → Bytes → List TargetOutcome
inject_all targets bytes = map (λ t. inject_with_retry max_conflict_retries 0 t bytes) targets

-- checkPersesCrdBundle: whether the CRD carries the bundle, and whether the listeners are notified.
unfoldable pub perses_crd_carries : Option (Result ApiError (List Bytes)) → Bytes → Bool
perses_crd_carries none bytes = true
perses_crd_carries (some (err not_found)) bytes = true
perses_crd_carries (some (err _)) bytes = false
perses_crd_carries (some (ok [])) bytes = true
perses_crd_carries (some (ok (b ∷ _))) bytes = bytes_eq b bytes

unfoldable pub perses_crd_notifies : Option (Result ApiError (List Bytes)) → Bytes → Bool
perses_crd_notifies (some (ok (b ∷ _))) bytes = not (bytes_eq b bytes)
perses_crd_notifies _ bytes = false

abbrev pub is_settled : TargetOutcome → Bool
is_settled o = elim o.failed [ none ↦ true | some e ↦ o.permanent ]

abbrev pub has_failed : TargetOutcome → Bool
has_failed o = elim o.failed [ none ↦ false | some e ↦ true ]

-- evaluateOutcomes: the readiness latch, and the error of the pass.
unfoldable pub evaluate_outcomes : List TargetOutcome → Store → Store × Result PassError Unit
evaluate_outcomes outcomes store = (
  if all outcomes is_settled then record store { ready = true } else store,
  if any outcomes has_failed then err not_injected else ok tt,
)

abbrev pub all_injected : List TargetOutcome → Bool → Bool
all_injected outcomes perses_carries = all outcomes (λ o. o.injected || o.ignored) && perses_carries
