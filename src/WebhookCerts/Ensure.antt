-- ===== src/WebhookCerts/Ensure.antt =====
-- internal/webhookcerts/manager.go: ensureMaterial and what it calls.
--
-- Events and log lines are left out.
pub mod Persistence
use dash0_operator.Base.{
  ℕ, zero, suc, ◌+◌, String, Bool, true, false, not, ◌&&◌, ◌||◌, Option, none, some, List, [], ◌∷◌,
  map, Result, ok, err, ◌>>=◌, any, all, ◌==◌, if◌then◌else◌,
}
use dash0_operator.Base.Bytes.{Bytes, bytes_eq}
use dash0_operator.WebhookCerts.X509.{X509}
use dash0_operator.WebhookCerts.Certificates.{KeyPair, CertError, parse_certificates}
use dash0_operator.WebhookCerts.Material.{
  Material, bundle, RetentionCandidates, add, generate_material, retain_chart_cas, MaintainInput,
  Maintained, maintain,
}
use dash0_operator.WebhookCerts.Material.Switch.{
  SwitchDecision, no_rotation_pending, rotation_waiting, rotation_blocked, rotation_switch,
  rotation_forced_switch, evaluate_switch, switch_to_pending_ca,
}
use dash0_operator.WebhookCerts.SecretData.{
  SecretData, data_equal, to_secret_data, material_from_secret_data,
}
use dash0_operator.WebhookCerts.Api.{
  ApiError, conflict, not_found, forbidden, invalid, bad_request, Secret, Attempt, TargetAnswer,
  SwitchAnswer, Pass, PassError, api, certs, unusable_pair, nil_dereference, not_injected, Store,
  Manager,
}

abbrev pub from_api : {A : Type 0} → Result ApiError A → Result PassError A
from_api (ok a) = ok a
from_api (err e) = err (api e)

abbrev pub from_certs : {A : Type 0} → Result CertError A → Result PassError A
from_certs (ok a) = ok a
from_certs (err e) = err (certs e)

-- What ensureMaterial hands to the pass: the material, the secret that holds it, and what the
-- manager remembers.
pub record Ensured : Type 0 where
  pub material : Material
  pub secret : Secret
  pub remembered : Option Secret

-- writeSecret: the secret keeps its UID.
unfoldable pub write_secret :
    (SecretData → Result ApiError Unit) → Secret → SecretData → Result PassError Secret
write_secret update secret entries = do
  done ← from_api (update entries)
  ok (record secret { entries = entries })

abbrev pub remember : Secret → SecretData → Option Secret
remember secret entries = some (record { uid = secret.uid; entries = entries })

is_conflict : PassError → Bool
is_conflict (api conflict) = true
is_conflict _ = false

abbrev pub maintain_input : Manager → Attempt → MaintainInput
maintain_input s a = record {
  now = a.now;
  dns_names = s.dns_names;
  rollout_complete = a.rollout_complete;
}

module _ (x : X509) where
  add_bundles : ℕ → RetentionCandidates → List Bytes → RetentionCandidates
  add_bundles now candidates [] = candidates
  add_bundles now candidates (bytes ∷ more) =
      add_bundles now (add x candidates (parse_certificates x bytes) false now) more

  add_targets : ℕ → RetentionCandidates → List (Result ApiError (List Bytes)) → RetentionCandidates
  add_targets now candidates [] = candidates
  add_targets now candidates (ok bundles ∷ more) =
      add_targets now (add_bundles now candidates bundles) more
  add_targets now candidates (err e ∷ more) = add_targets now candidates more

  add_previous : ℕ → RetentionCandidates → Option (Result ApiError Bytes) → RetentionCandidates
  add_previous now candidates (some (ok bytes)) =
      add x candidates (parse_certificates x bytes) true now
  add_previous now candidates _ = candidates

  unfoldable pub collect_retention_candidates : Attempt → RetentionCandidates
  unfolding add_targets add_bundles add_previous
  collect_retention_candidates a =
      let start : RetentionCandidates = record { chart_cas = []; other = [] } in
      add_previous a.now (add_targets a.now start a.target_bundles) a.previous_secret

  -- The material that is remembered for the same Secret object, if it can be used.
  restored : Option Secret → String → ℕ → Option Material
  restored none uid now = none
  restored (some secret) uid now =
      if secret.uid == uid
      then elim (material_from_secret_data x secret.entries now) [ ok m ↦ some m | err e ↦ none ]
      else none

  with_chart_cas : Attempt → Material → Material
  with_chart_cas a m = (retain_chart_cas x m (collect_retention_candidates a).chart_cas).0

  restore_or_generate : Manager → Attempt → Option Material → Result CertError Material
  restore_or_generate s a (some m) = ok (with_chart_cas a m)
  restore_or_generate s a none =
      generate_material x a.draw s.dns_names (collect_retention_candidates a) a.now

  -- The material before maintenance: stored, restored from memory, or generated.
  unfoldable pub initial_material : Manager → Attempt → Secret → Result CertError Material
  unfolding restored with_chart_cas restore_or_generate
  initial_material s a secret = elim (material_from_secret_data x secret.entries a.now) [
    | ok m ↦ ok (with_chart_cas a m)
    | err e ↦ restore_or_generate s a (restored s.remembered secret.uid a.now)
  ]

  persist : Attempt → Secret → Material → Result PassError Ensured
  persist a secret m =
      let entries = to_secret_data x m in
      if data_equal entries secret.entries
      then ok (record { material = m; secret = secret; remembered = remember secret entries })
      else (do
        updated ← write_secret a.update secret entries
        ok (record { material = m; secret = updated; remembered = remember updated entries }))

  unfoldable pub ensure_material : Manager → Attempt → Result PassError Ensured
  unfolding persist
  ensure_material s a = do
    secret ← from_api a.read
    current ← from_certs (initial_material s a secret)
    maintained ← from_certs (maintain x (a.draw + 2) current (maintain_input s a))
    persist a secret maintained.material

  -- The loop of runPass, with the number of retries that are left.
  unfoldable pub ensure_with_retries : ℕ → ℕ → Manager → Pass → Result PassError Ensured
  unfolding is_conflict
  ensure_with_retries zero attempt s p = ensure_material s (p.attempts attempt)
  ensure_with_retries (suc left) attempt s p =
      let retry = ensure_with_retries left (suc attempt) s p in
      elim (ensure_material s (p.attempts attempt)) [
        | ok ensured ↦ ok ensured
        | err e ↦ if is_conflict e then retry else err e
      ]
