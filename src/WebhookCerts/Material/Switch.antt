-- ===== src/WebhookCerts/Material/Switch.antt =====
-- internal/webhookcerts/state.go: evaluateSwitch and switchToPendingCa.
use dash0_operator.Base.{
  ℕ, ◌+◌, String, Bool, not, Option, none, some, List, [], ◌∷◌, ◌++◌, Result, ok, err, ◌>>=◌, ltb,
  is_some, if◌then◌else◌,
}
use dash0_operator.WebhookCerts.X509.{X509}
use dash0_operator.WebhookCerts.Certificates.{
  KeyPair, CertError, no_pending_ca, forced_switch_lead_time, minimum_rotation_age, append_unique,
  issue_serving_cert, missing_dns_names,
}
use dash0_operator.WebhookCerts.Material.{Material}

pub data SwitchDecision : Type 0 where
  no_rotation_pending rotation_waiting rotation_blocked rotation_switch : SwitchDecision
  rotation_forced_switch : SwitchDecision

module _ (x : X509) where
  unfoldable pub evaluate_switch : Material → Bool → ℕ → SwitchDecision
  evaluate_switch m all_targets_injected now =
      if not (is_some m.pending_ca)
      then no_rotation_pending
      else if ltb (x.not_after m.active_ca.cert) (now + forced_switch_lead_time)
      then (if all_targets_injected then rotation_switch else rotation_forced_switch)
      else if ltb now (m.rotation_started_at + minimum_rotation_age)
      then rotation_waiting
      else if not all_targets_injected
      then rotation_blocked
      else rotation_switch

  -- The DNS names of the serving certificate that a switch issues.
  abbrev pub switch_names : Option KeyPair → List String → List String
  switch_names none names = names
  switch_names (some serving) names =
      x.dns_names serving.cert ++ missing_dns_names x serving.cert names

  unfoldable pub switch_to :
      ℕ → Material → Option KeyPair → List String → ℕ → Result CertError Material
  switch_to draw m none names now = err no_pending_ca
  switch_to draw m (some pending_ca) names now = do
    serving ← issue_serving_cert x draw pending_ca (switch_names m.serving names) now
    ok (record m {
      previous_cas = append_unique m.previous_cas (m.active_ca.cert ∷ []);
      active_ca = pending_ca;
      pending_ca = none;
      rotation_started_at = 0;
      serving = some serving;
    })

  unfoldable pub switch_to_pending_ca : ℕ → Material → List String → ℕ → Result CertError Material
  unfolding switch_to
  switch_to_pending_ca draw m names now = switch_to draw m m.pending_ca names now
