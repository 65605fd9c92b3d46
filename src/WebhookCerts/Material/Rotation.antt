-- ===== src/WebhookCerts/Material/Rotation.antt =====
-- When maintain and evaluateSwitch of internal/webhookcerts/state.go start and complete a rotation.
use dash0_operator.Base.{
  ℕ, suc, ◌+◌, ◌≤◌, ◌<◌, ◌≡◌, ◌↔◌, ◌⊎◌, Bool, true, false, none, ok, arith, ltb, is_some,
}
use dash0_operator.WebhookCerts.X509.{X509}
use dash0_operator.WebhookCerts.Certificates.{
  ca_rotation_lead_time, forced_switch_lead_time, minimum_rotation_age,
}
use dash0_operator.WebhookCerts.Material.{
  Material, MaintainInput, Maintained, start_rotation, remove_retained, remove_expired, maintain,
}
use dash0_operator.WebhookCerts.Material.Switch.{
  rotation_switch, rotation_forced_switch, evaluate_switch,
}
use dash0_operator.WebhookCerts.Material.Steps.{maintain-Steps, ensure_serving_cert-keeps}

abbrev is_rotation_due : X509 → Material → ℕ → Bool
is_rotation_due x m now = ltb (x.not_after m.active_ca.cert) (now + ca_rotation_lead_time)

module _ (x : X509) (draw : ℕ) (m : Material) (input : MaintainInput) where
  start_rotation-pending :
      (t : Maintained)
      → start_rotation x draw m input ≡ ok t
      → (t.material.active_ca ≡ m.active_ca)
        × ((is_some m.pending_ca ≡ true)
            → (t.material.pending_ca ≡ m.pending_ca)
              × (t.material.rotation_started_at ≡ m.rotation_started_at))
        × ((m.pending_ca ≡ none) → is_some t.material.pending_ca ≡ is_rotation_due x m input.now)
  unfolding start_rotation
  start_rotation-pending t h = (ground arith, λ p. (ground arith, ground arith), λ p. ground arith)

  cleaned-pending :
      (t : Maintained)
      → ((remove_expired x input (remove_retained input t)).material.pending_ca
          ≡ t.material.pending_ca)
        × ((remove_expired x input (remove_retained input t)).material.active_ca
            ≡ t.material.active_ca)
        × ((remove_expired x input (remove_retained input t)).material.rotation_started_at
            ≡ t.material.rotation_started_at)
  unfolding remove_expired remove_retained
  cleaned-pending t = (ground arith, ground arith, ground arith)

-- A successful maintenance keeps the active CA. It keeps a pending CA and the time at which its
-- rotation started. Without a pending CA there is one afterwards exactly when the active CA expires
-- within the lead time of a rotation.
pub maintain-pending_ca :
    (x : X509) (draw : ℕ) (m : Material) (input : MaintainInput) (s : Maintained)
    → maintain x draw m input ≡ ok s
    → (s.material.active_ca ≡ m.active_ca)
      × ((is_some m.pending_ca ≡ true)
          → (s.material.pending_ca ≡ m.pending_ca)
            × (s.material.rotation_started_at ≡ m.rotation_started_at))
      × ((m.pending_ca ≡ none)
          → (is_some s.material.pending_ca ≡ true)
            ↔ (x.not_after m.active_ca.cert < input.now + ca_rotation_lead_time))
maintain-pending_ca x draw m input s h =
    let steps = maintain-Steps x draw m input s h in
    let (active, kept, started) = start_rotation-pending x draw m input steps.started steps.start in
    let (p, a, r) = cleaned-pending x draw m input steps.started in
    let k =
      ensure_serving_cert-keeps x (suc draw) _ input.dns_names input.now steps.served steps.serve in
    (
      cc (steps.outcome, k, a, active),
      λ q. (cc (steps.outcome, k, p, (kept q).0), cc (steps.outcome, k, r, (kept q).1)),
      λ q. ground (arith, steps.outcome, k, p, started q),
    )

-- A rotation completes, by force or not, exactly when a CA is pending and either the active CA
-- expires within the lead time of a forced switch, or the rotation is old enough and all targets
-- carry the new CA. It is forced exactly when a target lacks the new CA while the active CA is that
-- close to its expiry.
pub evaluate_switch_lem :
    (x : X509) (m : Material) (all_targets_injected : Bool) (now : ℕ)
    → let is_close = x.not_after m.active_ca.cert < now + forced_switch_lead_time in
      let decision = evaluate_switch x m all_targets_injected now in
      ((decision ≡ rotation_switch) ↔ (
        (is_some m.pending_ca ≡ true)
        × (all_targets_injected ≡ true)
        × (is_close ⊎ (m.rotation_started_at + minimum_rotation_age ≤ now))))
      × ((decision ≡ rotation_forced_switch)
          ↔ ((is_some m.pending_ca ≡ true) × (all_targets_injected ≡ false) × is_close))
unfolding evaluate_switch
evaluate_switch_lem x m all_targets_injected now = (
  (λ h. (ground arith, ground arith, ground arith), λ h. ground arith),
  (λ h. (ground arith, ground arith, ground arith), λ h. ground arith),
)
