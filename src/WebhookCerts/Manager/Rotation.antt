-- ===== src/WebhookCerts/Manager/Rotation.antt =====
-- When completeRotationIfPossible of internal/webhookcerts/manager.go changes anything.
use dash0_operator.Base.{
  ◌+◌, ◌<◌, ◌≤◌, ◌≡◌, ◌≢◌, ◌⊎◌, Bool, true, ◌||◌, List, [], ◌∷◌, ok, arith, all, All, is_some,
}
use dash0_operator.WebhookCerts.X509.{X509}
use dash0_operator.WebhookCerts.Certificates.{
  KeyPair, forced_switch_lead_time, minimum_rotation_age,
}
use dash0_operator.WebhookCerts.Material.Rotation.{evaluate_switch_lem}
use dash0_operator.WebhookCerts.Api.{SwitchAnswer, Manager}
use dash0_operator.WebhookCerts.Targets.{TargetOutcome, all_injected}
use dash0_operator.WebhookCerts.Ensure.{Ensured}
use dash0_operator.WebhookCerts.Manager.{complete_rotation_if_possible}

All-all :
    (outcomes : List TargetOutcome)
    → all outcomes (λ o. o.injected || o.ignored) ≡ true
    → All (λ o. (o.injected ≡ true) ⊎ (o.ignored ≡ true)) outcomes
All-all [] h = tt
All-all (o ∷ outcomes) h = (ground arith, All-all outcomes (ground arith))

-- A pass leaves a rotation alone unless a CA is pending and either the active CA is about to expire
-- or the rotation has lasted the minimum age, each target has been injected or does not count, and
-- the Perses CRD carries the bundle.
pub complete_rotation_if_possible-safe :
    (x : X509) (usable : KeyPair → Bool) (s : Manager) (e : Ensured) (outcomes : List TargetOutcome)
    (perses_carries : Bool) (a : SwitchAnswer)
    → complete_rotation_if_possible x usable s e outcomes perses_carries a
      ≢ record { manager = s; result = ok tt }
    → (is_some e.material.pending_ca ≡ true)
      × ((x.not_after e.material.active_ca.cert < a.now + forced_switch_lead_time)
          ⊎ ((e.material.rotation_started_at + minimum_rotation_age ≤ a.now)
              × All (λ o. (o.injected ≡ true) ⊎ (o.ignored ≡ true)) outcomes
              × (perses_carries ≡ true)))
unfolding complete_rotation_if_possible
complete_rotation_if_possible-safe x usable s e outcomes perses_carries a h =
    let ready = all_injected outcomes perses_carries in
    let (switch, forced) = evaluate_switch_lem x e.material ready a.now in
    (ground (arith, switch.0, forced.0, h), ground (arith, switch.0, forced.0, h, All-all outcomes))
