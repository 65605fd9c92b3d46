-- ===== src/WebhookCerts/Material/Retention.antt =====
-- What maintain of internal/webhookcerts/state.go does to the CA bundle.
use dash0_operator.Base.{ℕ, suc, ◌+◌, ◌<◌, ◌≡◌, ◌↔◌, ◌⊎◌, false, none, ok, arith, not, List}
use dash0_operator.Base.Members.{In, In-keep}
use dash0_operator.WebhookCerts.X509.{Certificate, X509}
use dash0_operator.WebhookCerts.Certificates.{foreign_cert_retention, is_expired, without_expired}
use dash0_operator.WebhookCerts.Material.{
  Material, MaintainInput, Maintained, start_rotation, remove_retained, remove_expired, cleaned,
  maintain, cert_of, bundle_certs, bundle,
}
use dash0_operator.WebhookCerts.Material.Members.{IsTrusted, In-bundle_certs}
use dash0_operator.WebhookCerts.Material.Bundle.{bundle-SameTrust}
use dash0_operator.WebhookCerts.Material.Steps.{maintain-Steps, ensure_serving_cert-keeps}

-- The serving certificate is no part of the trust.
IsTrusted-serving :
    (c : Certificate) (m : Material) (m' : Material)
    → m' ≡ record m { serving = m'.serving }
    → IsTrusted c m' ↔ IsTrusted c m
IsTrusted-serving c m m' e = ground arith

module _ (x : X509) where
  In-without_expired :
      (c : Certificate) (certs : List Certificate) (now : ℕ)
      → In c (without_expired x certs now) ↔ (In c certs × (is_expired x c now ≡ false))
  unfolding without_expired
  In-without_expired c certs now =
      ground (arith, In-keep c (λ cert. not (is_expired x cert now)) certs)

  module _ (c : Certificate) (input : MaintainInput) where
    start_rotation-trust :
        (draw : ℕ) (m : Material) (t : Maintained)
        → start_rotation x draw m input ≡ ok t
        → (IsTrusted c m → IsTrusted c t.material)
          × (t.material.retained_certs ≡ m.retained_certs)
          × (t.material.retained_since ≡ m.retained_since)
    unfolding start_rotation
    start_rotation-trust draw m t h = (ground arith, ground arith, ground arith)

    -- The new CA is the only certificate that a rotation adds.
    start_rotation-adds :
        (draw : ℕ) (m : Material) (t : Maintained)
        → start_rotation x draw m input ≡ ok t
        → IsTrusted c t.material
        → IsTrusted c m ⊎ ((m.pending_ca ≡ none) × In c (cert_of t.material.pending_ca))
    unfolding start_rotation
    start_rotation-adds draw m t h = ground arith

    start_rotation-same :
        (draw : ℕ) (m : Material) (t : Maintained)
        → start_rotation x draw m input ≡ ok t
        → t.result.bundle_changed ≡ false
        → t.material ≡ m
    unfolding start_rotation
    start_rotation-same draw m t h e = ground arith

    cleaned-same :
        (t : Maintained)
        → (cleaned x input t).result.bundle_changed ≡ false
        → ((cleaned x input t).material ≡ t.material) × (t.result.bundle_changed ≡ false)
    unfolding remove_retained remove_expired
    cleaned-same t e = (ground arith, ground arith)

    abbrev pub IsRetained : Material → Type 0
    IsRetained m =
        (¬ (In c m.retained_certs))
        ⊎ (input.now < m.retained_since + foreign_cert_retention)
        ⊎ (input.rollout_complete ≡ false)

    remove_retained-trust :
        (t : Maintained)
        → IsTrusted c t.material
        → IsRetained t.material
        → IsTrusted c (remove_retained input t).material
    unfolding remove_retained
    remove_retained-trust t h r = ground arith

    remove_retained-adds :
        (t : Maintained) → IsTrusted c (remove_retained input t).material → IsTrusted c t.material
    unfolding remove_retained
    remove_retained-adds t h = ground arith

    remove_expired-trust :
        (t : Maintained)
        → (is_expired x c input.now ≡ false
            → IsTrusted c t.material
            → IsTrusted c (remove_expired x input t).material)
          × (IsTrusted c (remove_expired x input t).material → IsTrusted c t.material)
    unfolding remove_expired
    remove_expired-trust t =
        let previous = In-without_expired c t.material.previous_cas input.now in
        let chart = In-without_expired c t.material.retained_chart_cas input.now in
        let retained = In-without_expired c t.material.retained_certs input.now in
        (
          λ e h. ground (arith, previous, chart, retained),
          λ h. ground (arith, previous, chart, retained),
        )

    cleaned-pending_ca :
        (t : Maintained) → (cleaned x input t).material.pending_ca ≡ t.material.pending_ca
    unfolding remove_retained remove_expired
    cleaned-pending_ca t = ground arith

-- A certificate of the CA bundle that has not expired stays in it across a successful maintenance,
-- unless it is a retained foreign certificate whose retention is over while the rollout of the
-- operator is complete.
pub maintain-keeps_bundle :
    (x : X509) (draw : ℕ) (m : Material) (input : MaintainInput) (s : Maintained) (c : Certificate)
    → maintain x draw m input ≡ ok s
    → In c (bundle_certs x m)
    → is_expired x c input.now ≡ false
    → (¬ (In c m.retained_certs))
      ⊎ (input.now < m.retained_since + foreign_cert_retention)
      ⊎ (input.rollout_complete ≡ false)
    → In c (bundle_certs x s.material)
maintain-keeps_bundle x draw m input s c h i valid retained =
    let steps = maintain-Steps x draw m input s h in
    let t = steps.started in
    let (start, certs, since) = start_rotation-trust x c input draw m t steps.start in
    let kept : IsRetained x c input t.material = ground arith in
    let after_retained =
      remove_retained-trust x c input t (start ((In-bundle_certs x c m).0 i)) kept in
    let after_expired =
      (remove_expired-trust x c input (remove_retained input t)).0 valid after_retained in
    let keeps =
      ensure_serving_cert-keeps x (suc draw) _ input.dns_names input.now steps.served steps.serve in
    let served =
      (IsTrusted-serving c (cleaned x input t).material steps.served.material keeps).1
        after_expired in
    (In-bundle_certs x c s.material).1 (rw steps.outcome served)

-- The only certificate that a successful maintenance can add to the CA bundle is that of a CA that
-- it makes pending where none was pending.
pub maintain-adds_bundle :
    (x : X509) (draw : ℕ) (m : Material) (input : MaintainInput) (s : Maintained) (c : Certificate)
    → maintain x draw m input ≡ ok s
    → In c (bundle_certs x s.material)
    → In c (bundle_certs x m) ⊎ ((m.pending_ca ≡ none) × In c (cert_of s.material.pending_ca))
maintain-adds_bundle x draw m input s c h i =
    let steps = maintain-Steps x draw m input s h in
    let t = steps.started in
    let keeps =
      ensure_serving_cert-keeps x (suc draw) _ input.dns_names input.now steps.served steps.serve in
    let j : IsTrusted c steps.served.material =
      rw steps.outcome at ((In-bundle_certs x c s.material).0 i) in
    let cleaned_trust =
      (IsTrusted-serving c (cleaned x input t).material steps.served.material keeps).0 j in
    let trust =
      remove_retained-adds x c input t
        ((remove_expired-trust x c input (remove_retained input t)).1 cleaned_trust) in
    ground (
      arith,
      start_rotation-adds x c input draw m t steps.start trust,
      In-bundle_certs x c m,
      cleaned-pending_ca x c input t,
      keeps,
      steps.outcome,
    )

-- A successful maintenance that does not report a changed bundle leaves the bundle as it is.
pub bundle-maintain :
    (x : X509) (draw : ℕ) (m : Material) (input : MaintainInput) (s : Maintained)
    → maintain x draw m input ≡ ok s
    → s.result.bundle_changed ≡ false
    → bundle x s.material ≡ bundle x m
bundle-maintain x draw m input s h unchanged =
    let steps = maintain-Steps x draw m input s h in
    let t = steps.started in
    let c = m.active_ca.cert in
    let (same, quiet) = cleaned-same x c input t (ground (arith, steps.outcome)) in
    let start = start_rotation-same x c input draw m t steps.start quiet in
    let keeps =
      ensure_serving_cert-keeps x (suc draw) _ input.dns_names input.now steps.served steps.serve in
    let e : s.material ≡ record m { serving = s.material.serving } =
      ground (arith, steps.outcome, keeps, same, start) in
    bundle-SameTrust x s.material m (λ d. IsTrusted-serving d m s.material e)
