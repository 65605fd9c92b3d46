-- ===== src/WebhookCerts/Material/Soundness.antt =====
-- The invariant of the material of internal/webhookcerts/state.go: its CAs can issue, and its serving
-- certificate verifies against the active CA.
use dash0_operator.Base.{
  ℕ, suc, ◌≡◌, inl, inr, true, Option, none, some, List, ◌++◌, String, ok, arith, Bool-cases,
  Result-cases, length, leb, is_some,
}
use dash0_operator.WebhookCerts.X509.{Certificate, X509}
use dash0_operator.WebhookCerts.X509.Laws.{IsLawful}
use dash0_operator.WebhookCerts.Certificates.{
  KeyPair, issue_serving_cert, generate_ca, missing_dns_names, verify_serving_cert_chain,
}
use dash0_operator.WebhookCerts.Certificates.Chains.{
  IsUsable, generate_ca-IsUsable, issue_serving_cert-chains,
}
use dash0_operator.WebhookCerts.Material.{
  Material, Served, Change, MaintainInput, Maintained, RetentionCandidates, generate_material,
  start_rotation, issue_with, ensure_serving_cert_of, ensure_serving_cert, is_renewal_due, maintain,
  cleaned, remove_retained, remove_expired, issued_serving_cert, renewed_serving_cert,
  reissued_serving_cert,
}
use dash0_operator.WebhookCerts.Material.Switch.{switch_to, switch_names, switch_to_pending_ca}
use dash0_operator.WebhookCerts.Material.Steps.{maintain-Steps, issue_with-ok}

abbrev pub UsableIfAny : X509 → ℕ → Option KeyPair → Type 0
UsableIfAny x now none = Unit
UsableIfAny x now (some ca) = IsUsable x ca now

abbrev pub ChainsIfAny : X509 → Certificate → ℕ → Option KeyPair → Type 0
ChainsIfAny x active now none = Unit
ChainsIfAny x active now (some pair) = verify_serving_cert_chain x pair.cert active now ≡ true

pub record IsSound (x : X509) (m : Material) (now : ℕ) : Type 0 where
  pub active : IsUsable x m.active_ca now
  pub pending : UsableIfAny x now m.pending_ca
  pub serving : ChainsIfAny x m.active_ca.cert now m.serving

module _ (x : X509) (law : IsLawful x) where
  start_rotation-IsSound :
      (draw : ℕ) (m : Material) (input : MaintainInput) (t : Maintained)
      → IsSound x m input.now
      → start_rotation x draw m input ≡ ok t
      → IsSound x t.material input.now
  unfolding start_rotation
  start_rotation-IsSound draw m input t sound h =
      elim (Result-cases (generate_ca x draw input.now)) [
        | inl (ca, made) ↦
            let usable = generate_ca-IsUsable x law draw input.now ca made in
            record {
              active = ground (arith, sound.active);
              pending = ground (arith, sound.pending, usable);
              serving = ground (arith, sound.serving);
            }
        | inr (e, failed) ↦ record {
          active = ground (arith, sound.active);
          pending = ground (arith, sound.pending);
          serving = ground (arith, sound.serving);
        }
      ]

  cleaned-IsSound :
      (input : MaintainInput) (t : Maintained)
      → IsSound x t.material input.now
      → IsSound x (cleaned x input t).material input.now
  unfolding remove_retained remove_expired
  cleaned-IsSound input t sound = record {
    active = ground (arith, sound.active);
    pending = ground (arith, sound.pending);
    serving = ground (arith, sound.serving);
  }

  issue_with-IsSound :
      (draw : ℕ) (m : Material) (names : List String) (now : ℕ) (change : Change) (r : Served)
      → IsSound x m now
      → issue_with x draw m names now change ≡ ok r
      → IsSound x r.material now
  issue_with-IsSound draw m names now change r sound h =
      let (pair, made, same) = issue_with-ok x draw m names now change r h in
      rw same (record {
        active = sound.active;
        pending = sound.pending;
        serving = issue_serving_cert-chains x law draw m.active_ca names now pair sound.active made;
      })

  ensure_serving_cert_of-IsSound :
      (draw : ℕ) (m : Material) (serving : Option KeyPair) (names : List String) (now : ℕ)
      (r : Served)
      → IsSound x m now
      → ensure_serving_cert_of x draw m serving names now ≡ ok r
      → IsSound x r.material now
  unfolding ensure_serving_cert_of
  ensure_serving_cert_of-IsSound draw m none names now r sound h =
      issue_with-IsSound draw m names now issued_serving_cert r sound (unfold issue_with in h)
  ensure_serving_cert_of-IsSound draw m (some pair) names now r sound h =
      let missing = missing_dns_names x pair.cert names in
      elim (Bool-cases (leb (length missing) 0)) [
        | inr some_missing ↦
            issue_with-IsSound draw m (x.dns_names pair.cert ++ missing) now
              (reissued_serving_cert missing) r sound (rw some_missing at h)
        | inl none_missing ↦ elim (Bool-cases (is_renewal_due x m pair now)) [
          | inl due ↦
              issue_with-IsSound draw m names now renewed_serving_cert r sound
                (rw (none_missing, due) at h)
          | inr early ↦
              let same : m ≡ r.material = cc (rw (none_missing, early) at h) in rw same at sound
        ]
      ]

  switch_to-IsSound :
      (draw : ℕ) (m m' : Material) (pending : Option KeyPair) (names : List String) (now : ℕ)
      → UsableIfAny x now pending
      → switch_to x draw m pending names now ≡ ok m'
      → IsSound x m' now × (is_some m'.serving ≡ true)
  unfolding switch_to
  switch_to-IsSound draw m m' none names now usable h = cc
  switch_to-IsSound draw m m' (some ca) names now usable h =
      elim (Result-cases (issue_serving_cert x draw ca (switch_names x m.serving names) now)) [
        | inr (e, failed) ↦ absurd (ground arith)
        | inl (pair, made) ↦
            let chains = issue_serving_cert-chains x law draw ca _ now pair usable made in
            (
              record {
                active = ground (arith, usable);
                pending = ground arith;
                serving = ground (arith, chains);
              },
              ground arith,
            )
      ]

-- With the laws of X509, a successful maintenance keeps the invariant of the material that holds at
-- its time: its CAs have their keys, have not expired and are what Certificate.Verify accepts as the CA of a
-- serving certificate, and its serving certificate, if any, verifies against the active CA.
pub maintain-IsSound :
    (x : X509) (law : IsLawful x) (draw : ℕ) (m : Material) (input : MaintainInput) (s : Maintained)
    → IsSound x m input.now
    → maintain x draw m input ≡ ok s
    → IsSound x s.material input.now
unfolding ensure_serving_cert
maintain-IsSound x law draw m input s sound h =
    let steps = maintain-Steps x draw m input s h in
    let started = start_rotation-IsSound x law draw m input steps.started sound steps.start in
    let m' = (cleaned x input steps.started).material in
    let served =
      ensure_serving_cert_of-IsSound x law (suc draw) m' m'.serving input.dns_names input.now
        steps.served (cleaned-IsSound x law input steps.started started) steps.serve in
    rw steps.outcome served

-- With the laws of X509, a successful switch to the pending CA keeps the invariant that holds at its
-- time, for the new active CA, and leaves a serving certificate.
pub switch_to_pending_ca-IsSound :
    (x : X509) (law : IsLawful x) (draw : ℕ) (m m' : Material) (names : List String) (now : ℕ)
    → IsSound x m now
    → switch_to_pending_ca x draw m names now ≡ ok m'
    → IsSound x m' now × (is_some m'.serving ≡ true)
unfolding switch_to_pending_ca
switch_to_pending_ca-IsSound x law draw m m' names now sound h =
    switch_to-IsSound x law draw m m' m.pending_ca names now sound.pending h

-- With the laws of X509, generated material satisfies the invariant at the time of its generation,
-- and has a serving certificate.
pub generate_material-IsSound :
    (x : X509) (law : IsLawful x) (draw : ℕ) (names : List String)
    (candidates : RetentionCandidates) (now : ℕ) (m : Material)
    → generate_material x draw names candidates now ≡ ok m
    → IsSound x m now × (is_some m.serving ≡ true)
unfolding generate_material
generate_material-IsSound x law draw names candidates now m h =
    elim (Result-cases (generate_ca x draw now)) [
      | inr (e, failed) ↦ absurd (ground arith)
      | inl (ca, made) ↦ elim (Result-cases (issue_serving_cert x (suc draw) ca names now)) [
        | inr (e, failed) ↦ absurd (ground arith)
        | inl (pair, issued) ↦
            let usable = generate_ca-IsUsable x law draw now ca made in
            let chains =
              issue_serving_cert-chains x law (suc draw) ca names now pair usable issued in
            (
              record {
                active = ground (arith, usable);
                pending = ground arith;
                serving = ground (arith, chains);
              },
              ground arith,
            )
      ]
    ]
