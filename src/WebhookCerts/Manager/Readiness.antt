-- ===== src/WebhookCerts/Manager/Readiness.antt =====
-- The readiness latch and the serving certificate of the store across a pass of
-- internal/webhookcerts/manager.go.
use dash0_operator.Base.{
  ℕ, ◌≡◌, ◌≢◌, refl, ◌⊎◌, inl, inr, Bool, true, false, List, [], ◌∷◌, ok, err, arith, any, all,
  Result-cases, Bool-cases, if◌then◌else◌, is_some,
}
use dash0_operator.WebhookCerts.X509.{X509}
use dash0_operator.WebhookCerts.X509.Laws.{IsLawful}
use dash0_operator.WebhookCerts.Certificates.{KeyPair}
use dash0_operator.WebhookCerts.Material.{Material, bundle}
use dash0_operator.WebhookCerts.Material.Switch.{switch_to_pending_ca, evaluate_switch}
use dash0_operator.WebhookCerts.Material.Bundle.{switch_to_pending_ca-serving}
use dash0_operator.WebhookCerts.Api.{
  Pass, PassError, nil_dereference, Manager, Secret, SwitchAnswer,
}
use dash0_operator.WebhookCerts.Ensure.{Ensured, write_secret, ensure_with_retries}
use dash0_operator.WebhookCerts.Ensure.Persistence.{
  ensure_with_retries-ok, ensure_material-Covers, ensure_with_retries-ne-nil,
}
use dash0_operator.WebhookCerts.Targets.{
  TargetOutcome, evaluate_outcomes, is_settled, has_failed, all_injected, inject_all,
  perses_crd_carries, max_conflict_retries,
}
use dash0_operator.WebhookCerts.Manager.{
  After, load, load_into, switches, switch_written, complete_switch, complete_rotation_if_possible,
  finish, notified_of, run_with, run_pass,
}

-- A server that reports readiness has a certificate to serve.
abbrev pub IsServing : Manager → Type 0
IsServing s = s.store.ready ≡ true → is_some s.store.serving ≡ true

-- What every step of a pass keeps: the latch, and a certificate once there is one.
record Keeps (s t : Manager) : Type 0 where
  latch : t.store.ready ≡ s.store.ready
  serving : is_some s.store.serving ≡ true → is_some t.store.serving ≡ true

module _ (x : X509) (usable : KeyPair → Bool) where
  load_into-Keeps :
      (s : Manager) (m : Material)
      → Keeps s (load_into x usable s m).manager
        × ((load_into x usable s m).result ≡ ok tt
            → is_some (load_into x usable s m).manager.store.serving ≡ true)
        × (is_some m.serving ≡ true → (load_into x usable s m).result ≢ err nil_dereference)
  unfolding load_into load
  load_into-Keeps s m = (
    record { latch = ground arith; serving = λ h. ground arith },
    λ h. ground arith,
    λ h e. ground arith,
  )

  switch_written-Keeps :
      (s : Manager) (secret : Secret) (m : Material) (a : SwitchAnswer)
      → Keeps s (switch_written x usable s secret m a).manager
        × (is_some m.serving ≡ true
            → (switch_written x usable s secret m a).result ≢ err nil_dereference)
  unfolding switch_written load_into load write_secret
  switch_written-Keeps s secret m a =
      (record { latch = ground arith; serving = λ h. ground arith }, λ h e. ground arith)

  complete_switch-Keeps :
      (s : Manager) (e : Ensured) (a : SwitchAnswer)
      → Keeps s (complete_switch x usable s e a).manager
        × ((complete_switch x usable s e a).result ≢ err nil_dereference)
  unfolding complete_switch
  complete_switch-Keeps s e a =
      elim (Result-cases (switch_to_pending_ca x a.draw e.material s.dns_names a.now)) [
        | inr (c, failed) ↦
            (record { latch = ground arith; serving = λ h. ground arith }, λ h. ground arith)
        | inl (m, switched) ↦
            let (keeps, panics) = switch_written-Keeps s e.secret m a in
            let there =
              switch_to_pending_ca-serving x a.draw e.material s.dns_names a.now m switched in
            (
              record {
                latch = ground (arith, keeps.latch);
                serving = λ h. ground (arith, keeps.serving h);
              },
              λ h. panics there (ground arith),
            )
      ]

  complete_rotation-Keeps :
      (s : Manager) (e : Ensured) (outcomes : List TargetOutcome) (carries : Bool)
      (a : SwitchAnswer)
      → Keeps s (complete_rotation_if_possible x usable s e outcomes carries a).manager
        × ((complete_rotation_if_possible x usable s e outcomes carries a).result
            ≢ err nil_dereference)
  unfolding complete_rotation_if_possible
  complete_rotation-Keeps s e outcomes carries a =
      let (keeps, panics) = complete_switch-Keeps s e a in
      let decision = evaluate_switch x e.material (all_injected outcomes carries) a.now in
      elim (Bool-cases (switches decision)) [
        | inl go ↦ rw go (keeps, panics)
        | inr stay ↦ rw stay (record { latch = refl; serving = λ h. h }, λ h. cc)
      ]

finish-IsServing :
    (outcomes : List TargetOutcome) (after : After Unit)
    → (after.manager.store.ready ≡ true → (finish outcomes after).manager.store.ready ≡ true)
      × ((finish outcomes after).manager.store.serving ≡ after.manager.store.serving)
      × ((finish outcomes after).result ≡ err nil_dereference → after.result ≡ err nil_dereference)
      × ((finish outcomes after).result ≡ ok tt
          → (after.result ≡ ok tt)
            × (any outcomes has_failed ≡ false)
            × ((finish outcomes after).manager.store.ready
                ≡ (if all outcomes is_settled then true else after.manager.store.ready)))
unfolding finish evaluate_outcomes
finish-IsServing outcomes after = (
  λ h. ground arith,
  ground arith,
  λ h. ground arith,
  λ h. (ground arith, ground arith, ground arith),
)

all-settled :
    (outcomes : List TargetOutcome)
    → any outcomes has_failed ≡ false
    → all outcomes is_settled ≡ true
all-settled [] h = refl
all-settled (o ∷ outcomes) h = ground (arith, all-settled outcomes (ground arith))

notified_of-Keeps : (p : Pass) (bytes : List ℕ) (t : Manager) → Keeps t (notified_of p bytes t)
unfolding notified_of
notified_of-Keeps p bytes t = record { latch = ground arith; serving = λ h. ground arith }

-- What holds of a pass once its material has been ensured.
record Outcome (s : Manager) (m : Material) (after : After Unit) : Type 0 where
  latch : s.store.ready ≡ true → after.manager.store.ready ≡ true
  serving : is_some s.store.serving ≡ true → is_some after.manager.store.serving ≡ true
  served :
      after.manager.store.ready ≡ true
      → s.store.ready ≡ false
      → is_some after.manager.store.serving ≡ true
  quiet : is_some m.serving ≡ true → after.result ≢ err nil_dereference
  done :
      after.result ≡ ok tt
      → (after.manager.store.ready ≡ true) × (is_some after.manager.store.serving ≡ true)

module _ (x : X509) (usable : KeyPair → Bool) (s : Manager) (p : Pass) (e : Ensured) where
  run_with-Outcome : Outcome s e.material (run_with x usable s p e)
  unfolding run_with
  run_with-Outcome =
      let start : Manager = record s { remembered = e.remembered } in
      let loaded = load_into x usable start e.material in
      let (keeps, there, panics) = load_into-Keeps x usable start e.material in
      elim (Result-cases loaded.result) [
        | inr (f, failed) ↦ record {
          latch = λ h. ground (arith, keeps.latch);
          serving = λ h. ground (arith, keeps.serving h);
          served = λ h k. ground (arith, keeps.latch);
          quiet = λ h k. panics h (ground arith);
          done = λ h. ground arith;
        }
        | inl (u, fine) ↦
            let bytes = bundle x e.material in
            let outcomes = inject_all p.targets bytes in
            let carries = perses_crd_carries p.perses_crd bytes in
            let told = notified_of p bytes loaded.manager in
            let tells = notified_of-Keeps p bytes loaded.manager in
            let (keeps', panics') =
              complete_rotation-Keeps x usable told e outcomes carries p.switch in
            let after = complete_rotation_if_possible x usable told e outcomes carries p.switch in
            let (latch, same, quiet, done) = finish-IsServing outcomes after in
            let has = keeps'.serving (tells.serving (there (ground (arith, fine)))) in
            rw (fine, run_with)
              (record {
                latch = λ h. latch (cc (keeps'.latch, tells.latch, keeps.latch, h));
                serving = λ h. rw same has;
                served = λ h k. rw same has;
                quiet = λ h k. panics' (quiet k);
                done = λ h.
                    let (all_fine, none_failed, ready) = done h in
                    (ground (arith, ready, all-settled outcomes none_failed), rw same has);
              })
      ]

module _ (x : X509) (usable : KeyPair → Bool) (s : Manager) (p : Pass) where
  run_pass-cases :
      ((f : PassError) × (ensure_with_retries x max_conflict_retries 0 s p ≡ err f)
        × (run_pass x usable s p ≡ record { manager = s; result = err f }))
      ⊎ ((e : Ensured) × (ensure_with_retries x max_conflict_retries 0 s p ≡ ok e)
          × (run_pass x usable s p ≡ run_with x usable s p e))
  unfolding run_pass
  run_pass-cases = elim (Result-cases (ensure_with_retries x max_conflict_retries 0 s p)) [
    | inl (e, fine) ↦ inr (e, fine, ground (arith, fine))
    | inr (f, failed) ↦ inl (f, failed, ground (arith, failed))
  ]

-- Once set, the readiness latch stays set; and a server that is ready after a pass has a serving
-- certificate, if it had one when it was ready before.
pub run_pass-IsServing :
    (x : X509) (usable : KeyPair → Bool) (s : Manager) (p : Pass)
    → (s.store.ready ≡ true → is_some s.store.serving ≡ true)
    → (s.store.ready ≡ true → (run_pass x usable s p).manager.store.ready ≡ true)
      × ((run_pass x usable s p).manager.store.ready ≡ true
          → is_some (run_pass x usable s p).manager.store.serving ≡ true)
run_pass-IsServing x usable s p h = elim (run_pass-cases x usable s p) [
  | inl (f, failed, same) ↦ rw same (λ r. r, h)
  | inr (e, fine, same) ↦
      let o = run_with-Outcome x usable s p e in
      rw same (
        o.latch,
        λ r. elim (Bool-cases s.store.ready) [
          | inl before ↦ o.serving (h before)
          | inr unset ↦ o.served r unset
        ],
      )
]

-- A pass that succeeds leaves the server ready, with a serving certificate.
pub run_pass-ready :
    (x : X509) (usable : KeyPair → Bool) (s : Manager) (p : Pass)
    → (run_pass x usable s p).result ≡ ok tt
    → ((run_pass x usable s p).manager.store.ready ≡ true)
      × (is_some (run_pass x usable s p).manager.store.serving ≡ true)
run_pass-ready x usable s p h = elim (run_pass-cases x usable s p) [
  | inl (f, failed, same) ↦ absurd (ground (arith, same))
  | inr (e, fine, same) ↦ rw same ((run_with-Outcome x usable s p e).done (rw same at h))
]

-- With the laws of X509, no pass dereferences a missing serving certificate.
pub run_pass-ne-nil_dereference :
    (x : X509) (law : IsLawful x) (usable : KeyPair → Bool) (s : Manager) (p : Pass)
    → (run_pass x usable s p).result ≢ err nil_dereference
run_pass-ne-nil_dereference x law usable s p h = elim (run_pass-cases x usable s p) [
  | inl (f, failed, same) ↦
      ensure_with_retries-ne-nil x max_conflict_retries 0 s p (ground (arith, failed, same, h))
  | inr (e, fine, same) ↦
      let (n, le, ensured) = ensure_with_retries-ok x max_conflict_retries 0 s p e fine in
      let (pair, there, covered) = ensure_material-Covers x law s (p.attempts n) e ensured in
      (run_with-Outcome x usable s p e).quiet (ground (arith, there)) (rw same at h)
]
