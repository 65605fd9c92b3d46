-- ===== src/WebhookCerts/Ensure/Persistence.antt =====
-- What ensureMaterial of internal/webhookcerts/manager.go returns, and the retries around it.
use dash0_operator.Base.{
  ℕ, zero, suc, ◌+◌, ◌≤◌, ◌≡◌, ◌≢◌, ◌⊎◌, inl, inr, true, some, ok, err, arith, Result-cases,
}
use dash0_operator.WebhookCerts.X509.{X509}
use dash0_operator.WebhookCerts.X509.Laws.{IsLawful}
use dash0_operator.WebhookCerts.Material.{Material, Maintained, maintain}
use dash0_operator.WebhookCerts.Material.Serving.{Covers, maintain-Covers}
use dash0_operator.WebhookCerts.SecretData.{data_equal, to_secret_data}
use dash0_operator.WebhookCerts.Api.{Secret, Attempt, Pass, nil_dereference, Manager}
use dash0_operator.WebhookCerts.Ensure.{
  Ensured, initial_material, maintain_input, write_secret, remember, persist, ensure_material,
  is_conflict, ensure_with_retries,
}

abbrev pub IsStored : X509 → Attempt → Secret → Material → Type 0
IsStored x a secret m =
    (data_equal (to_secret_data x m) secret.entries ≡ true)
    ⊎ (a.update (to_secret_data x m) ≡ ok tt)

module _ (x : X509) where
  persist-IsStored :
      (a : Attempt) (secret : Secret) (m : Material) (e : Ensured)
      → persist x a secret m ≡ ok e
      → (e.material ≡ m)
        × IsStored x a secret e.material
        × (e.remembered ≡ remember secret (to_secret_data x e.material))
  unfolding persist write_secret
  persist-IsStored a secret m e h = (ground arith, ground arith, ground arith)

  record Ensuring (s : Manager) (a : Attempt) (e : Ensured) : Type 0 where
    secret : Secret
    read : a.read ≡ ok secret
    current : Material
    initial : initial_material x s a secret ≡ ok current
    maintained : Maintained
    maintenance : maintain x (a.draw + 2) current (maintain_input s a) ≡ ok maintained
    persisted : persist x a secret maintained.material ≡ ok e

  ensure_material-Ensuring :
      (s : Manager) (a : Attempt) (e : Ensured) → ensure_material x s a ≡ ok e → Ensuring s a e
  unfolding ensure_material
  ensure_material-Ensuring s a e h = elim (Result-cases a.read) [
    | inr (f, failed) ↦ absurd (ground arith)
    | inl (secret, read) ↦ elim (Result-cases (initial_material x s a secret)) [
      | inr (f, failed) ↦ absurd (ground arith)
      | inl (current, initial) ↦
          elim (Result-cases (maintain x (a.draw + 2) current (maintain_input s a))) [
            | inr (f, failed) ↦ absurd (ground arith)
            | inl (maintained, maintenance) ↦ record {
              secret = secret;
              read = read;
              current = current;
              initial = initial;
              maintained = maintained;
              maintenance = maintenance;
              persisted = unfold persist in ground arith;
            }
          ]
    ]
  ]

-- Material that ensureMaterial returns is either what the secret that it read already holds, or has
-- been written to it; and it is what the manager remembers for that secret.
pub ensure_material-IsStored :
    (x : X509) (s : Manager) (a : Attempt) (e : Ensured)
    → ensure_material x s a ≡ ok e
    → (secret : Secret) × (a.read ≡ ok secret)
      × ((data_equal (to_secret_data x e.material) secret.entries ≡ true)
          ⊎ (a.update (to_secret_data x e.material) ≡ ok tt))
      × (e.remembered ≡ some (record { uid = secret.uid; entries = to_secret_data x e.material }))
ensure_material-IsStored x s a e h =
    let r = ensure_material-Ensuring x s a e h in
    let (same, is_stored, known) =
      persist-IsStored x a r.secret r.maintained.material e r.persisted in
    (r.secret, r.read, is_stored, known)

pub ensure_material-Covers :
    (x : X509) (law : IsLawful x) (s : Manager) (a : Attempt) (e : Ensured)
    → ensure_material x s a ≡ ok e
    → Covers x e.material s.dns_names
ensure_material-Covers x law s a e h =
    let r = ensure_material-Ensuring x s a e h in
    let (same, is_stored, known) =
      persist-IsStored x a r.secret r.maintained.material e r.persisted in
    rw same
      (maintain-Covers x law (a.draw + 2) r.current (maintain_input s a) r.maintained r.maintenance)

module _ (x : X509) where
  pub ensure_with_retries-ok :
      (left attempt : ℕ) (s : Manager) (p : Pass) (e : Ensured)
      → ensure_with_retries x left attempt s p ≡ ok e
      → (n : ℕ) × (n ≤ attempt + left) × (ensure_material x s (p.attempts n) ≡ ok e)
  unfolding ensure_with_retries
  ensure_with_retries-ok zero attempt s p e h = (attempt, omega arith, h)
  ensure_with_retries-ok (suc left) attempt s p e h =
      elim (Result-cases (ensure_material x s (p.attempts attempt))) [
        | inl (f, now) ↦ (attempt, omega arith, ground arith)
        | inr (f, now) ↦
            let (n, le, later) =
              ensure_with_retries-ok left (suc attempt) s p e (ground (arith, now)) in
            (n, omega (arith, le), later)
      ]

module _ (x : X509) where
  ensure_material-ne-nil : (s : Manager) (a : Attempt) → ensure_material x s a ≢ err nil_dereference
  unfolding ensure_material persist write_secret
  ensure_material-ne-nil s a h = ground arith

  pub ensure_with_retries-ne-nil :
      (left attempt : ℕ) (s : Manager) (p : Pass)
      → ensure_with_retries x left attempt s p ≢ err nil_dereference
  unfolding ensure_with_retries is_conflict
  ensure_with_retries-ne-nil zero attempt s p h = ensure_material-ne-nil s (p.attempts attempt) h
  ensure_with_retries-ne-nil (suc left) attempt s p h = ground (
    arith,
    ensure_material-ne-nil s (p.attempts attempt),
    ensure_with_retries-ne-nil left (suc attempt) s p,
  )
