-- ===== src/WebhookCerts/Material/Steps.antt =====
-- The steps of a successful `maintain`, and the fields that each of them leaves alone.
use dash0_operator.Base.{ℕ, suc, ◌≡◌, inl, inr, some, List, String, ok, arith, Result-cases}
use dash0_operator.WebhookCerts.X509.{X509}
use dash0_operator.WebhookCerts.Certificates.{KeyPair, issue_serving_cert}
use dash0_operator.WebhookCerts.Material.{
  Material, MaintainInput, Change, Maintained, Served, start_rotation, issue_with,
  ensure_serving_cert, cleaned, finished, maintain,
}

module _ (x : X509) where
  pub record Steps (draw : ℕ) (m : Material) (input : MaintainInput) (s : Maintained) : Type 0 where
    pub started : Maintained
    pub start : start_rotation x draw m input ≡ ok started
    pub served : Served
    pub serve :
        ensure_serving_cert x
          (suc draw)
          (cleaned x input started).material
          input.dns_names
          input.now
        ≡ ok served
    pub outcome : s ≡ finished (cleaned x input started).result served

  pub maintain-Steps :
      (draw : ℕ) (m : Material) (input : MaintainInput) (s : Maintained)
      → maintain x draw m input ≡ ok s
      → Steps draw m input s
  unfolding maintain
  maintain-Steps draw m input s h = elim (Result-cases (start_rotation x draw m input)) [
    | inr (e, failed) ↦ absurd (ground arith)
    | inl (t, started) ↦
        elim (Result-cases (
          ensure_serving_cert x (suc draw) (cleaned x input t).material input.dns_names
            input.now)) [
              | inr (e, failed) ↦ absurd (ground arith)
              | inl (r, served) ↦ record {
                started = t;
                start = started;
                served = r;
                serve = served;
                outcome = ground arith;
              }
            ]
  ]

  -- Issuing a serving certificate changes that field alone.
  pub issue_with-ok :
      (draw : ℕ) (m : Material) (names : List String) (now : ℕ) (change : Change) (r : Served)
      → issue_with x draw m names now change ≡ ok r
      → (pair : KeyPair) × (issue_serving_cert x draw m.active_ca names now ≡ ok pair)
        × (r.material ≡ record m { serving = some pair })
  unfolding issue_with
  issue_with-ok draw m names now change r h =
      elim (Result-cases (issue_serving_cert x draw m.active_ca names now)) [
        | inl (pair, issued) ↦ (pair, issued, ground arith)
        | inr (e, failed) ↦ absurd (ground arith)
      ]

  -- Whatever happens to the serving certificate, the rest of the material stays.
  pub ensure_serving_cert-keeps :
      (draw : ℕ) (m : Material) (names : List String) (now : ℕ) (r : Served)
      → ensure_serving_cert x draw m names now ≡ ok r
      → r.material ≡ record m { serving = r.material.serving }
  unfolding ensure_serving_cert issue_with
  ensure_serving_cert-keeps draw m names now r h = ground arith
