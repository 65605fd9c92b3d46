-- ===== src/WebhookCerts/Material/Serving.antt =====
-- The DNS names of the serving certificate, for ensureServingCert of internal/webhookcerts/state.go.
use dash0_operator.Base.{
  ℕ, suc, ◌≡◌, refl, inl, inr, true, not, Option, none, some, List, [], ◌∷◌, ◌++◌, String, ok,
  arith, Bool-cases, keep, contains, All, length, leb,
}
use dash0_operator.Base.Members.{In, In-append, In-keep, contains_iff, keep-missing, All-of_In}
use dash0_operator.WebhookCerts.X509.{X509}
use dash0_operator.WebhookCerts.X509.Laws.{IsLawful}
use dash0_operator.WebhookCerts.Certificates.{KeyPair, missing_dns_names}
use dash0_operator.WebhookCerts.Certificates.Chains.{issue_serving_cert-dns_names}
use dash0_operator.WebhookCerts.Material.{
  Material, Served, Change, MaintainInput, Maintained, issue_with, ensure_serving_cert_of,
  ensure_serving_cert, is_renewal_due, maintain, cleaned, issued_serving_cert, renewed_serving_cert,
  reissued_serving_cert,
}
use dash0_operator.WebhookCerts.Material.Steps.{maintain-Steps, issue_with-ok}

-- The material has a serving certificate for all the names.
abbrev pub Covers : X509 → Material → List String → Type 0
Covers x m names =
    (pair : KeyPair) × (m.serving ≡ some pair) × (missing_dns_names x pair.cert names ≡ [])

All-self : (names : List String) → All (λ n. In n names) names
All-self names = All-of_In (λ n. In n names) names (λ n i. i)

-- What is missing from `old` is there once it has been appended.
All-append_missing :
    (old names : List String)
    → All (λ n. In n (old ++ keep (λ n. not (contains old n)) names)) names
All-append_missing old names = All-of_In _ names (λ n i. ground (
  arith,
  In-append n old (keep (λ n. not (contains old n)) names),
  In-keep n (λ n. not (contains old n)) names,
  contains_iff old n,
))

leb-length : {A : Type 0} (xs : List A) → leb (length xs) 0 ≡ true → xs ≡ []
leb-length [] h = refl
leb-length (x ∷ xs) h = absurd (ground arith)

module _ (x : X509) (law : IsLawful x) where
  issue_with-Covers :
      (draw : ℕ) (m : Material) (issued names : List String) (now : ℕ) (change : Change)
      (r : Served)
      → All (λ n. In n issued) names
      → issue_with x draw m issued now change ≡ ok r
      → Covers x r.material names
  unfolding missing_dns_names
  issue_with-Covers draw m issued names now change r there h =
      let (pair, made, same) = issue_with-ok x draw m issued now change r h in
      let e = issue_serving_cert-dns_names x law draw m.active_ca issued now pair made in
      (pair, cc same, rw e ((keep-missing issued names).1 there))

  ensure_serving_cert_of-Covers :
      (draw : ℕ) (m : Material) (serving : Option KeyPair) (names : List String) (now : ℕ)
      (r : Served)
      → m.serving ≡ serving
      → ensure_serving_cert_of x draw m serving names now ≡ ok r
      → Covers x r.material names
  unfolding ensure_serving_cert_of
  ensure_serving_cert_of-Covers draw m none names now r e h =
      issue_with-Covers draw m names names now issued_serving_cert r (All-self names)
        (unfold issue_with in h)
  ensure_serving_cert_of-Covers draw m (some pair) names now r e h =
      let missing = missing_dns_names x pair.cert names in
      elim (Bool-cases (leb (length missing) 0)) [
        | inr some_missing ↦
            issue_with-Covers draw m (x.dns_names pair.cert ++ missing) names now
              (reissued_serving_cert missing) r
              (unfold missing_dns_names in All-append_missing (x.dns_names pair.cert) names)
              (rw some_missing at h)
        | inl none_missing ↦ elim (Bool-cases (is_renewal_due x m pair now)) [
          | inl due ↦
              issue_with-Covers draw m names names now renewed_serving_cert r (All-self names)
                (rw (none_missing, due) at h)
          | inr early ↦
              (pair, cc (rw (none_missing, early) at h, e), leb-length missing none_missing)
        ]
      ]

-- With the laws of X509, a successful maintenance ends with a serving certificate that lacks none of the DNS names.
pub maintain-Covers :
    (x : X509) (law : IsLawful x) (draw : ℕ) (m : Material) (input : MaintainInput) (s : Maintained)
    → maintain x draw m input ≡ ok s
    → (pair : KeyPair) × (s.material.serving ≡ some pair)
      × (missing_dns_names x pair.cert input.dns_names ≡ [])
unfolding ensure_serving_cert
maintain-Covers x law draw m input s h =
    let steps = maintain-Steps x draw m input s h in
    let m' = (cleaned x input steps.started).material in
    let (pair, served, covered) =
      ensure_serving_cert_of-Covers x law (suc draw) m' m'.serving input.dns_names input.now
        steps.served refl steps.serve in
    (pair, cc (steps.outcome, served), covered)
