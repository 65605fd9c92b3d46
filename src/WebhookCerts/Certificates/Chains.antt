-- ===== src/WebhookCerts/Certificates/Chains.antt =====
-- Serving certificates and the CAs that issue them, for issueServingCert and generateCa of
-- internal/webhookcerts/certificates.go.
use dash0_operator.Base.{ℕ, ◌+◌, ◌≤◌, ◌≡◌, refl, true, some, List, [], ◌∷◌, String, ok, arith}
use dash0_operator.WebhookCerts.X509.{second, to_seconds, X509}
use dash0_operator.WebhookCerts.X509.Laws.{CanIssue, IsLawful}
use dash0_operator.WebhookCerts.Certificates.{
  KeyPair, serving_cert_validity, serving_cert_not_after, generate_ca, issue_serving_cert, latest,
  verify_serving_cert_chain,
}
use dash0_operator.WebhookCerts.Certificates.Issuing.{
  generate_ca-IsCreated, issue_serving_cert-IsCreated,
}

-- A CA with its key that can issue at a time: Certificate.Verify accepts it as a CA. Its start may lie ahead by less than the validity of
-- a serving certificate.
pub record IsUsable (x : X509) (ca : KeyPair) (now : ℕ) : Type 0 where
  pub capable : CanIssue x ca.cert
  pub matches : x.key_public ca.key ≡ some (x.public_key ca.cert)
  pub unexpired : now ≤ x.not_after ca.cert
  pub whole_seconds : x.not_after ca.cert ≡ to_seconds (x.not_after ca.cert)
  pub ordered : x.not_before ca.cert ≤ x.not_after ca.cert
  pub near : x.not_before ca.cert + second ≤ now + serving_cert_validity

module _ (x : X509) (law : IsLawful x) where
  pub generate_ca-IsUsable :
      (draw now : ℕ) (ca : KeyPair) → generate_ca x draw now ≡ ok ca → IsUsable x ca now
  generate_ca-IsUsable draw now ca h =
      let (serial, key, made) = generate_ca-IsCreated x draw now ca h in
      let c =
        law.created_fields draw _ _ made.public _ made.der ca.cert made.created made.parsed refl
          (omega arith) in
      let public =
        law.created_key draw _ _ made.public _ made.der ca.cert made.created made.parsed in
      record {
        capable = record {
          constrained = c.constrained;
          authority = c.authority;
          signs = rw (c.usage) refl;
          serves = rw (c.ext_usage) refl;
          unrestricted = c.unrestricted;
        };
        matches = cc (made.has_public, public);
        unexpired = omega (arith, c.to);
        whole_seconds = omega (arith, c.to);
        ordered = omega (arith, c.to, c.from);
        near = omega (arith, c.from);
      }

  pub issue_serving_cert-dns_names :
      (draw : ℕ) (ca : KeyPair) (names : List String) (now : ℕ) (pair : KeyPair)
      → issue_serving_cert x draw ca names now ≡ ok pair
      → x.dns_names pair.cert ≡ names
  issue_serving_cert-dns_names draw ca names now pair h =
      let (serial, name, made) = issue_serving_cert-IsCreated x draw ca names now pair h in
      (law.created_fields draw _ _ made.public _ made.der pair.cert made.created made.parsed refl
        (omega arith)).names

  latest-bounds :
      (now a b : ℕ)
      → (now ≤ latest now (a ∷ b ∷ []))
        × (a ≤ latest now (a ∷ b ∷ []))
        × (b ≤ latest now (a ∷ b ∷ []))
  unfolding latest
  latest-bounds now a b = ground arith

  latest-le : (now a b c : ℕ) → now ≤ c → a ≤ c → b ≤ c → latest now (a ∷ b ∷ []) ≤ c
  unfolding latest
  latest-le now a b c h k l = ground arith

  pub issue_serving_cert-chains :
      (draw : ℕ) (ca : KeyPair) (names : List String) (now : ℕ) (pair : KeyPair)
      → IsUsable x ca now
      → issue_serving_cert x draw ca names now ≡ ok pair
      → verify_serving_cert_chain x pair.cert ca.cert now ≡ true
  unfolding verify_serving_cert_chain serving_cert_not_after
  issue_serving_cert-chains draw ca names now pair usable h =
      let (serial, name, made) = issue_serving_cert-IsCreated x draw ca names now pair h in
      let c =
        law.created_fields draw _ _ made.public _ made.der pair.cert made.created made.parsed refl
          (omega arith) in
      let from_pair = x.not_before pair.cert in
      let from_ca = x.not_before ca.cert in
      let (b0, b1, b2) = latest-bounds now from_pair from_ca in
      law.created_chains draw _ _ made.public _ made.der pair.cert
        (latest now (from_pair ∷ from_ca ∷ [])) made.created made.parsed refl usable.capable
        usable.matches b1
        (latest-le now from_pair from_ca _ (ground arith) (ground arith) (ground arith)) b2
        (latest-le now from_pair from_ca _ usable.unexpired (ground arith) usable.ordered)
