-- ===== src/WebhookCerts/Material/Bundle.antt =====
-- The CA bundle of internal/webhookcerts/state.go as a function of the trusted certificates, and
-- switchToPendingCa.
use dash0_operator.Base.{
  ℕ, ◌≡◌, refl, ap, ◌↔◌, true, Option, none, some, List, [], ◌∷◌, String, ok, arith, is_some,
}
use dash0_operator.Base.Sorting.Unique.{sort_stable_unique}
use dash0_operator.WebhookCerts.X509.{Certificate, X509}
use dash0_operator.WebhookCerts.Certificates.{KeyPair, encode_certificates}
use dash0_operator.WebhookCerts.Material.{
  Material, compare_certificates, collected_certs, bundle_certs, bundle,
}
use dash0_operator.WebhookCerts.Material.Switch.{switch_to, switch_to_pending_ca}
use dash0_operator.WebhookCerts.Material.Members.{
  IsTrusted, compare_certificates-IsOrder, collected_certs-IsDistinct, In-collected_certs,
  In-append_unique,
}

abbrev pub SameTrust : Material → Material → Type 0
SameTrust m n = (c : Certificate) → IsTrusted c m ↔ IsTrusted c n

module _ (x : X509) where
  pub bundle_certs-SameTrust :
      (m n : Material) → SameTrust m n → bundle_certs x m ≡ bundle_certs x n
  unfolding bundle_certs
  bundle_certs-SameTrust m n same_trust =
      sort_stable_unique (compare_certificates x) (compare_certificates-IsOrder x)
        (collected_certs x m) (collected_certs x n) (collected_certs-IsDistinct x m)
        (collected_certs-IsDistinct x n)
        (λ c. (
          λ i. (In-collected_certs x c n).1 ((same_trust c).0 ((In-collected_certs x c m).0 i)),
          λ i. (In-collected_certs x c m).1 ((same_trust c).1 ((In-collected_certs x c n).0 i)),
        ))

  pub bundle-SameTrust : (m n : Material) → SameTrust m n → bundle x m ≡ bundle x n
  unfolding bundle
  bundle-SameTrust m n same_trust =
      ap (encode_certificates x) (bundle_certs-SameTrust m n same_trust)

  switch_to-SameTrust :
      (draw : ℕ) (m : Material) (pending : Option KeyPair) (names : List String) (now : ℕ)
      (m' : Material)
      → m.pending_ca ≡ pending
      → switch_to x draw m pending names now ≡ ok m'
      → SameTrust m' m
  unfolding switch_to
  switch_to-SameTrust draw m none names now m' p h c = cc
  switch_to-SameTrust draw m (some ca) names now m' p h c =
      ground (arith, In-append_unique c m.previous_cas (m.active_ca.cert ∷ []))

-- A successful switch to the pending CA leaves the CA bundle as it is, byte for byte.
pub bundle-switch_to_pending_ca :
    (x : X509) (draw : ℕ) (m : Material) (names : List String) (now : ℕ) (m' : Material)
    → switch_to_pending_ca x draw m names now ≡ ok m'
    → bundle x m' ≡ bundle x m
unfolding switch_to_pending_ca
bundle-switch_to_pending_ca x draw m names now m' h =
    bundle-SameTrust x m' m (switch_to-SameTrust x draw m m.pending_ca names now m' refl h)

-- After a switch there is a serving certificate.
pub switch_to_pending_ca-serving :
    (x : X509) (draw : ℕ) (m : Material) (names : List String) (now : ℕ) (m' : Material)
    → switch_to_pending_ca x draw m names now ≡ ok m'
    → is_some m'.serving ≡ true
unfolding switch_to_pending_ca switch_to
switch_to_pending_ca-serving x draw m names now m' h = ground arith
