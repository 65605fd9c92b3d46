-- ===== src/WebhookCerts/Material/Members.antt =====
-- Which certificates the CA bundle holds.
use dash0_operator.Base.{◌≡◌, ◌↔◌, ◌⊎◌, inl, inr, true, List, [], ◌∷◌, ◌++◌, arith, Bool-cases, sym}
use dash0_operator.Base.Bytes.{
  bytes_eq→eq, bytes_eq_self, compare_bytes-eq, compare_bytes_self, compare_bytes_flip,
  compare_bytes_trans,
}
use dash0_operator.Base.Members.{In, IsDistinct, In-append}
use dash0_operator.Base.Sorting.Unique.{IsOrder, In-sort_stable}
use dash0_operator.WebhookCerts.X509.{Certificate, X509}
use dash0_operator.WebhookCerts.Certificates.{append_unique, contains_certificate}
use dash0_operator.WebhookCerts.Material.{
  Material, cert_of, compare_certificates, collected_certs, bundle_certs,
}

pub contains_certificate_iff :
    (certs : List Certificate) (c : Certificate)
    → (contains_certificate certs c ≡ true) ↔ In c certs
contains_certificate_iff [] c = (λ h. cc, λ h. absurd h)
contains_certificate_iff (cert ∷ certs) c =
    ground (arith, contains_certificate_iff certs c, bytes_eq→eq cert c, bytes_eq_self c)

pub In-append_unique :
    (c : Certificate) (certs more : List Certificate)
    → In c (append_unique certs more) ↔ (In c certs ⊎ In c more)
unfolding append_unique
In-append_unique c certs [] = (λ h. inl h, λ h. elim h [ inl i ↦ i | inr e ↦ absurd e ])
In-append_unique c certs (d ∷ more) = elim (Bool-cases (contains_certificate certs d)) [
  | inl known ↦
      rw known
        (ground (arith, In-append_unique c certs more, (contains_certificate_iff certs d).0 known))
  | inr new ↦
      rw new (ground (arith, In-append_unique c (certs ++ d ∷ []) more, In-append c certs (d ∷ [])))
]

concat-IsDistinct :
    (certs : List Certificate) (d : Certificate)
    → IsDistinct certs
    → ¬ (In d certs)
    → IsDistinct (certs ++ d ∷ [])
concat-IsDistinct [] d h n = (λ e. e, tt)
concat-IsDistinct (c ∷ certs) d h n = (
  λ i. elim ((In-append c certs (d ∷ [])).0 i) [
    | inl j ↦ h.0 j
    | inr (inl e) ↦ n (inl (sym e))
    | inr (inr e) ↦ e
  ],
  concat-IsDistinct certs d h.1 (λ i. n (inr i)),
)

append_unique-IsDistinct :
    (certs more : List Certificate) → IsDistinct certs → IsDistinct (append_unique certs more)
unfolding append_unique
append_unique-IsDistinct certs [] h = h
append_unique-IsDistinct certs (d ∷ more) h = elim (Bool-cases (contains_certificate certs d)) [
  | inl known ↦ rw known (append_unique-IsDistinct certs more h)
  | inr new ↦ rw new (
      append_unique-IsDistinct (certs ++ d ∷ []) more
        (concat-IsDistinct certs d h (λ i. cc (new, (contains_certificate_iff certs d).1 i))))
]

-- The parts of the material that the bundle is made of.
abbrev pub IsTrusted : Certificate → Material → Type 0
IsTrusted c m =
    (m.active_ca.cert ≡ c)
    ⊎ In c (cert_of m.pending_ca)
    ⊎ In c m.previous_cas
    ⊎ In c m.retained_chart_cas
    ⊎ In c m.retained_certs

module _ (x : X509) where
  pub compare_certificates-IsOrder : IsOrder (compare_certificates x)
  unfolding compare_certificates
  compare_certificates-IsOrder = record {
    eq_of = λ a b h. ground (arith, compare_bytes-eq a b);
    self = λ a. ground (arith, compare_bytes_self a);
    flip = λ a b h. ground (arith, compare_bytes_flip a b);
    trans = λ a b c h k. ground (arith, compare_bytes_trans a b c);
  }

  pub collected_certs-IsDistinct : (m : Material) → IsDistinct (collected_certs x m)
  unfolding collected_certs
  collected_certs-IsDistinct m = append_unique-IsDistinct _ m.retained_certs (
      append_unique-IsDistinct _ m.retained_chart_cas (
        append_unique-IsDistinct _ m.previous_cas (
          append_unique-IsDistinct _ (cert_of m.pending_ca)
            (append_unique-IsDistinct [] (m.active_ca.cert ∷ []) tt))))

  pub In-collected_certs :
      (c : Certificate) (m : Material) → In c (collected_certs x m) ↔ IsTrusted c m
  unfolding collected_certs
  In-collected_certs c m =
      let active = append_unique [] (m.active_ca.cert ∷ []) in
      let pending = append_unique active (cert_of m.pending_ca) in
      let previous = append_unique pending m.previous_cas in
      let chart = append_unique previous m.retained_chart_cas in
      ground (
        arith,
        In-append_unique c chart m.retained_certs,
        In-append_unique c previous m.retained_chart_cas,
        In-append_unique c pending m.previous_cas,
        In-append_unique c active (cert_of m.pending_ca),
        In-append_unique c [] (m.active_ca.cert ∷ []),
      )

  pub In-bundle_certs : (c : Certificate) (m : Material) → In c (bundle_certs x m) ↔ IsTrusted c m
  unfolding bundle_certs
  In-bundle_certs c m = (
    λ h.
        (In-collected_certs c m).0
          ((In-sort_stable (compare_certificates x) c (collected_certs x m)).0 h),
    λ h.
        (In-sort_stable (compare_certificates x) c (collected_certs x m)).1
          ((In-collected_certs c m).1 h),
  )
