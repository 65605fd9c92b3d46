-- ===== src/WebhookCerts/Certificates/Issuing.antt =====
-- What a created key pair is: the successful run of createKeyPair and its callers, inverted.
use dash0_operator.Base.{ℕ, ◌≡◌, inl, inr, some, List, [], ◌∷◌, String, ok, arith, Option-cases}
use dash0_operator.Base.Bytes.{Bytes}
use dash0_operator.WebhookCerts.X509.{Key, Template, Parent, self, issuer, X509}
use dash0_operator.WebhookCerts.Certificates.{
  KeyPair, create_key_pair, ca_template, generate_ca, serving_template, issue_serving_cert,
}

module _ (x : X509) where
  -- `pair` has been created from the template with the parent and its signer.
  pub record IsCreated (draw : ℕ) (t : Template) (parent : Parent) (signer : Key) (pair : KeyPair)
      : Type 0 where
    pub public : Bytes
    pub has_public : x.key_public pair.key ≡ some public
    pub der : Bytes
    pub created : x.create_certificate draw t parent public signer ≡ some der
    pub parsed : x.parse_certificate der ≡ some pair.cert

  pub create_key_pair-IsCreated :
      (draw : ℕ) (t : Template) (parent : Parent) (key signer : Key) (pair : KeyPair)
      → create_key_pair x draw t parent key signer ≡ ok pair
      → IsCreated draw t parent signer pair × (pair.key ≡ key)
  unfolding create_key_pair
  create_key_pair-IsCreated draw t parent key signer pair h =
      elim (Option-cases (x.key_public key)) [
        | inl e ↦ absurd (ground arith)
        | inr (public, e) ↦ elim (Option-cases (x.create_certificate draw t parent public signer)) [
          | inl f ↦ absurd (ground arith)
          | inr (der, f) ↦ (
            record {
              public = public;
              has_public = ground arith;
              der = der;
              created = f;
              parsed = ground arith;
            },
            ground arith,
          )
        ]
      ]

  pub generate_ca-IsCreated :
      (draw now : ℕ) (pair : KeyPair)
      → generate_ca x draw now ≡ ok pair
      → (serial : ℕ) × (key : Key) × IsCreated draw (ca_template x serial now) self key pair
  unfolding generate_ca
  generate_ca-IsCreated draw now pair h = elim (Option-cases (x.generate_key draw)) [
    | inl e ↦ absurd (ground arith)
    | inr (key, e) ↦ elim (Option-cases (x.random_serial draw)) [
      | inl f ↦ absurd (ground arith)
      | inr (serial, f) ↦ (
        serial,
        key,
        (create_key_pair-IsCreated draw (ca_template x serial now) self key key pair
            (ground arith)).0,
      )
    ]
  ]

  pub issue_serving_cert-IsCreated :
      (draw : ℕ) (ca : KeyPair) (names : List String) (now : ℕ) (pair : KeyPair)
      → issue_serving_cert x draw ca names now ≡ ok pair
      → (serial : ℕ) × (name : String) × IsCreated draw
          (serving_template x serial ca name names now)
          (issuer ca.cert)
          ca.key
          pair
  unfolding issue_serving_cert
  issue_serving_cert-IsCreated draw ca [] now pair h = cc
  issue_serving_cert-IsCreated draw ca (name ∷ names) now pair h =
      elim (Option-cases (x.generate_key draw)) [
        | inl e ↦ absurd (ground arith)
        | inr (key, e) ↦ elim (Option-cases (x.random_serial draw)) [
          | inl f ↦ absurd (ground arith)
          | inr (serial, f) ↦ (
            serial,
            name,
            (create_key_pair-IsCreated draw (serving_template x serial ca name (name ∷ names) now)
                (issuer ca.cert) key ca.key pair (ground arith)).0,
          )
        ]
      ]
