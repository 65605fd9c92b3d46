-- ===== src/WebhookCerts/Certificates/Pem.antt =====
-- Reading back what has been encoded: certificates and key pairs.
use dash0_operator.Base.{
  ℕ, zero, suc, ◌<◌, ◌≡◌, refl, sym, ap, inl, inr, some, List, [], ◌∷◌, ◌++◌, ◌∙◌, ok, arith,
  length, All, Option-cases,
}
use mathlib.Core.List.{append-nil}
use dash0_operator.Base.Bytes.{Bytes, bytes_eq_self}
use dash0_operator.WebhookCerts.X509.{Certificate, Key, Template, Parent, PemBlock, X509}
use dash0_operator.WebhookCerts.X509.Laws.{IsLawful, DecodesDer, DecodesPem}
use dash0_operator.WebhookCerts.Certificates.Issuing.{create_key_pair-IsCreated}
use dash0_operator.WebhookCerts.Certificates.{
  KeyPair, pem_type_certificate, pem_type_private_key, encode_certificates, parse_certificates_from,
  parse_certificates, block_certificates, parse_private_key, parse_key_pair, create_key_pair,
}

-- A certificate that x509.ParseCertificate accepts and returns.
abbrev pub IsParsed : X509 → Certificate → Type 0
IsParsed x c = x.parse_certificate c ≡ some c

-- A key pair in the form in which createKeyPair makes it.
pub record IsEncoded (x : X509) (pair : KeyPair) : Type 0 where
  pub parsed : IsParsed x pair.cert
  pub cert_encoded :
      pair.cert_pem ≡ x.pem_encode (record { kind = pem_type_certificate; bytes = pair.cert })
  pub der : Bytes
  pub key_encoded :
      pair.key_pem ≡ x.pem_encode (record { kind = pem_type_private_key; bytes = der })
  pub key_parsed : x.parse_pkcs8 der ≡ some (some pair.key)
  pub key_public : x.key_public pair.key ≡ some (x.public_key pair.cert)

module _ (x : X509) (law : DecodesPem x) where
  -- Any two amounts of fuel above the length of the data give the same certificates, where a decoded
  -- block shortens the data.
  pub parse_certificates_from-fuel :
      (n k : ℕ) (bytes : Bytes)
      → length bytes < n
      → length bytes < k
      → parse_certificates_from x n bytes ≡ parse_certificates_from x k bytes
  unfolding parse_certificates_from
  parse_certificates_from-fuel zero k bytes h l = absurd (omega arith)
  parse_certificates_from-fuel (suc n) zero bytes h l = absurd (omega arith)
  parse_certificates_from-fuel (suc n) (suc k) bytes h l =
      elim (Option-cases (x.pem_decode bytes)) [
        | inl e ↦ rw (e, parse_certificates_from)
        | inr ((block, rest), e) ↦
            let shorter = law.decode_shorter bytes block rest e in
            rw (e, parse_certificates_from)
              (ap (λ certs. block_certificates x block ++ certs)
                (parse_certificates_from-fuel n k rest (omega arith) (omega arith)))
      ]

  parse_certificates_from-encode :
      (n : ℕ) (certs : List Certificate)
      → All (IsParsed x) certs
      → length (encode_certificates x certs) < n
      → parse_certificates_from x n (encode_certificates x certs) ≡ certs
  unfolding parse_certificates_from encode_certificates block_certificates
  parse_certificates_from-encode zero certs h l = absurd (omega arith)
  parse_certificates_from-encode (suc n) [] h l = rw (law.decode_nil, parse_certificates_from)
  parse_certificates_from-encode (suc n) (c ∷ certs) h l =
      let block : PemBlock = record { kind = pem_type_certificate; bytes = c } in
      let rest = encode_certificates x certs in
      let e = law.decode_encode block rest (inl refl) in
      let shorter = law.decode_shorter (x.pem_encode block ++ rest) block rest e in
      ground (arith, e, h.0, parse_certificates_from-encode n certs h.1 (omega arith))

  -- Certificates that x509.ParseCertificate accepts are read back from their PEM encoding, in order,
  -- where PEM blocks decode to what has been encoded.
  pub parse_certificates-encode_certificates :
      (certs : List Certificate)
      → All (IsParsed x) certs
      → parse_certificates x (encode_certificates x certs) ≡ certs
  unfolding parse_certificates
  parse_certificates-encode_certificates certs h =
      parse_certificates_from-encode (suc (length (encode_certificates x certs))) certs h
        (omega arith)

  encode_one :
      (c : Certificate)
      → encode_certificates x (c ∷ [])
        ≡ x.pem_encode (record { kind = pem_type_certificate; bytes = c })
  unfolding encode_certificates
  encode_one c = append-nil _

  parse_private_key-encode :
      (pair : KeyPair) → IsEncoded x pair → parse_private_key x pair.key_pem ≡ ok pair.key
  unfolding parse_private_key
  parse_private_key-encode pair h =
      let block : PemBlock = record { kind = pem_type_private_key; bytes = h.der } in
      let e = law.decode_encode block [] (inr refl) in
      let same : x.pem_encode block ++ [] ≡ pair.key_pem = append-nil _ ∙ sym h.key_encoded in
      ground (arith, e, same, h.key_parsed)

  pub parse_key_pair-encode :
      (pair : KeyPair) → IsEncoded x pair → parse_key_pair x pair.cert_pem pair.key_pem ≡ ok pair
  unfolding parse_key_pair
  parse_key_pair-encode pair h =
      let certs = parse_certificates-encode_certificates (pair.cert ∷ []) (h.parsed, tt) in
      let same : encode_certificates x (pair.cert ∷ []) ≡ pair.cert_pem =
        encode_one pair.cert ∙ sym h.cert_encoded in
      let read : parse_certificates x pair.cert_pem ≡ pair.cert ∷ [] = rw same at certs in
      ground (
        arith,
        read,
        same,
        parse_private_key-encode pair h,
        h.key_public,
        bytes_eq_self (x.public_key pair.cert),
      )

  create_key_pair-IsEncoded :
      (lawful : IsLawful x) (decodes : DecodesDer x) (draw : ℕ) (t : Template) (parent : Parent)
      (key signer : Key) (pair : KeyPair)
      → create_key_pair x draw t parent key signer ≡ ok pair
      → IsEncoded x pair
  unfolding create_key_pair
  create_key_pair-IsEncoded lawful decodes draw t parent key signer pair h =
      let (made, same_key) = create_key_pair-IsCreated x draw t parent key signer pair h in
      let public =
        lawful.created_key draw t parent made.public signer made.der pair.cert made.created
          made.parsed in
      let raw : pair.cert ≡ made.der = decodes.raw made.der pair.cert made.parsed in
      elim (Option-cases (x.marshal_key key)) [
        | inl e ↦ absurd (ground (arith, made.has_public, same_key, made.created, made.parsed))
        | inr (der, e) ↦ record {
          parsed = rw (← raw) at made.parsed;
          cert_encoded = ground (arith, made.has_public, same_key, made.created, made.parsed, raw);
          der = der;
          key_encoded = ground (arith, made.has_public, same_key, made.created, made.parsed);
          key_parsed = decodes.parse_marshal pair.key der (cc (same_key, e));
          key_public = cc (made.has_public, public);
        }
      ]

  -- A key pair that is created, a CA or a serving certificate, is read back as it is from the PEM data
  -- of its certificate and of its key, where what has been encoded is decoded again.
  pub parse_key_pair-create_key_pair :
      (lawful : IsLawful x) (decodes : DecodesDer x) (draw : ℕ) (t : Template) (parent : Parent)
      (key signer : Key) (pair : KeyPair)
      → create_key_pair x draw t parent key signer ≡ ok pair
      → parse_key_pair x pair.cert_pem pair.key_pem ≡ ok pair
  parse_key_pair-create_key_pair lawful decodes draw t parent key signer pair h =
      parse_key_pair-encode pair
        (create_key_pair-IsEncoded lawful decodes draw t parent key signer pair h)
