-- ===== src/WebhookCerts/Tests/Library.antt =====
-- A small concrete X509, for tests: keys are their own public keys, a certificate lists its fields
-- and the key that has signed it, and PEM ends each block with a 0.
use dash0_operator.Base.{
  ℕ, zero, suc, ◌*◌, ◌/◌, ◌≤◌, ◌<◌, String, ◌≡◌, refl, sym, ◌⊎◌, inl, inr, Bool, true, false, ◌&&◌,
  Option, none, some, List, [], ◌∷◌, ◌++◌, map, length, nat_eq, leb, texts_eq, texts_eq_iff, ◌==◌,
  if◌then◌else◌, Bool-cases, Option-cases, arith,
}
use dash0_operator.Base.Bytes.{Bytes}
use dash0_operator.WebhookCerts.X509.{
  Certificate, Key, second, to_seconds, Template, Parent, issuer, PemBlock, X509,
}
use dash0_operator.WebhookCerts.X509.Laws.{
  allows_server_auth, allows_cert_sign, CanIssue, IsLawful, DecodesDer, DecodesPem, DecodesTime,
}

abbrev pub service_names : List String
service_names = "op-webhook.dash0.svc" ∷ "op-webhook.dash0" ∷ []

abbrev pub first : Bytes → ℕ
first [] = 0
first (n ∷ _) = n

abbrev pub nth : ℕ → Bytes → ℕ
nth n [] = 0
nth zero (b ∷ bytes) = b
nth (suc n) (b ∷ bytes) = nth n bytes

abbrev pub take : ℕ → Bytes → Bytes
take zero bytes = []
take (suc n) [] = []
take (suc n) (b ∷ bytes) = b ∷ take n bytes

abbrev pub drop : ℕ → Bytes → Bytes
drop zero bytes = bytes
drop (suc n) [] = []
drop (suc n) (b ∷ bytes) = drop n bytes

take-append : (xs ys : Bytes) → take (length xs) (xs ++ ys) ≡ xs
take-append [] ys = refl
take-append (x ∷ xs) ys = rw (take-append xs ys) refl

drop-append : (xs ys : Bytes) → drop (length xs) (xs ++ ys) ≡ ys
drop-append [] ys = refl
drop-append (x ∷ xs) ys = drop-append xs ys

abbrev pub public_key_of : Certificate → Bytes
public_key_of (a ∷ b ∷ c ∷ d ∷ e ∷ f ∷ g ∷ h ∷ n ∷ rest) = drop n rest
public_key_of _ = []

abbrev pub usages_of : Certificate → List ℕ
usages_of (a ∷ b ∷ c ∷ d ∷ e ∷ f ∷ g ∷ h ∷ n ∷ rest) = take n rest
usages_of _ = []

abbrev pub names_of : Certificate → List String
names_of c = if nat_eq (nth 3 c) 1 then service_names else []

abbrev pub flag : Bool → ℕ
flag b = if b then 1 else 0

abbrev pub fields : ℕ → Template → ℕ → Bytes → Key → Bytes
fields draw t names public signer =
    to_seconds t.not_before
    ∷ to_seconds t.not_after
    ∷ flag t.is_ca
    ∷ names
    ∷ first signer
    ∷ draw
    ∷ t.key_usage
    ∷ flag t.basic_constraints_valid
    ∷ length t.ext_key_usage
    ∷ (t.ext_key_usage ++ public)

unfoldable pub create : ℕ → Template → Parent → Bytes → Key → Option Bytes
create draw t parent public signer =
    if texts_eq t.dns_names service_names
    then some (fields draw t 1 public signer)
    else if texts_eq t.dns_names []
    then some (fields draw t 0 public signer)
    else none

unfoldable pub chain : Certificate → Certificate → ℕ → Bool
chain c ca at =
    nat_eq (nth 4 c) (first (public_key_of ca))
    && nat_eq (nth 2 ca) 1
    && nat_eq (nth 7 ca) 1
    && allows_cert_sign (nth 6 ca)
    && allows_server_auth (usages_of ca)
    && allows_server_auth (usages_of c)
    && leb (nth 0 c) at
    && leb at (nth 1 c)
    && leb (nth 0 ca) at
    && leb at (nth 1 ca)

pub kind_of : ℕ → String
kind_of n = if nat_eq n 0 then "CERTIFICATE" else "PRIVATE KEY"

pub closed : Bytes → Bytes
closed bytes = map suc bytes ++ 0 ∷ []

unfoldable pub encode : PemBlock → Bytes
unfolding closed
encode block = flag (block.kind == "PRIVATE KEY") ∷ closed block.bytes

abbrev more : ℕ → Option (Bytes × Bytes) → Option (Bytes × Bytes)
more n none = none
more n (some (body, rest)) = some (n ∷ body, rest)

pub open_body : Bytes → Option (Bytes × Bytes)
open_body [] = none
open_body (zero ∷ rest) = some ([], rest)
open_body (suc n ∷ rest) = more n (open_body rest)

abbrev block_of : String → Option (Bytes × Bytes) → Option (PemBlock × Bytes)
block_of kind none = none
block_of kind (some (body, rest)) = some (record { kind = kind; bytes = body }, rest)

unfoldable pub decode : Bytes → Option (PemBlock × Bytes)
unfolding kind_of open_body
decode [] = none
decode (n ∷ bytes) = block_of (kind_of n) (open_body bytes)

unfoldable pub time_of : Bytes → Option ℕ
time_of (suc n ∷ []) = some (n * second)
time_of _ = none

abbrev pub library : X509
library = record {
  not_before = λ c. nth 0 c;
  not_after = λ c. nth 1 c;
  key_usage = λ c. nth 6 c;
  ext_key_usage = usages_of;
  basic_constraints_valid = λ c. nat_eq (nth 7 c) 1;
  is_ca = λ c. nat_eq (nth 2 c) 1;
  has_other_restrictions = λ c. false;
  common_name = λ c. "dash0-operator-webhook-ca";
  organization = λ c. "dash0-operator-managed" ∷ [];
  dns_names = names_of;
  public_key = public_key_of;
  generate_key = λ n. some (n ∷ []);
  random_serial = λ n. some n;
  create_certificate = create;
  marshal_key = λ k. some k;
  key_public = λ k. some k;
  parse_certificate = λ b. some b;
  parse_pkcs8 = λ b. some (some b);
  parse_ec = λ b. none;
  parse_pkcs1 = λ b. none;
  pem_encode = encode;
  pem_decode = decode;
  chains = chain;
  format_time = λ t. suc (t / second) ∷ [];
  parse_time = time_of;
}

created_fields :
    (draw : ℕ) (t : Template) (parent : Parent) (public : Bytes) (signer : Key) (der : Bytes)
    → create draw t parent public signer ≡ some der
    → (names : ℕ) × (der ≡ fields draw t names public signer) × (names_of der ≡ t.dns_names)
unfolding create
created_fields draw t parent public signer der h =
    elim (Bool-cases (texts_eq t.dns_names service_names)) [
      | inl e ↦
          let same : fields draw t 1 public signer ≡ der = cc (rw e at h) in
          (1, sym same, rw (← same) (sym ((texts_eq_iff t.dns_names service_names).0 e)))
      | inr e ↦ elim (Bool-cases (texts_eq t.dns_names [])) [
        | inl b ↦
            let same : fields draw t 0 public signer ≡ der = cc (rw (e, b) at h) in
            (0, sym same, rw (← same) (sym ((texts_eq_iff t.dns_names []).0 b)))
        | inr b ↦ absurd (cc (rw (e, b) at h))
      ]
    ]

flag_read : (b : Bool) → nat_eq (flag b) 1 ≡ b
flag_read true = refl
flag_read false = refl

chain_holds :
    (c ca : Certificate) (at : ℕ)
    → nth 4 c ≡ first (public_key_of ca)
    → CanIssue library ca
    → allows_server_auth (usages_of c) ≡ true
    → nth 0 c ≤ at
    → at ≤ nth 1 c
    → nth 0 ca ≤ at
    → at ≤ nth 1 ca
    → chain c ca at ≡ true
unfolding chain
chain_holds c ca at signed able serves a b d e =
    ground (arith, able.authority, able.constrained, able.signs, able.serves)

pub library-IsLawful : IsLawful library
library-IsLawful = record {
  created_fields = λ draw t parent public signer der c h p constrained bits.
      let (names, made, named) = created_fields draw t parent public signer der h in
      let same : der ≡ c = cc p in
      let shape : c ≡ fields draw t names public signer = cc (same, made) in
      record {
        names = rw same at named;
        authority = rw shape (flag_read t.is_ca);
        constrained = rw shape (flag_read t.basic_constraints_valid);
        usage = rw shape refl;
        ext_usage = rw shape (take-append t.ext_key_usage public);
        unrestricted = refl;
        from = rw shape refl;
        to = rw shape refl;
      };
  created_key = λ draw t parent public signer der c h p.
      let (names, made, named) = created_fields draw t parent public signer der h in
      let same : der ≡ c = cc p in
      let shape : c ≡ fields draw t names public signer = cc (same, made) in
      rw shape (drop-append t.ext_key_usage public);
  created_chains = λ draw t ca public signer der c at h p serves able key a b d e.
      let (names, made, named) = created_fields draw t (issuer ca) public signer der h in
      let same : der ≡ c = cc p in
      let shape : c ≡ fields draw t names public signer = cc (same, made) in
      let signed : signer ≡ public_key_of ca = cc key in
      chain_holds c ca at (rw (shape, signed) refl) able
        (rw (shape, take-append t.ext_key_usage public) serves) a b d e;
}

open_closed : (bytes rest : Bytes) → open_body (closed bytes ++ rest) ≡ some (bytes, rest)
unfolding open_body closed
open_closed [] rest = refl
open_closed (b ∷ bytes) rest = rw (open_closed bytes rest) refl

open_shorter :
    (bytes body rest : Bytes) → open_body bytes ≡ some (body, rest) → length rest < length bytes
unfolding open_body
open_shorter [] body rest h = absurd (cc h)
open_shorter (zero ∷ bytes) body rest h =
    let same : bytes ≡ rest = cc h in rw (← same) (omega arith)
open_shorter (suc n ∷ bytes) body rest h = elim (Option-cases (open_body bytes)) [
  | inl e ↦ absurd (cc (rw e at h))
  | inr ((b, r), e) ↦
      let same : r ≡ rest = cc (rw e at h) in
      let ih = open_shorter bytes b r e in rw (← same) (omega arith)
]

kind_read :
    (s : String)
    → (s ≡ "CERTIFICATE") ⊎ (s ≡ "PRIVATE KEY")
    → kind_of (flag (s == "PRIVATE KEY")) ≡ s
unfolding kind_of
kind_read s (inl h) = rw h refl
kind_read s (inr h) = rw h refl

decode-encode :
    (block : PemBlock) (rest : Bytes)
    → (block.kind ≡ "CERTIFICATE") ⊎ (block.kind ≡ "PRIVATE KEY")
    → decode (encode block ++ rest) ≡ some (block, rest)
unfolding decode encode
decode-encode block rest h = rw (open_closed block.bytes rest, kind_read block.kind h) refl

decode_shorter :
    (bytes : Bytes) (block : PemBlock) (rest : Bytes)
    → decode bytes ≡ some (block, rest)
    → length rest < length bytes
unfolding decode
decode_shorter [] block rest h = absurd (cc h)
decode_shorter (n ∷ bytes) block rest h = elim (Option-cases (open_body bytes)) [
  | inl e ↦ absurd (cc (rw e at h))
  | inr ((b, r), e) ↦
      let same : r ≡ rest = cc (rw e at h) in
      let shorter = open_shorter bytes b r e in rw (← same) (omega arith)
]

pub library-DecodesPem : DecodesPem library
unfolding decode
library-DecodesPem = record {
  decode_encode = decode-encode;
  decode_nil = refl;
  decode_shorter = decode_shorter;
}

pub library-DecodesDer : DecodesDer library
library-DecodesDer = record { raw = λ der c h. cc h; parse_marshal = λ key der h. cc h }

pub library-DecodesTime : DecodesTime library
unfolding time_of
library-DecodesTime = record { parse_format = λ t. refl; format-ne-nil = λ t h. cc h }
