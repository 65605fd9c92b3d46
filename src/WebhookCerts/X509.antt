-- ===== src/WebhookCerts/X509.antt =====
-- What internal/webhookcerts takes from crypto/x509, crypto/ecdsa, encoding/pem and time, as one
-- record of operations, and the data that it passes to them.
--
-- A certificate is its DER encoding (the Raw field of x509.Certificate); the parsed fields are
-- functions of it. A private key is its PKCS #8 encoding. Time counts nanoseconds from the zero
-- time of Go. Randomness is drawn by number: `generate_key n` is the key of the draw n.
pub mod Laws
use dash0_operator.Base.{ℕ, ◌*◌, ◌/◌, ◌≤◌, String, ◌≡◌, Bool, true, false, Option, none, some, List}
use dash0_operator.Base.Bytes.{Bytes}

abbrev pub Certificate : Type 0
Certificate = Bytes

abbrev pub Key : Type 0
Key = Bytes

abbrev pub second : ℕ
second = 1000000000

abbrev pub hour : ℕ
hour = 3600 * second

-- What the encodings of times (ASN.1 and RFC 3339) keep of a time.
abbrev pub to_seconds : ℕ → ℕ
to_seconds t = t / second * second

-- The bits of x509.KeyUsage.
abbrev pub key_usage_digital_signature : ℕ
key_usage_digital_signature = 1

abbrev pub key_usage_cert_sign : ℕ
key_usage_cert_sign = 32

abbrev pub key_usage_crl_sign : ℕ
key_usage_crl_sign = 64

-- x509.ExtKeyUsageAny and x509.ExtKeyUsageServerAuth
abbrev pub ext_key_usage_any : ℕ
ext_key_usage_any = 0

abbrev pub ext_key_usage_server_auth : ℕ
ext_key_usage_server_auth = 1

-- The fields of an x509.Certificate that is passed to x509.CreateCertificate.
pub record Template : Type 0 where
  pub serial_number : ℕ
  pub common_name : String
  pub organization : List String
  pub dns_names : List String
  pub not_before : ℕ
  pub not_after : ℕ
  pub key_usage : ℕ
  pub ext_key_usage : List ℕ
  pub basic_constraints_valid : Bool
  pub is_ca : Bool

-- The parent of a certificate to create: the template itself, or a CA.
pub data Parent : Type 0 where
  self : Parent
  issuer : Certificate → Parent

pub record PemBlock : Type 0 where
  pub kind : String
  pub bytes : Bytes

pub record X509 : Type 0 where
  -- the fields of a parsed certificate
  pub not_before : Certificate → ℕ
  pub not_after : Certificate → ℕ
  pub key_usage : Certificate → ℕ
  pub ext_key_usage : Certificate → List ℕ
  pub basic_constraints_valid : Certificate → Bool
  pub is_ca : Certificate → Bool
  -- whether it has restrictions that no field of a Template sets: name constraints, extended key usages
  -- that Go does not know, critical extensions that it does not handle
  pub has_other_restrictions : Certificate → Bool
  pub common_name : Certificate → String
  pub organization : Certificate → List String
  pub dns_names : Certificate → List String
  pub public_key : Certificate → Bytes
  -- ecdsa.GenerateKey, rand.Int, x509.CreateCertificate, x509.MarshalPKCS8PrivateKey
  pub generate_key : ℕ → Option Key
  pub random_serial : ℕ → Option ℕ
  pub create_certificate : ℕ → Template → Parent → Bytes → Key → Option Bytes
  pub marshal_key : Key → Option Bytes
  -- key.Public(); none where the key has no Equal method
  pub key_public : Key → Option Bytes
  -- x509.ParseCertificate: the certificate is the DER data
  pub parse_certificate : Bytes → Option Certificate
  -- x509.ParsePKCS8PrivateKey: some none is a key that is no crypto.Signer
  pub parse_pkcs8 : Bytes → Option (Option Key)
  pub parse_ec : Bytes → Option Key
  pub parse_pkcs1 : Bytes → Option Key
  -- pem.EncodeToMemory, and pem.Decode: the block and the rest
  pub pem_encode : PemBlock → Bytes
  pub pem_decode : Bytes → Option (PemBlock × Bytes)
  -- x509.Certificate.Verify for server authentication with one root, at a time
  pub chains : Certificate → Certificate → ℕ → Bool
  -- time.Time.Format(time.RFC3339) in UTC, and time.Parse
  pub format_time : ℕ → Bytes
  pub parse_time : Bytes → Option ℕ
