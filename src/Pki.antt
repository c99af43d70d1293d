-- ===== src/Pki.antt =====
-- backend/services/pki/ca.go: `CertificateAuthority`, `NewCertificateAuthority`, `SaveToDisk`, `SignCSR` and `main`.
-- crypto/ecdsa, crypto/x509 and encoding/pem are parameters: the record `X509`, over the packages' keys and bytes.
-- What they draw, the readings of the clock (nanoseconds) and what the file system answers come from outside.
pub mod Authority
pub mod Disk
mod Tests
use Prim.Native.String
use ziyad_messenger.Base.{
  ℕ, ◌+◌, ◌*◌, String, Bool, true, false, List, [], ◌∷◌, Option, none, some, if◌then◌else◌,
}
use ziyad_messenger.Base.Assoc.{lookup, insert}
use ziyad_messenger.Base.State.{Result, ok, err, and_then, ◌>>=◌, ◌>>◌, return, throw}

-- `pkix.Name`; `others` stands for the attributes that the code does not name, those that a parser met but that
-- have no field of their own included.
pub record Name : Type 0 where
  pub organization : List String
  pub common_name : String
  pub others : List (String × String)

-- The bits of `x509.KeyUsage` that the code sets.
pub record KeyUsage : Type 0 where
  pub digital_signature : Bool
  pub key_encipherment : Bool
  pub cert_sign : Bool
  pub crl_sign : Bool

pub data ExtKeyUsage : Type 0 where
  server_auth client_auth : ExtKeyUsage

-- What a template says: the fields of `x509.Certificate` that the code fills in, and the hosts' names, which it
-- leaves empty.
pub record Template : Type 0 where
  pub serial_number : ℕ
  pub subject : Name
  pub not_before : ℕ
  pub not_after : ℕ
  pub key_usage : KeyUsage
  pub ext_key_usage : List ExtKeyUsage
  pub basic_constraints_valid : Bool
  pub is_ca : Bool
  pub dns_names : List String

-- A certificate that was parsed: what it says, who issued it for which key, and its bytes.
pub record Certificate (Pub Bytes : Type 0) : Type 0 where
  pub says : Template
  pub issuer : Name
  pub public_key : Pub
  pub raw : Bytes

pub record Csr (Pub : Type 0) : Type 0 where
  pub subject : Name
  pub public_key : Pub
  pub dns_names : List String

-- The packages. `create_certificate` takes the random source's bytes, the template, the parent's subject, the
-- subject's key and the signer's; an error is its text. `written_name` is what a name becomes in a certificate.
pub record X509 (Priv Pub Bytes : Type 0) : Type 0 where
  pub public : Priv → Pub
  pub create_certificate : String → Template → Name → Pub → Priv → Result String Bytes
  pub parse_certificate : Bytes → Result String (Certificate Pub Bytes)
  pub parse_certificate_request : Bytes → Result String (Csr Pub)
  pub check_signature : Bytes → Option String
  pub marshal_ec_private_key : Priv → Result String Bytes
  pub pem_encode : String → Bytes → Bytes
  pub written_name : Name → Name
  pub no_bytes : Bytes

abbrev pub failed_to : {A : Type 0} → String → Result String A → Result String A
failed_to what (ok a) = ok a
failed_to what (err e) = err (String.◌++◌ what e)

abbrev pub chain : {A B : Type 0} → Result String A → (A → Result String B) → Result String B
chain (ok a) f = f a
chain (err e) f = err e

abbrev pub check_request : {A : Type 0} → Option String → Result String A → Result String A
check_request none r = r
check_request (some e) r = err (String.◌++◌ "CSR signature check failed: " e)

-- What the random source and the clock give: the source's answer for a key and for a serial number, its bytes
-- for the signature, and the two readings of the clock.
pub record Drawn (Priv : Type 0) : Type 0 where
  pub key : Result String Priv
  pub serial : Result String ℕ
  pub random : String
  pub first : ℕ
  pub second : ℕ

-- 10 * 365 * 24 * time.Hour
abbrev pub ten_years : ℕ
ten_years = 10 * 365 * 24 * 3600000000000

abbrev pub root_name : Name
root_name = record {
  organization = "Secure LAN Chat Corp" ∷ [];
  common_name = "Secure LAN Chat Root CA";
  others = [];
}

unfoldable pub root_template : ℕ → ℕ → ℕ → Template
root_template serial first second = record {
  serial_number = serial;
  subject = root_name;
  not_before = first;
  not_after = second + ten_years;
  key_usage = record {
    digital_signature = false;
    key_encipherment = false;
    cert_sign = true;
    crl_sign = true;
  };
  ext_key_usage = [];
  basic_constraints_valid = true;
  is_ca = true;
  dns_names = [];
}

unfoldable pub leaf_template : ℕ → Name → ℕ → ℕ → ℕ → Template
leaf_template serial subject first second duration = record {
  serial_number = serial;
  subject = subject;
  not_before = first;
  not_after = second + duration;
  key_usage = record {
    digital_signature = true;
    key_encipherment = true;
    cert_sign = false;
    crl_sign = false;
  };
  ext_key_usage = server_auth ∷ client_auth ∷ [];
  basic_constraints_valid = false;
  is_ca = false;
  dns_names = [];
}

pub record CertificateAuthority (Priv Pub Bytes : Type 0) : Type 0 where
  pub root_key : Priv
  pub root_cert : Certificate Pub Bytes

module _ {Priv Pub Bytes : Type 0} (x : X509 Priv Pub Bytes) where
  unfoldable pub new_certificate_authority :
      Drawn Priv → Result String (CertificateAuthority Priv Pub Bytes)
  unfolding root_template
  new_certificate_authority o = chain (failed_to "failed to generate private key: " o.key) λ key.
      chain (failed_to "failed to generate serial number: " o.serial) λ serial.
        let template = root_template serial o.first o.second in
        chain
          (failed_to "failed to create root certificate: "
            (x.create_certificate o.random template template.subject (x.public key) key))
          λ bytes.
            chain (failed_to "failed to parse generated certificate: " (x.parse_certificate bytes))
              λ cert. ok (record { root_key = key; root_cert = cert })

  -- The key of `Drawn` is not drawn here. The duration is not negative.
  unfoldable pub sign_csr :
      CertificateAuthority Priv Pub Bytes → Drawn Priv → Bytes → ℕ → Result String Bytes
  unfolding leaf_template
  sign_csr ca o csr_bytes duration =
      chain (failed_to "failed to parse CSR: " (x.parse_certificate_request csr_bytes)) λ csr.
        check_request (x.check_signature csr_bytes) (
          chain (failed_to "failed to generate serial number: " o.serial) λ serial.
            failed_to "failed to sign certificate: " (
              x.create_certificate o.random
                (leaf_template serial csr.subject o.first o.second duration)
                ca.root_cert.says.subject csr.public_key ca.root_key))
