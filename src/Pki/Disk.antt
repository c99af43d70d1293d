-- ===== src/Pki/Disk.antt =====
-- `SaveToDisk` and `main` of backend/services/pki/ca.go, on the files by their paths.
pub mod Saved
use Prim.Native.String
use mathlib.Core.Path.{subst}
use ziyad_messenger.Base.{
  ℕ, String, Bool, true, false, ◌≡◌, ◌≢◌, refl, sym, ap, ◌∙◌, List, Option, none, some, ◌==◌, arith,
  Bool-cases, inl, inr, if◌then◌else◌, eq_iff, eq_refl,
}
use ziyad_messenger.Base.Assoc.{lookup, insert, lookup-insert}
use ziyad_messenger.Base.State.{Result, ok, err, and_then, ◌>>=◌, ◌>>◌, return, throw}
use ziyad_messenger.Base.State.Laws.{and_then-eq-ok}
use ziyad_messenger.Pki.{Certificate, X509, Drawn, CertificateAuthority, new_certificate_authority}
use ziyad_messenger.Pki.Authority.{IsSane, IsRoot, new_certificate_authority-IsRoot}

pub record File (Bytes : Type 0) : Type 0 where
  pub content : Bytes
  pub mode : ℕ

-- The mode of a new file, before the process's mask.
abbrev pub mode_666 : ℕ
mode_666 = 438

abbrev pub mode_600 : ℕ
mode_600 = 384

-- What the file system answers to the calls in their order, `none` for success. A write that fails leaves the
-- given bytes.
pub record Faults (Bytes : Type 0) : Type 0 where
  pub create_cert : Option String
  pub write_cert : Option (String × Bytes)
  pub open_key : Option String
  pub write_key : Option (String × Bytes)

abbrev pub Files : Type 0 → Type 0
Files Bytes = List (String × File Bytes)

abbrev pub M : Type 0 → Type 0 → Type 0
M Bytes A = Files Bytes → Result String A × Files Bytes

abbrev pub cert_path : String
cert_path = "certs/root_ca.crt"

abbrev pub key_path : String
key_path = "certs/root_ca.key"

module _ {Bytes : Type 0} where
  -- A file that is there keeps its mode.
  abbrev pub mode_of : String → ℕ → Files Bytes → ℕ
  mode_of path new d = elim (lookup path d) [ none ↦ new | some f ↦ f.mode ]

  -- Open for writing: made with the mode, or cut to nothing.
  abbrev pub open_to_write : Bytes → String → Option String → String → ℕ → M Bytes (Unit {0})
  open_to_write nothing what (some e) path mode d = (err (String.◌++◌ what e), d)
  open_to_write nothing what none path mode d =
      (ok tt, insert path (record { content = nothing; mode = mode_of path mode d }) d)

  abbrev pub put_bytes : String → Option (String × Bytes) → String → ℕ → Bytes → M Bytes (Unit {0})
  put_bytes what (some (e, part)) path mode bytes d = (
    err (String.◌++◌ what e),
    insert path (record { content = part; mode = mode_of path mode d }) d,
  )
  put_bytes what none path mode bytes d =
      (ok tt, insert path (record { content = bytes; mode = mode_of path mode d }) d)

  abbrev pub lift : {A : Type 0} → String → Result String A → M Bytes A
  lift what (ok a) d = (ok a, d)
  lift what (err e) d = (err (String.◌++◌ what e), d)

  abbrev pub exit_code : Result String (Unit {0}) × Files Bytes → ℕ × Files Bytes
  exit_code (ok a, d) = (0, d)
  exit_code (err e, d) = (1, d)

module _ {Priv Pub Bytes : Type 0} (x : X509 Priv Pub Bytes) where
  unfoldable pub save_to_disk :
      CertificateAuthority Priv Pub Bytes → String → String → Faults Bytes → M Bytes (Unit {0})
  save_to_disk ca cert_path key_path faults = do
    open_to_write x.no_bytes "failed to open cert.pem for writing: " faults.create_cert cert_path
        mode_666
    put_bytes "failed to write data to cert.pem: " faults.write_cert cert_path mode_666
        (x.pem_encode "CERTIFICATE" ca.root_cert.raw)
    open_to_write x.no_bytes "failed to open key.pem for writing: " faults.open_key key_path
        mode_600
    priv_bytes ← lift "unable to marshal private key: " (x.marshal_ec_private_key ca.root_key)
    put_bytes "failed to write data to key.pem: " faults.write_key key_path mode_600
        (x.pem_encode "EC PRIVATE KEY" priv_bytes)

  abbrev pub save_root :
      Result String (CertificateAuthority Priv Pub Bytes)
      → Option String
      → Faults Bytes
      → Files Bytes
      → ℕ × Files Bytes
  save_root (err e) mkdir faults d = (1, d)
  save_root (ok ca) (some e) faults d = (1, d)
  save_root (ok ca) none faults d = exit_code (save_to_disk ca cert_path key_path faults d)

  -- The exit exit_code, and the files. `mkdir` is the error of `MkdirAll`.
  unfoldable pub main : Drawn Priv → Option String → Faults Bytes → Files Bytes → ℕ × Files Bytes
  main o mkdir faults d = save_root (new_certificate_authority x o) mkdir faults d
