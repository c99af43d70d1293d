-- ===== src/Pki/Disk/Saved.antt =====
-- What `SaveToDisk` and a run of the program leave in the files.
use ziyad_messenger.Base.{
  ℕ, String, Bool, true, false, ◌≡◌, refl, ap, ◌∙◌, Option, none, some, ◌==◌, arith, if◌then◌else◌,
  eq_refl,
}
use ziyad_messenger.Base.Assoc.{lookup, insert, lookup-insert}
use ziyad_messenger.Base.State.{Result, ok, err}
use ziyad_messenger.Base.State.Laws.{and_then-eq-ok}
use ziyad_messenger.Pki.{X509, Drawn, CertificateAuthority, new_certificate_authority}
use ziyad_messenger.Pki.Authority.{IsSane, IsRoot, new_certificate_authority-IsRoot}
use ziyad_messenger.Pki.Disk.{
  File, Faults, Files, mode_666, mode_600, mode_of, open_to_write, put_bytes, lift, save_to_disk,
  cert_path, key_path, exit_code, save_root, main,
}

module _ {Priv Pub Bytes : Type 0} (x : X509 Priv Pub Bytes) where
  -- Both files hold the authority, a new key file is for its owner alone, and no other file was touched.
  pub record IsSaved (ca : CertificateAuthority Priv Pub Bytes) (d d' : Files Bytes) : Type 0 where
    pub priv_bytes : Bytes
    pub marshalled : x.marshal_ec_private_key ca.root_key ≡ ok priv_bytes
    pub cert_file :
        lookup cert_path d'
        ≡ some (record {
          content = x.pem_encode "CERTIFICATE" ca.root_cert.raw;
          mode = mode_of cert_path mode_666 d;
        })
    pub key_file :
        lookup key_path d'
        ≡ some (record {
          content = x.pem_encode "EC PRIVATE KEY" priv_bytes;
          mode = mode_of key_path mode_600 d;
        })
    pub others :
        (path : String)
        → (cert_path == path) ≡ false
        → (key_path == path) ≡ false
        → lookup path d' ≡ lookup path d

  open_to_write-eq-ok :
      (what : String) (o : Option String) (path : String) (mode : ℕ) (d d' : Files Bytes)
      → open_to_write x.no_bytes what o path mode d ≡ (ok tt, d')
      → d' ≡ insert path (record { content = x.no_bytes; mode = mode_of path mode d }) d
  open_to_write-eq-ok what none path mode d d' h = ground arith
  open_to_write-eq-ok what (some e) path mode d d' h = cc h

  put_bytes-eq-ok :
      (what : String) (o : Option (String × Bytes)) (path : String) (mode : ℕ) (bytes : Bytes)
      (d d' : Files Bytes)
      → put_bytes what o path mode bytes d ≡ (ok tt, d')
      → d' ≡ insert path (record { content = bytes; mode = mode_of path mode d }) d
  put_bytes-eq-ok what none path mode bytes d d' h = ground arith
  put_bytes-eq-ok what (some (e, part)) path mode bytes d d' h = cc h

  lift-eq-ok :
      {A : Type 0} (what : String) (r : Result String A) (d d' : Files Bytes) {a : A}
      → lift what r d ≡ (ok a, d')
      → (r ≡ ok a) × (d' ≡ d)
  lift-eq-ok what (ok b) d d' h = (ground arith, ground arith)
  lift-eq-ok what (err e) d d' h = cc h

  -- A file that is opened and written: its content and mode, and the rest.
  replaced :
      (path : String) (mode : ℕ) (bytes : Bytes) (d d₁ d₂ : Files Bytes)
      → d₁ ≡ insert path (record { content = x.no_bytes; mode = mode_of path mode d }) d
      → d₂ ≡ insert path (record { content = bytes; mode = mode_of path mode d₁ }) d₁
      → (p : String)
      → lookup p d₂ ≡ (
          if path == p
          then some (record { content = bytes; mode = mode_of path mode d })
          else lookup p d)
  replaced path mode bytes d d₁ d₂ e e₂ p =
      let f : File Bytes = record { content = x.no_bytes; mode = mode_of path mode d } in
      let there : lookup path d₁ ≡ some f =
        ap (lookup path) e ∙ lookup-insert path path f d ∙ rw (eq_refl path) refl in
      let kept : mode_of path mode d₁ ≡ mode_of path mode d = rw (there, mode_of) refl in
      let g : File Bytes = record { content = bytes; mode = mode_of path mode d₁ } in
      ap (lookup p) e₂
      ∙ lookup-insert path p g d₁
      ∙ rw (kept, e, lookup-insert path p f d) (twice (path == p) _ _ _)
    where
      twice :
          (b : Bool) (u v w : Option (File Bytes))
          → (if b then u else (if b then v else w)) ≡ (if b then u else w)
      twice true u v w = refl
      twice false u v w = refl

  both :
      (ca : CertificateAuthority Priv Pub Bytes) (der : Bytes) (d d₂ d' : Files Bytes)
      → x.marshal_ec_private_key ca.root_key ≡ ok der
      → ((p : String)
          → lookup p d₂ ≡ (
              if cert_path == p
              then some (record {
                content = x.pem_encode "CERTIFICATE" ca.root_cert.raw;
                mode = mode_of cert_path mode_666 d;
              })
              else lookup p d))
      → ((p : String)
          → lookup p d' ≡ (
              if key_path == p
              then some (record {
                content = x.pem_encode "EC PRIVATE KEY" der;
                mode = mode_of key_path mode_600 d₂;
              })
              else lookup p d₂))
      → IsSaved ca d d'
  both ca der d d₂ d' marshalled first second = record {
    priv_bytes = der;
    marshalled = marshalled;
    cert_file = second cert_path ∙ first cert_path;
    key_file = second key_path ∙ rw (first key_path, mode_of) refl;
    others = λ p c k. second p ∙ rw k (first p ∙ rw c refl);
  }

  save_to_disk-IsSaved :
      (ca : CertificateAuthority Priv Pub Bytes) (faults : Faults Bytes) (d d' : Files Bytes)
      → save_to_disk x ca cert_path key_path faults d ≡ (ok tt, d')
      → IsSaved ca d d'
  unfolding save_to_disk
  save_to_disk-IsSaved ca faults d d' h =
      let cert = x.pem_encode "CERTIFICATE" ca.root_cert.raw in
      let (_, d₁, h₁, k₁) =
        and_then-eq-ok
          (open_to_write x.no_bytes "failed to open cert.pem for writing: " faults.create_cert
            cert_path mode_666 d)
          _ h in
      let (_, d₂, h₂, k₂) =
        and_then-eq-ok
          (put_bytes "failed to write data to cert.pem: " faults.write_cert cert_path mode_666 cert
            d₁)
          _ k₁ in
      let (_, d₃, h₃, k₃) =
        and_then-eq-ok
          (open_to_write x.no_bytes "failed to open key.pem for writing: " faults.open_key key_path
            mode_600 d₂)
          _ k₂ in
      let (der, d₄, h₄, k₄) =
        and_then-eq-ok
          (lift "unable to marshal private key: " (x.marshal_ec_private_key ca.root_key) d₃) _ k₃ in
      let (marshalled, same) =
        lift-eq-ok "unable to marshal private key: " (x.marshal_ec_private_key ca.root_key) d₃ d₄
          h₄ in
      let first =
        replaced cert_path mode_666 cert d d₁ d₂
          (open_to_write-eq-ok _ faults.create_cert cert_path mode_666 d d₁ h₁)
          (put_bytes-eq-ok _ faults.write_cert cert_path mode_666 cert d₁ d₂ h₂) in
      let second =
        replaced key_path mode_600 (x.pem_encode "EC PRIVATE KEY" der) d₂ d₃ d'
          (open_to_write-eq-ok _ faults.open_key key_path mode_600 d₂ d₃ h₃)
          (rw (← same) (
            put_bytes-eq-ok _ faults.write_key key_path mode_600 (x.pem_encode "EC PRIVATE KEY" der)
              d₄ d' k₄)) in
      both ca der d d₂ d' marshalled first second

  exit_code-eq-0 :
      (r : Result String (Unit {0}) × Files Bytes) (d' : Files Bytes)
      → exit_code r ≡ (0, d')
      → r ≡ (ok tt, d')
  exit_code-eq-0 (ok a, d) d' h = ground arith
  exit_code-eq-0 (err e, d) d' h = cc h

  -- A run of the program that ends with 0 has made a self-signed root on the key that it drew, and holds
  -- it and its key in the two files; a key file that was not there before is for its owner alone, one
  -- that was keeps its mode, and no other file is touched.
  pub main-IsSaved :
      (verifies : Pub → Bytes → Bool) (o : Drawn Priv) (mkdir : Option String)
      (faults : Faults Bytes) (d d' : Files Bytes)
      → IsSane x verifies
      → main x o mkdir faults d ≡ (0, d')
      → (ca : CertificateAuthority Priv Pub Bytes) × IsRoot x verifies o ca × IsSaved ca d d'
  unfolding main
  main-IsSaved verifies o mkdir faults d d' sane h = go (new_certificate_authority x o) mkdir refl h
    where
      go :
          (r : Result String (CertificateAuthority Priv Pub Bytes)) (mkdir : Option String)
          → new_certificate_authority x o ≡ r
          → save_root x r mkdir faults d ≡ (0, d')
          → (ca : CertificateAuthority Priv Pub Bytes) × IsRoot x verifies o ca × IsSaved ca d d'
      go (err e) mkdir made k = cc k
      go (ok ca) (some e) made k = cc k
      go (ok ca) none made k = (
        ca,
        new_certificate_authority-IsRoot x verifies o ca sane made,
        save_to_disk-IsSaved ca faults d d' (exit_code-eq-0 _ d' k),
      )
