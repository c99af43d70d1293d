-- ===== src/Pki/Authority.antt =====
-- What the authority's certificates say.
use mathlib.Core.List.{Perm}
use ziyad_messenger.Base.{ℕ, ◌*◌, ◌/◌, String, Bool, true, ◌≡◌, refl, sym, ◌∙◌, none, arith}
use ziyad_messenger.Base.State.{Result, ok, err}
use ziyad_messenger.Pki.{
  Name, Template, Certificate, Csr, X509, failed_to, chain, Drawn, root_name, root_template,
  leaf_template, CertificateAuthority, new_certificate_authority,
}

-- A certificate's times are whole seconds.
abbrev pub whole_seconds : ℕ → ℕ
whole_seconds t = t / 1000000000 * 1000000000

-- A template as its certificate is read: the subject's name as it is written, the times in whole seconds.
abbrev pub as_encoded : (Name → Name) → Template → Template
as_encoded written_name t = record t {
  subject = written_name t.subject;
  not_before = whole_seconds t.not_before;
  not_after = whole_seconds t.not_after;
}

-- What crypto/x509 documents of the certificates that it creates from the two templates: parsed, they say what
-- the template said, for the given key. A root that is its own parent names itself as it is written, a leaf its
-- parent as it stands in the parsed parent. A name keeps its common name and, in some order, its organizations;
-- other attributes are written only where `pkix.Name` has a field for them. The signer's public key verifies what
-- it signs.
pub record IsSane {Priv Pub Bytes : Type 0} (x : X509 Priv Pub Bytes)
    (verifies : Pub → Bytes → Bool) : Type 0 where
  pub common_name : (n : Name) → (x.written_name n).common_name ≡ n.common_name
  pub organization : (n : Name) → Perm (x.written_name n).organization n.organization
  pub parsed_root :
      (random : String) (serial first second : ℕ) (pk : Pub) (key : Priv) (bytes : Bytes)
      → x.create_certificate random (root_template serial first second) root_name pk key ≡ ok bytes
      → x.parse_certificate bytes
        ≡ ok (record {
          says = as_encoded x.written_name (root_template serial first second);
          issuer = x.written_name root_name;
          public_key = pk;
          raw = bytes;
        })
  pub parsed_leaf :
      (random : String) (serial : ℕ) (subject : Name) (first second duration : ℕ) (parent : Name)
      (pk : Pub) (key : Priv) (bytes : Bytes)
      → x.create_certificate random
          (leaf_template serial subject first second duration)
          parent
          pk
          key
        ≡ ok bytes
      → x.parse_certificate bytes
        ≡ ok (record {
          says = as_encoded x.written_name (leaf_template serial subject first second duration);
          issuer = parent;
          public_key = pk;
          raw = bytes;
        })
  pub signed :
      (random : String) (t : Template) (parent : Name) (pk : Pub) (key : Priv) (bytes : Bytes)
      → x.create_certificate random t parent pk key ≡ ok bytes
      → verifies (x.public key) bytes ≡ true

chain-eq-ok :
    {A B : Type 0} (r : Result String A) (f : A → Result String B) {b : B}
    → chain r f ≡ ok b
    → (a : A) × (r ≡ ok a) × (f a ≡ ok b)
chain-eq-ok (ok a) f h = (a, refl, h)
chain-eq-ok (err e) f h = cc h

failed_to-eq-ok :
    {A : Type 0} (what : String) (r : Result String A) {a : A} → failed_to what r ≡ ok a → r ≡ ok a
failed_to-eq-ok what (ok a) h = h
failed_to-eq-ok what (err e) h = cc h

step :
    {A B : Type 0} (what : String) (r : Result String A) (f : A → Result String B) {b : B}
    → chain (failed_to what r) f ≡ ok b
    → (a : A) × (r ≡ ok a) × (f a ≡ ok b)
step what r f h =
    let (a, e, k) = chain-eq-ok (failed_to what r) f h in (a, failed_to-eq-ok what r e, k)

pub ok-inj : {A : Type 0} {a b : A} → ◌≡◌ {A = Result String A} (ok a) (ok b) → a ≡ b
ok-inj h = ground arith

module _ {Priv Pub Bytes : Type 0} (x : X509 Priv Pub Bytes) (verifies : Pub → Bytes → Bool) where
  -- A root: it issued itself for its own key, verifies under it, and may sign certificates and nothing else.
  pub record IsRoot (o : Drawn Priv) (ca : CertificateAuthority Priv Pub Bytes) : Type 0 where
    pub serial : ℕ
    pub drawn_serial : o.serial ≡ ok serial
    pub drawn_key : o.key ≡ ok ca.root_key
    pub says : ca.root_cert.says ≡ as_encoded x.written_name (root_template serial o.first o.second)
    pub own_issuer : ca.root_cert.issuer ≡ ca.root_cert.says.subject
    pub own_key : ca.root_cert.public_key ≡ x.public ca.root_key
    pub own_signature : verifies ca.root_cert.public_key ca.root_cert.raw ≡ true

  root :
      (o : Drawn Priv) (ca : CertificateAuthority Priv Pub Bytes) (key : Priv) (serial : ℕ)
      (bytes : Bytes) (cert : Certificate Pub Bytes)
      → o.key ≡ ok key
      → o.serial ≡ ok serial
      → (let t = root_template serial o.first o.second in
          x.create_certificate o.random t t.subject (x.public key) key ≡ ok bytes)
      → cert ≡ record {
        says = as_encoded x.written_name (root_template serial o.first o.second);
        issuer = x.written_name root_name;
        public_key = x.public key;
        raw = bytes;
      }
      → record { root_key = key; root_cert = cert } ≡ ca
      → verifies (x.public key) bytes ≡ true
      → IsRoot o ca
  unfolding root_template
  root o ca key serial bytes cert drawn numbered created said made signed =
      rw (← made, said)
        (record {
          serial = serial;
          drawn_serial = numbered;
          drawn_key = drawn;
          says = refl;
          own_issuer = refl;
          own_key = refl;
          own_signature = signed;
        })

  -- An authority that is set up is a self-signed root on the key that was drawn: named and valid for
  -- the ten years that its template says.
  pub new_certificate_authority-IsRoot :
      (o : Drawn Priv) (ca : CertificateAuthority Priv Pub Bytes)
      → IsSane x verifies
      → new_certificate_authority x o ≡ ok ca
      → IsRoot o ca
  unfolding new_certificate_authority root_template
  new_certificate_authority-IsRoot o ca sane h =
      let (key, drawn, h₁) = step "failed to generate private key: " o.key _ h in
      let (serial, numbered, h₂) = step "failed to generate serial number: " o.serial _ h₁ in
      let t = root_template serial o.first o.second in
      let create = x.create_certificate o.random t t.subject (x.public key) key in
      let (bytes, created, h₃) = step "failed to create root certificate: " create _ h₂ in
      let (cert, parsed, h₄) =
        step "failed to parse generated certificate: " (x.parse_certificate bytes) _ h₃ in
      root o ca key serial bytes cert drawn numbered created
        (ok-inj (
          sym parsed
          ∙ sane.parsed_root o.random serial o.first o.second (x.public key) key bytes created))
        (ok-inj h₄) (sane.signed o.random t t.subject (x.public key) key bytes created)

  -- A certificate that an authority gives out: the request's own signature holds; the certificate carries
  -- the request's key and, as the package writes it, its subject, with the same common name and the same
  -- organizations, comes from the root and verifies under it, is for servers and clients,
  -- is no authority, names no host, and is valid from the first reading of the clock to the given time
  -- after the second.
  pub record IsIssued (ca : CertificateAuthority Priv Pub Bytes) (o : Drawn Priv)
      (csr_bytes : Bytes) (duration : ℕ) (bytes : Bytes) : Type 0 where
    pub csr : Csr Pub
    pub requested : x.parse_certificate_request csr_bytes ≡ ok csr
    pub own_signature : x.check_signature csr_bytes ≡ none
    pub serial : ℕ
    pub drawn_serial : o.serial ≡ ok serial
    pub parsed :
        x.parse_certificate bytes
        ≡ ok (record {
          says =
              as_encoded x.written_name
                (leaf_template serial csr.subject o.first o.second duration);
          issuer = ca.root_cert.says.subject;
          public_key = csr.public_key;
          raw = bytes;
        })
    pub common_name : (x.written_name csr.subject).common_name ≡ csr.subject.common_name
    pub organization : Perm (x.written_name csr.subject).organization csr.subject.organization
    pub signature : verifies (x.public ca.root_key) bytes ≡ true
