-- ===== src/Pki/Tests.antt =====
-- The authority with plain stand-ins for the packages: a key is a number and its own public key, bytes show what
-- they encode.
use mathlib.Core.List
use ziyad_messenger.Base.{ℕ, String, Bool, false, refl, List, [], ◌∷◌, none, arith, eqb}
use ziyad_messenger.Base.Assoc.{lookup, insert}
use ziyad_messenger.Base.State.{Result, ok, err}
use ziyad_messenger.Pki.{
  Name, Template, Certificate, X509, Drawn, root_template, leaf_template, root_name,
  CertificateAuthority, new_certificate_authority,
}
use ziyad_messenger.Pki.Authority.{as_encoded, IsSane, IsRoot, ok-inj}
use ziyad_messenger.Pki.Disk.{File, Faults, save_to_disk, main}
use ziyad_messenger.Pki.Disk.Saved.{IsSaved, main-IsSaved}

data Blob : Type 0 where
  nothing : Blob
  certificate : Template → Name → ℕ → ℕ → Blob
  request : Name → ℕ → List String → Blob
  private_key : ℕ → Blob
  pem : String → Blob → Blob

abbrev parse : Blob → Result String (Certificate ℕ Blob)
parse (certificate t parent pk key) =
    ok (record { says = t; issuer = parent; public_key = pk; raw = certificate t parent pk key })
parse _ = err "not a certificate"

-- A name without the attributes that have no field.
abbrev known_fields : Name → Name
known_fields n = record n { others = [] }

abbrev toy : X509 ℕ ℕ Blob
toy = record {
  public = λ key. key;
  create_certificate =
      λ random t parent pk key. ok (certificate (as_encoded known_fields t) parent pk key);
  parse_certificate = parse;
  parse_certificate_request = λ b. elim b [
    | request subject pk hosts ↦
        ok (record { subject = subject; public_key = pk; dns_names = hosts })
    | _ ↦ err "not a request"
  ];
  check_signature = λ b. none;
  marshal_ec_private_key = λ key. ok (private_key key);
  pem_encode = pem;
  no_bytes = nothing;
  written_name = known_fields;
}

abbrev verifies : ℕ → Blob → Bool
verifies pk (certificate t parent owner key) = eqb pk key
verifies pk _ = false

toy-IsSane : IsSane toy verifies
toy-IsSane = record {
  common_name = λ n. refl;
  organization = λ n. List.Perm.refl n.organization;
  parsed_root = λ random serial first second pk key bytes h. rw (← ok-inj h) refl;
  parsed_leaf =
      λ random serial subject first second duration parent pk key bytes h. rw (← ok-inj h) refl;
  signed = λ random t parent pk key bytes h. rw (← ok-inj h) (ground arith);
}

abbrev drawn : Drawn ℕ
drawn = record { key = ok 7; serial = ok 12; random = "r"; first = 5000000123; second = 5000000456 }

abbrev root : CertificateAuthority ℕ ℕ Blob
root = record {
  root_key = 7;
  root_cert = record {
    says = as_encoded known_fields (root_template 12 5000000123 5000000456);
    issuer = root_name;
    public_key = 7;
    raw =
        certificate (as_encoded known_fields (root_template 12 5000000123 5000000456)) root_name 7
          7;
  };
}

abbrev host : Name
host = record { organization = []; common_name = "chat.lan"; others = ("1.2.3", "lab") ∷ [] }

abbrev asked : Blob
asked = request host 9 ("chat.lan" ∷ [])

abbrev given : Blob
given =
    certificate (as_encoded known_fields (leaf_template 12 host 5000000123 5000000456 1000000000))
      root_name 9 7

abbrev no_faults : Faults Blob
no_faults = record { create_cert = none; write_cert = none; open_key = none; write_key = none }

-- An old key file that all may read.
abbrev before : List (String × File Blob)
before = ("certs/root_ca.key", record { content = nothing; mode = 420 }) ∷ []

abbrev after : List (String × File Blob)
after = (main toy drawn none no_faults before).1

main-IsSaved_example :
    (ca : CertificateAuthority ℕ ℕ Blob) × IsRoot toy verifies drawn ca
    × IsSaved toy ca before after
unfolding main new_certificate_authority save_to_disk lookup insert
main-IsSaved_example = main-IsSaved toy verifies drawn none no_faults before after toy-IsSane refl
