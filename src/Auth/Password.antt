-- ===== src/Auth/Password.antt =====
-- backend/services/auth/crypto.go: `HashPassword` and `VerifyPassword`.
-- Argon2, bcrypt, base64 and `fmt.Sscanf` are a record of operations. The random salt is an argument,
-- `none` for an error.
use Prim.Native.Char.{Char, code}
use Prim.Native.String
use mathlib.Core.Path.{subst}
use text.Mathlib.TextLemmas.{cons-append, nil-append}
use ziyad_messenger.Base.{
  ℕ, String, Bool, true, false, ◌&&◌, ◌||◌, ◌≡◌, refl, ap, ◌∙◌, List, [], ◌∷◌, Option, none, some,
  arith, eqb, if◌then◌else◌, length,
}
use ziyad_messenger.Base.Text.{contains_char}

pub record PasswordConfig : Type 0 where
  pub time : ℕ
  pub memory : ℕ
  pub threads : ℕ
  pub key_len : ℕ

abbrev pub default_config : PasswordConfig
default_config = record { time = 1; memory = 65536; threads = 4; key_len = 32 }

-- `id_key password salt time memory threads key_len`; `version` is argon2.Version in decimal;
-- `scan_config` reads "m=%d,t=%d,p=%d".
pub record Crypto : Type 0 where
  pub id_key : String → List ℕ → ℕ → ℕ → ℕ → ℕ → List ℕ
  pub version : String
  pub encode : List ℕ → String
  pub decode : String → Option (List ℕ)
  pub scan_config : String → Option (ℕ × ℕ × ℕ)
  pub matches_bcrypt : String → String → Bool

-- `strings.Split` at one character.
abbrev grow : Char → List String → List String
grow c [] = String.◌∷◌ c String.[] ∷ []
grow c (w ∷ ws) = String.◌∷◌ c w ∷ ws

unfoldable pub split : ℕ → String → List String
split sep String.[] = String.[] ∷ []
split sep (String.◌∷◌ c s) =
    let rest = split sep s in if eqb (code c) sep then String.[] ∷ rest else grow c rest

-- `strings.HasPrefix`
unfoldable pub has_prefix : String → String → Bool
has_prefix String.[] s = true
has_prefix (String.◌∷◌ c p) String.[] = false
has_prefix (String.◌∷◌ c p) (String.◌∷◌ d s) = eqb (code c) (code d) && has_prefix p s

abbrev dollar : Char
dollar = "$"

abbrev config_text : String
config_text = "m=65536,t=1,p=4"

-- "$argon2id$v=%d$m=%d,t=%d,p=%d$%s$%s", with the default configuration.
abbrev encoded : String → String → String → String
encoded version salt hash = String.◌∷◌ dollar (
    String.◌++◌ "argon2id" (
      String.◌∷◌ dollar (
        String.◌++◌ (String.◌++◌ "v=" version) (
          String.◌∷◌ dollar (
            String.◌++◌ config_text
              (String.◌∷◌ dollar (String.◌++◌ salt (String.◌∷◌ dollar hash))))))))

unfoldable pub hash_password : Crypto → String → Option (List ℕ) → Option String
hash_password k password none = none
hash_password k password (some salt) =
    let c = default_config in
    some (
      encoded k.version (k.encode salt)
        (k.encode (k.id_key password salt c.time c.memory c.threads c.key_len)))

abbrev same_bytes : List ℕ → List ℕ → Bool
same_bytes [] [] = true
same_bytes (x ∷ xs) (y ∷ ys) = eqb x y && same_bytes xs ys
same_bytes _ _ = false

abbrev compared :
    Crypto → String → Option (ℕ × ℕ × ℕ) → Option (List ℕ) → Option (List ℕ) → Option Bool
compared k password (some (memory, time, threads)) (some salt) (some hash) =
    some (same_bytes hash (k.id_key password salt time memory threads (length hash)))
compared k password _ _ _ = none

abbrev of_parts : Crypto → String → List String → Option Bool
of_parts k password (a ∷ b ∷ c ∷ config ∷ salt ∷ hash ∷ []) =
    compared k password (k.scan_config config) (k.decode salt) (k.decode hash)
of_parts k password _ = none

-- `none` for an error.
unfoldable pub verify_password : Crypto → String → String → Option Bool
verify_password k password encoded_hash =
    if has_prefix "$2a$" encoded_hash
      || has_prefix "$2b$" encoded_hash
      || has_prefix "$2y$" encoded_hash
    then some (k.matches_bcrypt encoded_hash password)
    else of_parts k password (split b'$' encoded_hash)

-- What is documented of the packages: base64 is decoded again and has no `$`, the scan reads the
-- default configuration's text, and Argon2 gives as many bytes as it is asked for.
pub record IsSane (k : Crypto) : Type 0 where
  pub decode-encode : (b : List ℕ) → k.decode (k.encode b) ≡ some b
  pub no_dollar : (b : List ℕ) → contains_char b'$' (k.encode b) ≡ false
  pub plain_version : contains_char b'$' (String.◌++◌ "v=" k.version) ≡ false
  pub scanned : k.scan_config config_text ≡ some (65536, 1, 4)
  pub sized : (p : String) (s : List ℕ) → length (k.id_key p s 1 65536 4 32) ≡ 32

split-append :
    (a rest : String)
    → contains_char b'$' a ≡ false
    → split b'$' (String.◌++◌ a (String.◌∷◌ dollar rest)) ≡ a ∷ split b'$' rest
unfolding split contains_char
split-append String.[] rest h = ap (split b'$') (nil-append (String.◌∷◌ dollar rest))
split-append (String.◌∷◌ c a) rest h =
    ap (split b'$') (cons-append c a (String.◌∷◌ dollar rest)) ∙ ground (arith, split-append a rest)

split-none : (a : String) → contains_char b'$' a ≡ false → split b'$' a ≡ a ∷ []
unfolding split contains_char
split-none String.[] h = refl
split-none (String.◌∷◌ c a) h = ground (arith, split-none a)

abbrev letter_a : Char
letter_a = "a"

-- A hash of Argon2 is not taken for one of bcrypt.
prefix-argon :
    (p x : String)
    → has_prefix p (String.◌∷◌ dollar (String.◌++◌ "argon2id" x))
      ≡ has_prefix p (String.◌∷◌ dollar (String.◌∷◌ letter_a (String.◌++◌ "rgon2id" x)))
prefix-argon p x = ap (λ t. has_prefix p (String.◌∷◌ dollar t)) (cons-append letter_a "rgon2id" x)

split-encoded :
    (version salt hash : String)
    → contains_char b'$' (String.◌++◌ "v=" version) ≡ false
    → contains_char b'$' salt ≡ false
    → contains_char b'$' hash ≡ false
    → split b'$' (encoded version salt hash)
      ≡ "" ∷ "argon2id" ∷ String.◌++◌ "v=" version ∷ config_text ∷ salt ∷ hash ∷ []
unfolding split contains_char
split-encoded version salt hash v s h =
    let tail₁ = String.◌++◌ salt (String.◌∷◌ dollar hash) in
    let tail₂ = String.◌++◌ config_text (String.◌∷◌ dollar tail₁) in
    let tail₃ = String.◌++◌ (String.◌++◌ "v=" version) (String.◌∷◌ dollar tail₂) in
    ap (λ (ws : List String). "" ∷ ws)
      (split-append "argon2id" tail₃ refl
        ∙ ap (λ (ws : List String). "argon2id" ∷ ws)
            (split-append (String.◌++◌ "v=" version) tail₂ v
              ∙ ap (◌∷◌ (String.◌++◌ "v=" version)) (
                  split-append config_text tail₁ refl
                  ∙ ap (λ (ws : List String). config_text ∷ ws)
                      (split-append salt hash s ∙ ap (◌∷◌ salt) (split-none hash h)))))

same_bytes_refl : (b : List ℕ) → same_bytes b b ≡ true
same_bytes_refl [] = refl
same_bytes_refl (x ∷ b) = ground (arith, same_bytes_refl b)

verify-encoded :
    (k : Crypto) (password : String) (salt : List ℕ)
    → IsSane k
    → let key = k.id_key password salt 1 65536 4 32 in
      verify_password k password (encoded k.version (k.encode salt) (k.encode key)) ≡ some true
unfolding verify_password has_prefix
verify-encoded k password salt sane =
    let key = k.id_key password salt 1 65536 4 32 in
    rw
      (
        prefix-argon "$2a$",
        prefix-argon "$2b$",
        prefix-argon "$2y$",
        split-encoded k.version (k.encode salt) (k.encode key) sane.plain_version
            (sane.no_dollar salt) (sane.no_dollar key),
        sane.scanned,
        sane.decode-encode salt,
        sane.decode-encode key,
        sane.sized password salt,
      )
      (ap some (same_bytes_refl key))

abbrev or_empty : Option String → String
or_empty none = ""
or_empty (some s) = s

-- A password is verified against its own hash, whatever the salt. The packages behave as documented.
pub verify_password-hash_password :
    (k : Crypto) (password hash : String) (salt : List ℕ)
    → IsSane k
    → hash_password k password (some salt) ≡ some hash
    → verify_password k password hash ≡ some true
unfolding hash_password
verify_password-hash_password k password hash salt sane h =
    subst (λ t. verify_password k password t ≡ some true) (ap or_empty h)
      (verify-encoded k password salt sane)
