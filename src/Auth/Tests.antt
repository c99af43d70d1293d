-- ===== src/Auth/Tests.antt =====
-- A registration and a login, with plain stand-ins for the packages.
mod Server
use Prim.Native.Char.{code}
use Prim.Native.String
use ziyad_messenger.Base.{
  ℕ, zero, suc, ◌+◌, String, false, ◌≡◌, refl, ap, ◌∙◌, List, [], ◌∷◌, Option, some, arith, eqb,
  len, if◌then◌else◌,
}
use ziyad_messenger.Base.Text.{trim_space, all_chars, contains_char}
use ziyad_messenger.Base.Http.{reply, http_error}
use ziyad_messenger.Auth.Password.{
  Crypto, split, has_prefix, hash_password, verify_password, IsSane,
}
use ziyad_messenger.Auth.{
  Db, RegisterRequest, Claims, Env, username_pattern, insert_user, new_user, trimmed, refusal,
  login_row, register_handler, ensure_default_user, generate_token, login_handler,
}
use ziyad_messenger.Auth.Login.{
  Registered, register_handler-Registered, login_handler-register_handler,
}

pub auth : Unit {0}
unfolding split has_prefix hash_password verify_password username_pattern insert_user new_user
    trimmed refusal login_row register_handler ensure_default_user generate_token login_handler
    trim_space all_chars contains_char
auth = tt

-- A byte is written as so many letters.
abbrev ones : ℕ → String → String
ones zero s = String.◌∷◌ "b" s
ones (suc n) s = String.◌∷◌ "a" (ones n s)

abbrev encode : List ℕ → String
encode [] = String.[]
encode (n ∷ ns) = ones n (encode ns)

abbrev read : ℕ → String → List ℕ
read k String.[] = []
read k (String.◌∷◌ c s) = if eqb (code c) b'a' then read (suc k) s else k ∷ read 0 s

abbrev filled : ℕ → ℕ → List ℕ
filled x zero = []
filled x (suc n) = x ∷ filled x n

abbrev pub plain : Crypto
plain = record {
  id_key = λ password salt time memory threads key_len. filled (len password) key_len;
  version = "19";
  encode = encode;
  decode = λ s. some (read 0 s);
  scan_config = λ s. some (65536, 1, 4);
  matches_bcrypt = λ hash password. false;
}

read-ones : (k n : ℕ) (s : String) → read k (ones n s) ≡ (k + n) ∷ read 0 s
read-ones k zero s = ap (λ m. m ∷ read 0 s) (omega arith)
read-ones k (suc n) s = read-ones (suc k) n s ∙ ap (λ m. m ∷ read 0 s) (omega arith)

read-encode : (b : List ℕ) → read 0 (encode b) ≡ b
read-encode [] = refl
read-encode (n ∷ b) = read-ones 0 n (encode b) ∙ rw (read-encode b) (ap (λ m. m ∷ b) (omega arith))

contains_char-ones : (n : ℕ) (s : String) → contains_char b'$' (ones n s) ≡ contains_char b'$' s
unfolding contains_char
contains_char-ones zero s = refl
contains_char-ones (suc n) s = contains_char-ones n s

contains_char-encode : (b : List ℕ) → contains_char b'$' (encode b) ≡ false
unfolding contains_char
contains_char-encode [] = refl
contains_char-encode (n ∷ b) = contains_char-ones n (encode b) ∙ contains_char-encode b

pub sane : IsSane plain
unfolding contains_char
sane = record {
  decode-encode = λ b. ap some (read-encode b);
  no_dollar = contains_char-encode;
  plain_version = refl;
  scanned = refl;
  sized = λ p s. refl;
}

abbrev pub sign : Claims → Option String
sign claims = some (String.◌++◌ claims.username (String.◌++◌ "/" claims.role))

abbrev pub env : Env
env = record { salt = some (3 ∷ 1 ∷ []); uuid = "u-9"; now = 5; fault = false }

abbrev pub request : RegisterRequest
request = record { username = " ann "; full_name = "Ann"; password = "longenough"; role = "r-1" }

abbrev pub empty : Db
empty = record { users = []; roles = record { id = "r-1"; name = "member" } ∷ [] }

abbrev pub registered : Db
registered = (register_handler plain "POST" (some request) env empty).1

login_handler-register_handler_example :
    login_handler plain sign "POST"
      (some (record { username = " ann "; password = "longenough" }))
      false
      77
      registered
    ≡ reply 200 (record { token = "ann/member"; user_id = "u-9"; role = "member" })
unfolding auth
login_handler-register_handler_example =
    login_handler-register_handler plain sign request env empty 77 201 "u-9" "ann/member" registered
      sane refl refl

-- A second registration under the same name.
register_again :
    (register_handler plain "POST" (some request) (record env { uuid = "u-10" }) registered).0
    ≡ http_error "User already exists or DB error" 409
unfolding auth
register_again = refl
