-- ===== src/Protocol/E2ee.antt =====
-- backend/pkg/protocol/e2ee.go: `RatchetSession` and `DummySignalHandler`.
use Prim.Native.String
use ziyad_messenger.Base.{
  ℕ, ◌+◌, ◌-◌, String, ◌≡◌, refl, ap, List, [], ◌∷◌, ◌++◌, Option, none, some, arith, length,
  length-append, take, ltb, if◌then◌else◌,
}

pub record RatchetSession : Type 0 where
  pub root_key : List ℕ
  pub chain_key : List ℕ
  pub next_key : List ℕ
  pub ratchet_id : String

-- []byte("root-key") and []byte("chain-key")
abbrev root_key_bytes : List ℕ
root_key_bytes = b'r' ∷ b'o' ∷ b'o' ∷ b't' ∷ b'-' ∷ b'k' ∷ b'e' ∷ b'y' ∷ []

abbrev chain_key_bytes : List ℕ
chain_key_bytes = b'c' ∷ b'h' ∷ b'a' ∷ b'i' ∷ b'n' ∷ b'-' ∷ b'k' ∷ b'e' ∷ b'y' ∷ []

-- The keys that it is given are not used.
unfoldable pub initialize_session : String → List ℕ → List ℕ → RatchetSession
initialize_session recipient_id identity_key signed_pre_key = record {
  root_key = root_key_bytes;
  chain_key = chain_key_bytes;
  next_key = [];
  ratchet_id = String.◌++◌ "session-" recipient_id;
}

-- []byte("-encrypted")
abbrev marker : List ℕ
marker = b'-' ∷ b'e' ∷ b'n' ∷ b'c' ∷ b'r' ∷ b'y' ∷ b'p' ∷ b't' ∷ b'e' ∷ b'd' ∷ []

unfoldable pub encrypt_message : RatchetSession → List ℕ → List ℕ
encrypt_message session plaintext = plaintext ++ marker

-- `none` for the error "ciphertext too short".
unfoldable pub decrypt_message : RatchetSession → List ℕ → Option (List ℕ)
decrypt_message session ciphertext =
    if ltb (length ciphertext) 10 then none else some (take (length ciphertext - 10) ciphertext)

take-append : (xs ys : List ℕ) → take (length xs) (xs ++ ys) ≡ xs
take-append [] ys = refl
take-append (x ∷ xs) ys = ap (◌∷◌ x) (take-append xs ys)

-- What was encrypted in one session is decrypted in any.
pub decrypt-encrypt :
    (session other : RatchetSession) (plaintext : List ℕ)
    → decrypt_message other (encrypt_message session plaintext) ≡ some plaintext
unfolding decrypt_message encrypt_message
decrypt-encrypt session other plaintext =
    let size : length (plaintext ++ marker) ≡ length plaintext + 10 =
      length-append plaintext marker in
    let cut : length plaintext + 10 - 10 ≡ length plaintext = omega arith in
    rw (size, cut, take-append) (ground arith)
