-- ===== src/Base/Http.antt =====
-- What a handler writes: `http.Error(w, text, code)`, or a body under a status code.
use Prim.Native.Nat.{ℕ}
use Prim.Native.String.{String}

pub data Response {ℓ} (A : Type ℓ) : Type ℓ where
  http_error : String → ℕ → Response A
  reply : ℕ → A → Response A

abbrev pub status {ℓ} : {A : Type ℓ} → Response A → ℕ
status (http_error text code) = code
status (reply code body) = code

abbrev pub status_ok : ℕ
status_ok = 200

abbrev pub status_created : ℕ
status_created = 201

abbrev pub status_bad_request : ℕ
status_bad_request = 400

abbrev pub status_unauthorized : ℕ
status_unauthorized = 401

abbrev pub status_forbidden : ℕ
status_forbidden = 403

abbrev pub status_not_found : ℕ
status_not_found = 404

abbrev pub status_method_not_allowed : ℕ
status_method_not_allowed = 405

abbrev pub status_conflict : ℕ
status_conflict = 409

abbrev pub status_too_many_requests : ℕ
status_too_many_requests = 429

abbrev pub status_internal_server_error : ℕ
status_internal_server_error = 500
