-- ===== src/Audit.antt =====
-- backend/services/audit/main.go: `AuditService` and `LogHandler`.
-- Parameters: the encoder (`json.Marshal`, `none` for an error) and the hexadecimal SHA-256 of a text.
-- A call brings what the decoder makes of its body, the clock, and what becomes of the write to the
-- file: `none` for success, `some part` for an error behind which only `part` stands in the file.
-- The lock makes the part of the handler that it guards one step.
pub mod Chain
pub mod Broken
pub mod Server
mod Tests
use Prim.Native.String
use ziyad_messenger.Base.{
  ℕ, String, Bool, true, false, not, ◌&&◌, ◌||◌, List, [], ◌∷◌, Option, none, some, ◌==◌, ltb, leb,
  eqb, len, if◌then◌else◌,
}
use ziyad_messenger.Base.Text.{trim_space, all_chars}
use ziyad_messenger.Base.Http.{
  Response, http_error, reply, status_created, status_bad_request, status_method_not_allowed,
  status_internal_server_error,
}

pub record AuditEvent : Type 0 where
  pub timestamp : ℕ
  pub actor_id : String
  pub action : String
  pub target_resource : String
  pub details : String
  pub prev_hash : String

-- `log_file` holds what the writes left in the file, the last one first.
pub record AuditService : Type 0 where
  pub log_file : List String
  pub last_hash : String

abbrev pub genesis : String
genesis = "0000000000000000000000000000000000000000000000000000000000000000"

-- `NewAuditService` on the file as it is, to which O_APPEND adds. The hash begins anew. A file that cannot be
-- opened ends the program.
abbrev pub new_audit_service : List String → AuditService
new_audit_service there = record { log_file = there; last_hash = genesis }

-- ^[a-zA-Z0-9_.:-]{2,64}$
abbrev is_action_char : ℕ → Bool
is_action_char c =
    (leb b'a' c && leb c b'z')
    || (leb b'A' c && leb c b'Z')
    || (leb b'0' c && leb c b'9')
    || eqb c b'_'
    || eqb c b'.'
    || eqb c b':'
    || eqb c b'-'

unfoldable pub action_pattern : String → Bool
action_pattern s = all_chars is_action_char s && leb 2 (len s) && leb (len s) 64

abbrev pub Call : Type 0
Call = String × Option AuditEvent × ℕ × Option String

-- The three fields that the handler trims.
unfoldable pub trimmed : AuditEvent → AuditEvent
trimmed event = record event {
  actor_id = trim_space event.actor_id;
  action = trim_space event.action;
  target_resource = trim_space event.target_resource;
}

-- The checks on the fields, in their order: the text of the first that fails.
unfoldable pub refusal : AuditEvent → Option String
refusal event =
    if event.actor_id == "" || ltb 64 (len event.actor_id)
    then some "Invalid actor_id"
    else if not (action_pattern event.action)
    then some "Invalid action format"
    else if event.target_resource == "" || ltb 128 (len event.target_resource)
    then some "Invalid target_resource"
    else if ltb 4096 (len event.details)
    then some "Details too long"
    else none

-- What a write that failed leaves.
abbrev left_over : String → List String → List String
left_over part lines = if part == "" then lines else part ∷ lines

module _ (marshal : AuditEvent → Option String) (sha256_hex : String → String) where
  -- The write, behind which the new hash already stands.
  abbrev written : String → Option String → AuditService → Response (Unit {0}) × AuditService
  written bytes none s = (
    reply status_created tt,
    record { log_file = String.◌++◌ bytes "\n" ∷ s.log_file; last_hash = sha256_hex bytes },
  )
  written bytes (some part) s = (
    http_error "Write error" status_internal_server_error,
    record { log_file = left_over part s.log_file; last_hash = sha256_hex bytes },
  )

  abbrev serialized :
      Option String → Option String → AuditService → Response (Unit {0}) × AuditService
  serialized none write s = (http_error "Marshaling error" status_internal_server_error, s)
  serialized (some bytes) write s = written bytes write s

  -- Under the lock.
  unfoldable pub append_event :
      AuditEvent → ℕ → Option String → AuditService → Response (Unit {0}) × AuditService
  append_event event now write s =
      serialized (marshal (record event { timestamp = now; prev_hash = s.last_hash })) write s

  abbrev checked :
      Option String
      → AuditEvent
      → ℕ
      → Option String
      → AuditService
      → Response (Unit {0}) × AuditService
  checked (some text) event now write s = (http_error text status_bad_request, s)
  checked none event now write s = append_event event now write s

  abbrev received :
      Option AuditEvent → ℕ → Option String → AuditService → Response (Unit {0}) × AuditService
  received none now write s = (http_error "Invalid body" status_bad_request, s)
  received (some event) now write s = checked (refusal (trimmed event)) (trimmed event) now write s

  unfoldable pub log_handler : Call → AuditService → Response (Unit {0}) × AuditService
  unfolding append_event
  log_handler (method, body, now, write) s =
      if method == "POST"
      then received body now write s
      else (http_error "Method not allowed" status_method_not_allowed, s)

  -- The requests that the service handles, one behind the other.
  unfoldable pub handle_all : List Call → AuditService → AuditService
  handle_all [] s = s
  handle_all (call ∷ calls) s = handle_all calls (log_handler call s).1
