-- ===== src/Audit/Tests.antt =====
-- Runs of the audit service, with a plain encoding and a plain stand-in for the hash.
mod Server
use Prim.Native.String
use Prim.Native.Char.{Char}
use text.Mathlib.TextLemmas.{append_cancel_left, tail-eq_of_cons-eq}
use ziyad_messenger.Base.{ℕ, String, ◌≡◌, refl, ap, [], ◌∷◌, Option, none, some}
use ziyad_messenger.Base.Text.{trim_space, all_chars}
use ziyad_messenger.Audit.{
  AuditEvent, AuditService, new_audit_service, genesis, Call, action_pattern, trimmed, refusal,
  append_event, log_handler, handle_all,
}
use ziyad_messenger.Audit.Chain.{
  Chained, Logged, IsCollisionFree, handle_all-Chained, log_handler-Logged,
}
use ziyad_messenger.Audit.Broken.{lost_write-breaks}

pub audit : Unit {0}
unfolding action_pattern trimmed refusal append_event log_handler handle_all trim_space all_chars
audit = tt

abbrev pub login : AuditEvent
login = record {
  timestamp = 0;
  actor_id = " ann ";
  action = "user.login";
  target_resource = "users/ann";
  details = "";
  prev_hash = "forged";
}

abbrev login_call : Call
login_call = ("POST", some login, 7, none)

abbrev bad_call : Call
bad_call = ("POST", some (record login { action = "user login" }), 8, none)

-- An encoding that keeps the hash of the line before, and a text that stands for its hash.
abbrev pub show_event : AuditEvent → Option String
show_event event = some (String.◌++◌ "after " event.prev_hash)

abbrev aitch : Char
aitch = "h"

abbrev pub tag : String → String
tag s = String.◌∷◌ aitch s

handle_all_lines :
    handle_all show_event tag (login_call ∷ bad_call ∷ login_call ∷ []) (new_audit_service [])
    ≡ record {
      log_file =
          String.◌++◌ "after hafter " (String.◌++◌ genesis "\n")
          ∷ String.◌++◌ "after " (String.◌++◌ genesis "\n")
          ∷ [];
      last_hash = String.◌++◌ "hafter hafter " genesis;
    }
unfolding audit
handle_all_lines = refl

abbrev once : AuditService
once = (log_handler show_event tag login_call (new_audit_service [])).1

abbrev text_of : Option String → String
text_of none = ""
text_of (some s) = s

pub collision_free : IsCollisionFree show_event tag genesis
collision_free = record {
  injective = λ a b e. tail-eq_of_cons-eq e;
  not_genesis = λ a e. cc e;
  faithful = λ a b e. append_cancel_left "after " a.prev_hash b.prev_hash (ap text_of e);
}

Chained-once : Chained show_event tag genesis once.log_file once.last_hash
unfolding handle_all
Chained-once = handle_all-Chained show_event tag (login_call ∷ []) (refl, tt)

abbrev once_failed : AuditService
once_failed = (log_handler show_event tag ("POST", some login, 8, some "") once).1

abbrev once_more : AuditService
once_more = (log_handler show_event tag login_call once_failed).1

lost_write-breaks_example : ¬ Chained show_event tag genesis once_more.log_file once_more.last_hash
unfolding audit
lost_write-breaks_example =
    lost_write-breaks show_event tag genesis once_more.last_hash "POST" (some login) 8 201
      login_call once once_failed once_more collision_free Chained-once refl refl
