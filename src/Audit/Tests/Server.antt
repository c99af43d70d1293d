-- ===== src/Audit/Tests/Server.antt =====
-- The audit service's server at requests.
use ziyad_messenger.Base.{String, ℕ, ◌≡◌, refl, arith, List, [], ◌∷◌, none, some}
use ziyad_messenger.RateLimiter.{new_ip_rate_limiter, allow, drop_before}
use ziyad_messenger.Services.{Call, Mux, mux_route, serve_all, serve_limited}
use ziyad_messenger.Services.Limits.{stamps, admit_all, serve_all-eq-admit_all}
use ziyad_messenger.Audit.{new_audit_service}
use ziyad_messenger.Audit.Chain.{Extends}
use ziyad_messenger.Audit.Server.{
  Outside, audit_limiter, audit_service, serve_all-Extends, serve_all_unique,
}
use ziyad_messenger.Trace.{client_ip, with_limited_request_trace, get_or_create_request_id, traced}
use ziyad_messenger.Base.Assoc.{lookup, insert}
use ziyad_messenger.Base.Text.{trim_space, split_host_port}
use ziyad_messenger.Audit.{AuditService}
use ziyad_messenger.Audit.Tests.{audit, login, show_event, tag, collision_free}

abbrev log_call : ℕ → Call Outside
log_call now = record {
  now = now;
  request = record {
    method = "POST";
    path = "/log";
    request_id = "";
    forwarded_for = "";
    remote_addr = "10.0.0.7:4000";
    body_limit = 0;
  };
  random = some "00ff";
  fresh = "";
  payload = record { body = λ limit. some login; now = now; write = none };
}

-- The third comes too soon for two a minute, the path of the last is unknown.
abbrev calls : List (Call Outside)
calls =
    log_call 1
    ∷ log_call 2
    ∷ log_call 3
    ∷ record (log_call 70) { request = record (log_call 70).request { path = "/" } }
    ∷ []

abbrev service : Mux Outside (Unit {0}) AuditService
service = audit_service show_event tag

-- A file that an earlier run has left.
abbrev before : List String
before = "an earlier line\n" ∷ []

serve_all-Extends_example :
    Extends show_event tag before
      (serve_all service calls (audit_limiter, new_audit_service before)).1.1
serve_all-Extends_example =
    serve_all-Extends show_event tag before calls (refl, (refl, (refl, (refl, tt))))

-- The same requests without those that were refused, and a little later.
abbrev fewer : List (Call Outside)
fewer = log_call 11 ∷ log_call 12 ∷ log_call 13 ∷ []

serve_all_unique_example :
    (serve_all service calls (audit_limiter, new_audit_service before)).1.1.log_file
    ≡ (serve_all service fewer (audit_limiter, new_audit_service before)).1.1.log_file
unfolding audit audit_service audit_limiter mux_route client_ip trim_space split_host_port serve_all
    serve_limited with_limited_request_trace allow drop_before new_ip_rate_limiter
    get_or_create_request_id traced lookup insert
serve_all_unique_example =
    serve_all_unique show_event tag before calls fewer collision_free
      (refl, (refl, (refl, (refl, tt)))) (refl, (refl, (refl, tt))) refl

serve_all-eq-admit_all_example :
    let x = serve_all service calls (new_ip_rate_limiter 2 60, new_audit_service before) in
    let y = admit_all service 2 60 calls ([], new_audit_service before) in
    (x.0 ≡ y.0) × (x.1.1 ≡ y.1.1)
unfolding audit audit_service stamps mux_route client_ip trim_space split_host_port
serve_all-eq-admit_all_example =
    serve_all-eq-admit_all service 2 60 calls (new_audit_service before) (omega arith)
