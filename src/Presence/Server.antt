-- ===== src/Presence/Server.antt =====
-- The server of backend/services/presence/main.go: the tracing, the mux of `main`, and the ticks of `CleanupLoop`
-- that run beside it.
use ziyad_messenger.Base.{ℕ, String, Bool, [], ◌∷◌, Option}
use ziyad_messenger.Base.Http.{Response}
use ziyad_messenger.Trace.{Request, Traced}
use ziyad_messenger.Services.{Call, Mux, serve_plain, health, as_answer}
use ziyad_messenger.Presence.{
  Table, ValidationRequest, StatusReport, heartbeat_handler, status_handler,
}

-- The decoded body, the query's `user_id`, whether the engine fails, and the clock.
pub record Outside : Type 0 where
  pub body : Option ValidationRequest
  pub user_id : String
  pub fault : Bool
  pub now : ℕ

pub data Answer : Type 0 where
  beaten : Answer
  report : StatusReport → Answer
  running : String → Answer

abbrev pub heartbeat_route : Outside → Request → Table → Response Answer × Table
heartbeat_route p req t =
    let (r, t') = heartbeat_handler req.method p.body p.fault p.now t in
    (as_answer (λ _. beaten) r, t')

abbrev pub status_route : Outside → Request → Table → Response Answer × Table
status_route p req t = (as_answer report (status_handler p.user_id p.fault p.now t), t)

-- A request's id falls back to the clock's nanoseconds. No body is bounded.
unfoldable pub presence_service : Mux Outside Answer Table
presence_service = record {
  name = "presence";
  fallback = λ fresh. fresh;
  routes =
      record { pattern = "/heartbeat"; name = "heartbeat"; max_body = 0; handler = heartbeat_route }
      ∷ record { pattern = "/status"; name = "status"; max_body = 0; handler = status_route }
      ∷ record {
        pattern = "/health";
        name = "health";
        max_body = 0;
        handler = health running "Presence Service is running";
      }
      ∷ [];
}

unfoldable pub serve_presence : Call Outside → Table → Option (Traced Answer) × Table
serve_presence c t = serve_plain presence_service c t
