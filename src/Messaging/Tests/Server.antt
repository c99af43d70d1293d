-- ===== src/Messaging/Tests/Server.antt =====
-- The messaging service's server, with a library that needs an http.Hijacker.
use ziyad_messenger.Base.{String, true, false, ◌≡◌, refl, List, [], ◌∷◌, none, some}
use ziyad_messenger.Services.{Call, serve_plain_all}
use ziyad_messenger.Messaging.Store.{ok}
use ziyad_messenger.Messaging.Server.{Upgrade, Outside, messaging_service}
use ziyad_messenger.Messaging.Server.Offline.{serve_plain_all-IsOffline}
use ziyad_messenger.Messaging.Tests.{idle, env, named, say}

abbrev hijacker_needed : Upgrade
hijacker_needed true = none
hijacker_needed false = some ("websocket: response does not implement http.Hijacker", 500)

abbrev by_bob : String → String → Call Outside
by_bob method path = record {
  now = 0;
  request = record {
    method = method;
    path = path;
    request_id = "";
    forwarded_for = "";
    remote_addr = "10.0.0.7:4000";
    body_limit = 0;
  };
  random = some "00ff";
  fresh = "";
  payload = record {
    authorization = "Bearer bob";
    token = "";
    channel_id = "priv-1";
    send = ok (say "general");
    target_user_id = none;
    env = env;
  };
}

-- Bob asks for a connection and writes to everyone.
abbrev bobs : List (Call Outside)
bobs = by_bob "GET" "/ws" ∷ by_bob "POST" "/send" ∷ []

serve_plain_all-IsOffline_example :
    (serve_plain_all (messaging_service named "" hijacker_needed) bobs idle).clients ≡ []
serve_plain_all-IsOffline_example =
    serve_plain_all-IsOffline named "" hijacker_needed
      ("websocket: response does not implement http.Hijacker", 500) bobs idle refl refl
