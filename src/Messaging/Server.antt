-- ===== src/Messaging/Server.antt =====
-- The server of backend/services/messaging/main.go: the tracing and the mux of `main`.
-- Upgrade of gorilla/websocket is a parameter: whether the response writer that it is given is an http.Hijacker,
-- to the error that it answers, or `none` when the connection is upgraded.
pub mod Offline
use ziyad_messenger.Base.{String, Bool, true, false, List, [], ◌∷◌, Option, none, some}
use ziyad_messenger.Base.Http.{Response, reply, http_error}
use ziyad_messenger.Trace.{Request, Traced}
use ziyad_messenger.Services.{Route, Call, Mux, serve_plain, health, as_answer}
use ziyad_messenger.Protocol.{Message, SendMessageRequest, SendMessageResponse}
use ziyad_messenger.Messaging.Store.{
  ChannelView, ChannelMemberView, Client, Router, Result, ok, err,
}
use ziyad_messenger.Messaging.Access.{ParseWithClaims}
use ziyad_messenger.Messaging.Handlers.{
  Env, Stop, history_handler, channels_handler, channel_members_handler, create_dm_handler,
  send_handler, handle_ws,
}

-- What the handlers take from outside: the headers and the query, the bodies as they are decoded, the clock and
-- the new id.
pub record Outside : Type 0 where
  pub authorization : String
  pub token : String
  pub channel_id : String
  pub send : Result String SendMessageRequest
  pub target_user_id : Option String
  pub env : Env

pub data Answer : Type 0 where
  history : List Message → Answer
  channels : List ChannelView → Answer
  members : List ChannelMemberView → Answer
  dm : String → Answer
  sent : SendMessageResponse → Answer
  switched : Client → Answer
  running : String → Answer

abbrev pub Upgrade : Type 0
Upgrade = Bool → Option Stop

-- The handlers behind `withRequestTrace` get a `statusRecorder`, which embeds the interface http.ResponseWriter and
-- so has its three methods only, and not `Hijack`.
abbrev pub recorder_hijacks : Bool
recorder_hijacks = false

abbrev pub is_upgraded : Option Stop → Bool
is_upgraded none = true
is_upgraded (some stop) = false

abbrev pub read_request : Outside → Request → ziyad_messenger.Messaging.Handlers.Request
read_request p req = record {
  method = req.method;
  authorization = p.authorization;
  token = p.token;
  channel_id = p.channel_id;
}

-- A handshake that fails is answered by the library.
abbrev pub ws_answer : Option Stop → Result Stop (Option Client) → Response Answer
ws_answer refusal (err (text, code)) = http_error text code
ws_answer refusal (ok (some client)) = reply 101 (switched client)
ws_answer (some (text, code)) (ok none) = http_error text code
ws_answer none (ok none) = http_error "" 500

module _ (parse : ParseWithClaims) (secret : String) (upgrade : Upgrade) where
  abbrev pub ws_route : Outside → Request → Router → Response Answer × Router
  ws_route p req r =
      let refusal = upgrade recorder_hijacks in
      let (x, r') = handle_ws parse secret (read_request p req) p.env (is_upgraded refusal) r in
      (ws_answer refusal x, r')

  abbrev pub history_route : Outside → Request → Router → Response Answer × Router
  history_route p req r =
      let (x, r') = history_handler parse secret (read_request p req) p.env r in
      (as_answer history x, r')

  abbrev pub channels_route : Outside → Request → Router → Response Answer × Router
  channels_route p req r =
      let (x, r') = channels_handler parse secret (read_request p req) p.env r in
      (as_answer channels x, r')

  abbrev pub channel_members_route : Outside → Request → Router → Response Answer × Router
  channel_members_route p req r =
      let (x, r') = channel_members_handler parse secret (read_request p req) p.env r in
      (as_answer members x, r')

  abbrev pub dm_route : Outside → Request → Router → Response Answer × Router
  dm_route p req r =
      let (x, r') = create_dm_handler parse secret (read_request p req) p.target_user_id p.env r in
      (as_answer dm x, r')

  abbrev pub send_route : Outside → Request → Router → Response Answer × Router
  send_route p req r =
      let (x, r') = send_handler parse secret (read_request p req) p.send p.env r in
      (as_answer sent x, r')

  abbrev route :
      String
      → String
      → (Outside → Request → Router → Response Answer × Router)
      → Route Outside Answer Router
  route pattern name handler = record {
    pattern = pattern;
    name = name;
    max_body = 0;
    handler = handler;
  }

  -- A request's id falls back to a fresh UUID. No body is bounded.
  unfoldable pub messaging_service : Mux Outside Answer Router
  messaging_service = record {
    name = "messaging";
    fallback = λ fresh. fresh;
    routes =
        route "/ws" "ws" ws_route
        ∷ route "/history" "history" history_route
        ∷ route "/channels" "channels" channels_route
        ∷ route "/channel-members" "channel-members" channel_members_route
        ∷ route "/dm" "dm" dm_route
        ∷ route "/health" "health" (health running "Messaging Service is running")
        ∷ route "/send" "send" send_route
        ∷ [];
  }

  unfoldable pub serve_messaging : Call Outside → Router → Option (Traced Answer) × Router
  serve_messaging c r = serve_plain messaging_service c r
