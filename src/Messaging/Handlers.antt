-- ===== src/Messaging/Handlers.antt =====
-- The HTTP handlers of messaging/main.go, the read loop of `HandleWS` and the /send handler of `main`.
-- A request's body is what the JSON decoder makes of it, `none` for an error. The clock, the new
-- message's id and whether the WebSocket upgrade succeeds are arguments.
pub mod Laws
pub mod History
pub mod Send
pub mod Sent
use Prim.Native.String
use ziyad_messenger.Base.{
  ℕ, String, Bool, true, false, not, List, [], ◌∷◌, Option, none, some, ◌==◌, if◌then◌else◌,
}
use ziyad_messenger.Base.Http.{
  Response, http_error, reply, status_ok, status_bad_request, status_unauthorized, status_forbidden,
  status_not_found, status_method_not_allowed, status_internal_server_error,
}
use ziyad_messenger.Protocol.{Message, SendMessageRequest, SendMessageResponse}
use ziyad_messenger.Messaging.Store.{
  ChannelView, ChannelMemberView, Client, Router, Error, unauthorized, channel_missing, forbidden,
  no_rows, db_error, Result, ok, err, M, ◌>>=◌, ◌>>◌, and_then, return, throw, guard, exec,
}
use ziyad_messenger.Messaging.Queries.{
  user_exists, list_accessible_channels, list_channel_members, select_history, insert_message,
}
use ziyad_messenger.Messaging.Dm.{find_or_create_dm_channel}
use ziyad_messenger.Messaging.Access.{
  ParseWithClaims, authenticate, authorize_channel_access, resolve_requested_channel,
}
use ziyad_messenger.Messaging.Clients.{register, unregister, broadcast}

-- What the handlers read of a request.
pub record Request : Type 0 where
  pub method : String
  pub authorization : String
  pub token : String
  pub channel_id : String

-- What a call takes from outside: the milliseconds and the id of a new message.
pub record Env : Type 0 where
  pub now : ℕ
  pub uuid : String

-- A handler stops with a text and a status.
abbrev pub Stop : Type 0
Stop = String × ℕ

abbrev error_text : Error → String
error_text unauthorized = "unauthorized"
error_text channel_missing = "channel not found"
error_text forbidden = "forbidden"
error_text no_rows = "sql: no rows in result set"
error_text (db_error text) = text

abbrev pub stop_with : {A : Type 0} → Stop → Result Error A → Result Stop A
stop_with stop (ok a) = ok a
stop_with stop (err e) = err stop

-- `if err != nil { http.Error(w, text, code); return }`
abbrev pub or_error : {A : Type 0} → String → ℕ → M Error A → M Stop A
or_error text code m r = (stop_with (text, code) (m r).0, (m r).1)

abbrev pub stop_text : {A : Type 0} → Result Error A → Result Stop A
stop_text (ok a) = ok a
stop_text (err e) = err (error_text e, status_internal_server_error)

-- `http.Error(w, err.Error(), http.StatusInternalServerError)`
abbrev pub or_500 : {A : Type 0} → M Error A → M Stop A
or_500 m r = (stop_text (m r).0, (m r).1)

abbrev pub decoded : {A : Type 0} → String → Option A → M Stop A
decoded text none = throw (text, status_bad_request)
decoded text (some a) = return a

abbrev pub body_or_stop : {A : Type 0} → Result String A → M Stop A
body_or_stop (ok a) = return a
body_or_stop (err text) = throw (text, status_bad_request)

abbrev response : {A : Type 0} → Result Stop A → Response A
response (ok a) = reply status_ok a
response (err (text, code)) = http_error text code

abbrev pub respond : {A : Type 0} → M Stop A → Router → Response A × Router
respond m r = (response (m r).0, (m r).1)

unfoldable pub new_message : SendMessageRequest → String → String → Env → Message
new_message req sender_id channel_id env = record {
  id = env.uuid;
  channel_id = channel_id;
  sender_id = sender_id;
  timestamp = env.now;
  type = req.type;
  content = req.content;
  nonce = req.nonce;
  signature = req.signature;
}

-- fmt.Errorf("failed to persist message: %w", err)
abbrev persist_error : {A : Type 0} → Result Error A → Result Error A
persist_error (ok a) = ok a
persist_error (err e) = err (db_error (String.◌++◌ "failed to persist message: " (error_text e)))

abbrev pub persisting : {A : Type 0} → M Error A → M Error A
persisting m r = (persist_error (m r).0, (m r).1)

unfoldable pub save_message : SendMessageRequest → String → String → Env → M Error Message
unfolding new_message
save_message req sender_id channel_id env = persisting do
  exec (insert_message (new_message req sender_id channel_id env))
  return (new_message req sender_id channel_id env)

-- Find the channel, check the right to it, store the message.
unfoldable pub submit : String → SendMessageRequest → Env → M Stop Message
submit user_id req env = do
  channel_id ←
      or_error "channel not found" status_not_found
        (resolve_requested_channel user_id req.channel_id)
  or_error "forbidden" status_forbidden (authorize_channel_access user_id channel_id)
  or_500 (save_message req user_id channel_id env)

-- One frame of the read loop: what goes wrong is skipped without an answer.
unfoldable pub ws_message : String → Option SendMessageRequest → Env → Router → Router
ws_message user_id none env r = r
ws_message user_id (some req) env r =
    ((do msg ← submit user_id req env; or_500 (broadcast msg)) r).1

abbrev pub connect : Bool → Result Stop String × Router → Result Stop (Option Client) × Router
connect upgraded (err stop, r) = (err stop, r)
connect false (ok user_id, r) = (ok none, r)
connect true (ok user_id, r) = let (client, r') = register user_id r in (ok (some client), r')

abbrev pub method_is : String → String → M Stop (Unit {0})
method_is expected method =
    guard (method == expected) ("Method not allowed", status_method_not_allowed)

module _ (parse : ParseWithClaims) (secret : String) where
  unfoldable pub user_of : Request → Env → M Stop String
  user_of req env =
      or_error "unauthorized" status_unauthorized
        (authenticate parse secret env.now req.authorization req.token)

  unfoldable pub run_history : Request → Env → M Stop (List Message)
  unfolding user_of
  run_history req env = do
    user_id ← user_of req env
    guard (not (req.channel_id == "")) ("missing channel_id", status_bad_request)
    channel_id ←
        or_error "channel not found" status_not_found
          (resolve_requested_channel user_id req.channel_id)
    or_error "forbidden" status_forbidden (authorize_channel_access user_id channel_id)
    or_500 (select_history channel_id)

  unfoldable pub history_handler : Request → Env → Router → Response (List Message) × Router
  unfolding run_history
  history_handler req env = respond (run_history req env)

  unfoldable pub run_channels : Request → Env → M Stop (List ChannelView)
  unfolding user_of
  run_channels req env = do
    method_is "GET" req.method
    user_id ← user_of req env
    or_500 (list_accessible_channels user_id)

  unfoldable pub channels_handler : Request → Env → Router → Response (List ChannelView) × Router
  unfolding run_channels
  channels_handler req env = respond (run_channels req env)

  unfoldable pub run_channel_members : Request → Env → M Stop (List ChannelMemberView)
  unfolding user_of
  run_channel_members req env = do
    method_is "GET" req.method
    user_id ← user_of req env
    guard (not (req.channel_id == "")) ("missing channel_id", status_bad_request)
    or_error "forbidden" status_forbidden (authorize_channel_access user_id req.channel_id)
    or_500 (list_channel_members req.channel_id)

  unfoldable pub channel_members_handler :
      Request → Env → Router → Response (List ChannelMemberView) × Router
  unfolding run_channel_members
  channel_members_handler req env = respond (run_channel_members req env)

  -- The body is the field `target_user_id`.
  unfoldable pub run_create_dm : Request → Option String → Env → M Stop (String)
  unfolding user_of
  run_create_dm req body env = do
    method_is "POST" req.method
    user_id ← user_of req env
    target ← decoded "invalid request" body
    guard (not (target == "")) ("missing target_user_id", status_bad_request)
    guard (not (target == user_id)) ("invalid target", status_bad_request)
    exists ← or_500 (user_exists target)
    guard exists ("target user not found", status_not_found)
    or_500 (find_or_create_dm_channel user_id target)

  unfoldable pub create_dm_handler :
      Request → Option String → Env → Router → Response (String) × Router
  unfolding run_create_dm
  create_dm_handler req body env = respond (run_create_dm req body env)

  -- A body that does not decode brings the decoder's text.
  unfoldable pub run_send :
      Request → Result String SendMessageRequest → Env → M Stop (SendMessageResponse)
  unfolding user_of
  run_send req body env = do
    method_is "POST" req.method
    msg_req ← body_or_stop body
    sender_id ← user_of req env
    msg ← submit sender_id msg_req env
    or_500 (broadcast msg)
    return (record { message_id = msg.id; success = true; error = "" })

  unfoldable pub send_handler :
      Request
      → Result String SendMessageRequest
      → Env
      → Router
      → Response (SendMessageResponse) × Router
  unfolding run_send
  send_handler req body env = respond (run_send req body env)

  -- `HandleWS` up to its loops: `none` where the upgrade fails and no client is registered.
  unfoldable pub handle_ws : Request → Env → Bool → Router → Result Stop (Option Client) × Router
  unfolding user_of
  handle_ws req env upgraded r = connect upgraded (user_of req env r)
