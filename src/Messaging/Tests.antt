-- ===== src/Messaging/Tests.antt =====
-- The router of messaging/main_test.go, runs on it, and the theorems at these runs.
mod Dm
mod Clients
mod System
mod Server
use mathlib.Core.List.{Perm}
use ziyad_messenger.Messaging.Store.Laws.{SameState, SameClients}
use ziyad_messenger.Base.Order.Laws.{InOrder}
use ziyad_messenger.Base.{
  ℕ, zero, suc, String, true, ◌≡◌, ◌≢◌, ◌⊎◌, ◌||◌, refl, List, [], ◌∷◌, ◌++◌, none, some, ◌==◌,
  arith, any, take, select, if◌then◌else◌,
}
use ziyad_messenger.Base.Text.{cut, contains_char}
use ziyad_messenger.Base.Assoc.{lookup, insert, delete}
use ziyad_messenger.Base.Http.{reply, http_error}
use ziyad_messenger.Protocol.{Message, SendMessageRequest}
use ziyad_messenger.Messaging.Store.{
  User, ChannelView, Db, Client, Router, forbidden, ok, err, db_error, query, exec, transaction,
}
use ziyad_messenger.Base.Order.{insert_sorted, order_from, order_by}
use ziyad_messenger.Messaging.Queries.{
  channel_type_row, or_missing, get_channel_type, user_exists, user_row, find_user_id_by_username,
  has_member, is_channel_member, members_of, get_channel_members, left_join, joined, same_view,
  distinct, accessible_rows, list_accessible_channels, history_rows, select_history, insert_channel,
  insert_member, insert_message,
}
use ziyad_messenger.Messaging.Queries.History.{
  in_channel, timestamp, history_rows_lem, history_rows_full,
}
use ziyad_messenger.Messaging.Queries.Channels.{accessible_rows_lem}
use ziyad_messenger.Messaging.Dm.{dm_id, has_channel, create_dm_channel, find_or_create_dm_channel}
use ziyad_messenger.Messaging.Dm.Names.{dm_id_comm, dm_id_inj}
use ziyad_messenger.Messaging.Dm.Laws.{
  with_dm, dm_outcome, find_or_create-eq-ok, find_or_create-eq-err, find_or_create_again,
}
use ziyad_messenger.Messaging.Dm.Privacy.{find_or_create_private, find_or_create_stale}
use ziyad_messenger.Messaging.Access.{
  ParseWithClaims, fold_char, equal_fold, bearer_token, jwt_secret, validate_token, authenticate,
  authorize_channel_access, dm_with, or_dm, resolve_requested_channel,
}
use ziyad_messenger.Messaging.Access.Laws.{
  may_access, authorize-may_access, authorize_lem, IsAuthentic, authenticate-IsAuthentic,
}
use ziyad_messenger.Messaging.Access.Resolve.{Resolved, resolve-Resolved, resolve-eq-err}
use ziyad_messenger.Messaging.Clients.{
  register, remove_first, holds, unregister, offer, to_all, to_members, deliver, broadcast,
  take_sent, write_next,
}
use ziyad_messenger.Messaging.Clients.Laws.{
  IsSound, registers, unregisters, broadcasts, ClientRun, start, then_step, ClientRun-IsSound,
  empty-IsSound,
}
use ziyad_messenger.Messaging.Clients.Delivery.{IsDelivered, broadcast-IsDelivered}
use ziyad_messenger.Messaging.Handlers.{
  Request, Env, new_message, save_message, submit, ws_message, user_of, run_history,
  history_handler, run_channels, channels_handler, run_channel_members, channel_members_handler,
  run_create_dm, create_dm_handler, run_send, send_handler,
}
use ziyad_messenger.Messaging.Handlers.History.{HistoryGranted, history-HistoryGranted}
use ziyad_messenger.Messaging.Handlers.Sent.{SendGranted, send-SendGranted}
use ziyad_messenger.Messaging.Handlers.Send.{Submitted, submit-Submitted, submit-eq-err}

pub messaging : Unit {0}
unfolding query exec transaction insert_sorted order_from order_by channel_type_row or_missing
    get_channel_type user_exists user_row find_user_id_by_username has_member is_channel_member
    members_of get_channel_members left_join joined distinct accessible_rows
    list_accessible_channels history_rows select_history insert_channel insert_member insert_message
    dm_id has_channel create_dm_channel find_or_create_dm_channel fold_char equal_fold bearer_token
    jwt_secret validate_token authenticate authorize_channel_access dm_with or_dm
    resolve_requested_channel register remove_first holds unregister offer to_all to_members deliver
    broadcast take_sent write_next new_message save_message submit ws_message user_of run_history
    history_handler run_channels channels_handler run_channel_members channel_members_handler
    run_create_dm create_dm_handler run_send send_handler cut lookup insert delete with_dm
    dm_outcome may_access contains_char
messaging = tt

abbrev pub person : String → String → User
person id name = record { id = id; username = name; full_name = none }

abbrev pub m_1 : Message
m_1 = record {
  id = "m-1";
  channel_id = "priv-1";
  sender_id = "u-alice";
  timestamp = 5;
  type = 1;
  content = 104 ∷ [];
  nonce = [];
  signature = [];
}

abbrev pub general : ChannelView
general = record { id = "general"; name = "General"; type = "public" }

abbrev pub private_one : ChannelView
private_one = record { id = "priv-1"; name = "Private One"; type = "private" }

abbrev pub seeded : Db
seeded = record {
  users = person "u-alice" "alice" ∷ person "u-bob" "bob" ∷ person "u-charlie" "charlie" ∷ [];
  channels = general ∷ private_one ∷ [];
  channel_members = ("priv-1", "u-alice") ∷ ("priv-1", "u-bob") ∷ [];
  messages = m_1 ∷ [];
}

abbrev pub router_on : Db → Router
router_on d = record { db = d; clients = []; next_conn = 0; closed = []; faults = [] }

abbrev pub idle : Router
idle = router_on seeded

-- A token library that takes a user's name under the default secret for a token.
abbrev pub named : ParseWithClaims
named token secret now =
    if secret == "my_secret_key"
    then some (record { username = token; role = "member" }, true)
    else none

abbrev pub ask : String → String → Request
ask authorization channel_id = record {
  method = "GET";
  authorization = authorization;
  token = "";
  channel_id = channel_id;
}

abbrev pub env : Env
env = record { now = 9; uuid = "m-2" }

abbrev pub say : String → SendMessageRequest
say channel_id = record {
  channel_id = channel_id;
  content = 33 ∷ [];
  nonce = [];
  signature = [];
  type = 1;
}

abbrev pub m_2 : String → String → Message
m_2 sender channel_id = record {
  id = "m-2";
  channel_id = channel_id;
  sender_id = sender;
  timestamp = 9;
  type = 1;
  content = 33 ∷ [];
  nonce = [];
  signature = [];
}

-- TestHistoryAuthorization
history_runs :
    ((history_handler named "" (ask "" "priv-1") env idle).0 ≡ http_error "unauthorized" 401)
    × ((history_handler named "" (ask "Bearer charlie" "priv-1") env idle).0
        ≡ http_error "forbidden" 403)
    × (history_handler named "" (ask "bearer alice" "priv-1") env idle
        ≡ (reply 200 (m_1 ∷ []), idle))
unfolding messaging
history_runs = (refl, refl, refl)

-- TestChannelsAndDMFlow
dm_runs :
    ((channels_handler named "" (ask "Bearer bob" "") env idle).0
      ≡ reply 200 (general ∷ private_one ∷ []))
    × ((channels_handler named "" (ask "Bearer charlie" "") env idle).0 ≡ reply 200 (general ∷ []))
unfolding messaging
dm_runs = (refl, refl)

history-HistoryGranted_example :
    ◌≡◌ {A = ℕ} 200 200
    × HistoryGranted named "" (ask "bearer alice" "priv-1") env idle idle (m_1 ∷ [])
unfolding messaging
history-HistoryGranted_example =
    history-HistoryGranted named "" (ask "bearer alice" "priv-1") env idle refl

abbrev pub dm_db : Db
dm_db = record seeded {
  channels =
      general
      ∷ private_one
      ∷ record { id = "dm:u-bob:u-charlie"; name = "Direct Message"; type = "dm" }
      ∷ [];
  channel_members =
      ("priv-1", "u-alice")
      ∷ ("priv-1", "u-bob")
      ∷ ("dm:u-bob:u-charlie", "u-charlie")
      ∷ ("dm:u-bob:u-charlie", "u-bob")
      ∷ [];
}

abbrev told : Router
told = router_on (record dm_db { messages = m_1 ∷ m_2 "u-charlie" "dm:u-bob:u-charlie" ∷ [] })

submit-Submitted_example :
    Submitted "u-charlie" (say "u-bob") env idle told (m_2 "u-charlie" "dm:u-bob:u-charlie")
unfolding messaging
submit-Submitted_example = submit-Submitted "u-charlie" (say "u-bob") env idle refl

resolve-Resolved_example :
    Resolved "u-charlie" "u-bob" "dm:u-bob:u-charlie" seeded dm_db
    × SameClients idle (router_on dm_db)
unfolding messaging
resolve-Resolved_example = resolve-Resolved "u-charlie" "u-bob" idle refl

abbrev pub post : String → String → Request
post authorization channel_id = record (ask authorization channel_id) { method = "POST" }

-- Charlie writes to bob; bob is online.
abbrev bob_online : Router
bob_online = (register "u-bob" idle).1

abbrev bob_told : Router
bob_told = (send_handler named "" (post "Bearer charlie" "") (ok (say "u-bob")) env bob_online).1

send-SendGranted_example :
    ◌≡◌ {A = ℕ} 200 200
    × SendGranted named ""
        (post "Bearer charlie" "")
        (ok (say "u-bob"))
        env
        bob_online
        bob_told
        (record { message_id = "m-2"; success = true; error = "" })
unfolding messaging
send-SendGranted_example =
    send-SendGranted named "" (post "Bearer charlie" "") (ok (say "u-bob")) env bob_online
      {r' = bob_told} refl (refl, (refl, (refl, (refl, tt))))
