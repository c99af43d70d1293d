-- ===== src/Messaging/System/Runs.antt =====
-- The router from its start through any calls, in any order.
use Prim.Native.String
use ziyad_messenger.Base.{String, Bool, ◌≡◌, ap, List, [], Option, none, some, arith}
use ziyad_messenger.Base.Assoc.{lookup}
use ziyad_messenger.Base.State.Outcomes.{Outcome-state}
use ziyad_messenger.Protocol.{SendMessageRequest}
use ziyad_messenger.Messaging.Store.{User, Client, Db, Router, Result, ok, err, M}
use ziyad_messenger.Messaging.Access.{ParseWithClaims}
use ziyad_messenger.Messaging.Clients.{unregister, write_next}
use ziyad_messenger.Messaging.Clients.Laws.{empty-IsSound}
use ziyad_messenger.Messaging.Handlers.{
  Request, Env, Stop, respond, ws_message, history_handler, channels_handler,
  channel_members_handler, create_dm_handler, send_handler, handle_ws, run_history, run_channels,
  run_channel_members, run_create_dm, run_send,
}
use ziyad_messenger.Messaging.System.Tables.{IsConsistent}
use ziyad_messenger.Messaging.System.Operations.{IsGood, Good}
use ziyad_messenger.Messaging.System.Sending.{Kept}
use ziyad_messenger.Messaging.System.Requests.{
  history-Good, channels-Good, channel_members-Good, create_dm-Good, send-Good,
}
use ziyad_messenger.Messaging.System.Connections.{
  unregister-Good, write_next-Good, handle_ws-Good, ws_message-Good,
}

-- `NewMessageRouter` and `initDB`, on the tables that the file holds; a table that it lacks is empty.
-- CREATE TABLE IF NOT EXISTS keeps what is there. The two errors are those of `sql.Open` and of the
-- schema's `Exec`.
unfoldable pub new_message_router :
    Option String → Option String → Db → List (Option String) → Result String Router
new_message_router (some text) created db faults =
    err (String.◌++◌ "failed to open database: " text)
new_message_router none (some text) db faults =
    err (String.◌++◌ "failed to initialize database: " text)
new_message_router none none db faults =
    ok (record { db = db; clients = []; next_conn = 0; closed = []; faults = faults })

module _ (parse : ParseWithClaims) (secret : String) where
  -- What the goroutines of the service do, one at a time. Frames come from users with a connection.
  pub data RouterStep (r : Router) : Router → Type 0 where
    history : (req : Request) (env : Env) → RouterStep r (history_handler parse secret req env r).1
    channels :
        (req : Request) (env : Env) → RouterStep r (channels_handler parse secret req env r).1
    channel_members :
        (req : Request) (env : Env)
        → RouterStep r (channel_members_handler parse secret req env r).1
    dm :
        (req : Request) (body : Option String) (env : Env)
        → RouterStep r (create_dm_handler parse secret req body env r).1
    send :
        (req : Request) (body : Result String SendMessageRequest) (env : Env)
        → RouterStep r (send_handler parse secret req body env r).1
    ws :
        (req : Request) (env : Env) (upgraded : Bool)
        → RouterStep r (handle_ws parse secret req env upgraded r).1
    frame :
        (u : String) (body : Option SendMessageRequest) (env : Env) (cs : List Client)
        → lookup u r.clients ≡ some cs
        → RouterStep r (ws_message u body env r)
    written : (client : Client) → RouterStep r (write_next client r)
    left : (client : Client) → RouterStep r (unregister client r)

  pub data RouterRun (r : Router) : Router → Type 0 where
    start : RouterRun r r
    then_step : {q s : Router} → RouterRun r q → RouterStep q s → RouterRun r s

  responded-Good :
      {A : Type 0} (us : List User) (m : M Stop A) (r : Router)
      → Kept us (m r)
      → Good us (respond m r).1
  responded-Good us m r h = Outcome-state (Good us) (λ _. Good us) (m r) h λ _ _ g. g

  RouterStep-Good : (us : List User) {r q : Router} → RouterStep r q → Good us r → Good us q
  unfolding history_handler channels_handler channel_members_handler create_dm_handler send_handler
  RouterStep-Good us {r} (history req env) g =
      responded-Good us (run_history parse secret req env) r
        (history-Good us parse secret req env r g)
  RouterStep-Good us {r} (channels req env) g =
      responded-Good us (run_channels parse secret req env) r
        (channels-Good us parse secret req env r g)
  RouterStep-Good us {r} (channel_members req env) g =
      responded-Good us (run_channel_members parse secret req env) r
        (channel_members-Good us parse secret req env r g)
  RouterStep-Good us {r} (dm req body env) g =
      responded-Good us (run_create_dm parse secret req body env) r
        (create_dm-Good us parse secret req body env r g)
  RouterStep-Good us {r} (send req body env) g =
      responded-Good us (run_send parse secret req body env) r
        (send-Good us parse secret req body env r g)
  RouterStep-Good us {r} (ws req env upgraded) g =
      handle_ws-Good us parse secret req env upgraded r g
  RouterStep-Good us {r} (frame u body env cs there) g = ws_message-Good us u body env r cs there g
  RouterStep-Good us {r} (written client) g = write_next-Good us client r g
  RouterStep-Good us {r} (left client) g = unregister-Good us client r g

  RouterRun-Good : (us : List User) {r q : Router} → RouterRun r q → Good us r → Good us q
  RouterRun-Good us start g = g
  RouterRun-Good us (then_step run step) g = RouterStep-Good us step (RouterRun-Good us run g)

  new-Good :
      (opened created : Option String) (d : Db) (faults : List (Option String)) {r : Router}
      → IsConsistent d
      → new_message_router opened created d faults ≡ ok r
      → Good d.users r
  unfolding new_message_router
  new-Good (some text) created d faults c h = cc h
  new-Good none (some text) d faults c h = cc h
  new-Good none none d faults {r} c h =
      let tables : r.db ≡ d = ground arith in
      let nobody : r.clients ≡ [] = ground arith in
      record {
        users = ap (λ x. x.users) tables;
        tables = rw tables c;
        online = rw nobody tt;
        sound = empty-IsSound r nobody (ground arith) (ground arith);
      }

  -- From a start on consistent tables, through any requests, connections, frames and disconnections
  -- in any order and whatever the engine answers: the users stay as they are; no channel's id, no
  -- membership and no message's id stands twice; each membership and each message is of a channel and
  -- a user that exist; whoever is online is a user; each connection ever made is open once or
  -- closed once and never both; and no buffer overflows.
  pub Run-IsGood :
      (opened created : Option String) (d : Db) (faults : List (Option String)) {r q : Router}
      → IsConsistent d
      → new_message_router opened created d faults ≡ ok r
      → RouterRun r q
      → IsGood d.users q
  Run-IsGood opened created d faults c h run =
      RouterRun-Good d.users run (new-Good opened created d faults c h)
