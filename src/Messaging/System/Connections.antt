-- ===== src/Messaging/System/Connections.antt =====
-- What the WebSocket connections keep of the router's state.
use ziyad_messenger.Base.{
  ℕ, String, Bool, true, false, ◌≡◌, refl, List, [], Option, none, some, arith, eqb, length,
  Bool-cases, Option-cases, inl, inr,
}
use ziyad_messenger.Base.State.Outcomes.{Outcome, Outcome-and_then, Outcome-state}
use ziyad_messenger.Base.Assoc.{lookup, insert, get_or}
use ziyad_messenger.Base.Assoc.Keys.{AllKeys, AllKeys-insert, AllKeys-delete, AllKeys-lookup}
use ziyad_messenger.Protocol.{SendMessageRequest}
use ziyad_messenger.Messaging.Store.{User, Client, Router, Result, ok, err}
use ziyad_messenger.Messaging.Access.{ParseWithClaims}
use ziyad_messenger.Messaging.Clients.{
  register, unregister, remove_first, holds, drop_empty, write_next, take_sent, broadcast,
}
use ziyad_messenger.Messaging.Clients.Laws.{
  register-IsSound, unregister-IsSound, write_next-IsSound,
}
use ziyad_messenger.Messaging.Handlers.{
  Request, Env, Stop, submit, ws_message, connect, user_of, handle_ws,
}
use ziyad_messenger.Messaging.System.Tables.{is_user}
use ziyad_messenger.Messaging.System.Operations.{Good}
use ziyad_messenger.Messaging.System.Sending.{or_500-Outcome, broadcast-Good, submit-Good}
use ziyad_messenger.Messaging.System.Requests.{user_of-Good}

drop_empty-AllKeys :
    (P : String → Type 0) (u : String) (m : List (String × List Client))
    → AllKeys P m
    → AllKeys P (drop_empty u m)
drop_empty-AllKeys P u m h = elim (Bool-cases (eqb (length (get_or u [] m)) 0)) [
  | inl e ↦ rw e (AllKeys-delete P u m h)
  | inr e ↦ rw e h
]

-- Who has a connection stands among the keys.
holder-lookup :
    (P : String → Type 0) (u : String) (conn : ℕ) (m : List (String × List Client))
    → holds conn (get_or u [] m) ≡ true
    → AllKeys P m
    → P u
unfolding holds
holder-lookup P u conn m found h = elim (Option-cases (lookup u m)) [
  | inl e ↦ cc (rw (e, get_or) at found)
  | inr (cs, e) ↦ AllKeys-lookup P u m e h
]

written-AllKeys :
    (P : String → Type 0) (client : Client) (m : List (String × List Client))
    (o : Option (List Client))
    → lookup client.user_id m ≡ o
    → AllKeys P m
    → AllKeys P (elim o [ none ↦ m | some cs ↦ insert client.user_id (take_sent client.conn cs) m ])
written-AllKeys P client m none e h = h
written-AllKeys P client m (some cs) e h =
    AllKeys-insert P client.user_id (take_sent client.conn cs) m
      (AllKeys-lookup P client.user_id m e h) h

module _ (us : List User) where
  pub register-Good :
      (u : String) (r : Router) → is_user u us ≡ true → Good us r → Good us (register u r).1
  unfolding register
  register-Good u r who g = record {
    users = g.users;
    tables = g.tables;
    online = AllKeys-insert (λ k. is_user k us ≡ true) u _ r.clients who g.online;
    sound = register-IsSound u r g.sound;
  }

  unregister-AllKeys :
      (client : Client) (r : Router)
      → AllKeys (λ k. is_user k us ≡ true) r.clients
      → AllKeys (λ k. is_user k us ≡ true) (unregister client r).clients
  unfolding unregister
  unregister-AllKeys client r h =
      let P : String → Type 0 = λ k. is_user k us ≡ true in
      let conns = get_or client.user_id [] r.clients in
      elim (Bool-cases (holds client.conn conns)) [
        | inl found ↦ rw found (
            drop_empty-AllKeys P client.user_id _ (
              AllKeys-insert P client.user_id (remove_first client.conn conns) r.clients
                (holder-lookup P client.user_id client.conn r.clients found h) h))
        | inr missing ↦ rw missing (drop_empty-AllKeys P client.user_id r.clients h)
      ]

  unregister-db : (client : Client) (r : Router) → (unregister client r).db ≡ r.db
  unfolding unregister
  unregister-db client r = ground arith

  pub unregister-Good : (client : Client) (r : Router) → Good us r → Good us (unregister client r)
  unregister-Good client r g = record {
    users = rw unregister-db g.users;
    tables = rw unregister-db g.tables;
    online = unregister-AllKeys client r g.online;
    sound = unregister-IsSound client r g.sound;
  }

  write_next-AllKeys :
      (client : Client) (r : Router)
      → AllKeys (λ k. is_user k us ≡ true) r.clients
      → AllKeys (λ k. is_user k us ≡ true) (write_next client r).clients
  unfolding write_next
  write_next-AllKeys client r h =
      written-AllKeys (λ k. is_user k us ≡ true) client r.clients (lookup client.user_id r.clients)
        refl h

  write_next-db : (client : Client) (r : Router) → (write_next client r).db ≡ r.db
  unfolding write_next
  write_next-db client r = refl

  pub write_next-Good : (client : Client) (r : Router) → Good us r → Good us (write_next client r)
  write_next-Good client r g = record {
    users = rw write_next-db g.users;
    tables = rw write_next-db g.tables;
    online = write_next-AllKeys client r g.online;
    sound = write_next-IsSound client r g.sound;
  }

  connect-Good :
      (upgraded : Bool) (x : Result Stop String × Router)
      → Outcome (Good us) (λ u s. Good us s × (is_user u us ≡ true)) x
      → Good us (connect upgraded x).1
  connect-Good upgraded (err stop, s) h = h
  connect-Good false (ok u, s) h = h.0
  connect-Good true (ok u, s) h = register-Good u s h.1 h.0

  pub handle_ws-Good :
      (parse : ParseWithClaims) (secret : String) (req : Request) (env : Env) (upgraded : Bool)
      (r : Router)
      → Good us r
      → Good us (handle_ws parse secret req env upgraded r).1
  unfolding handle_ws
  handle_ws-Good parse secret req env upgraded r g =
      connect-Good upgraded (user_of parse secret req env r)
        (user_of-Good us parse secret req env r g)

  -- A frame is read on a connection of the user, who then is among the keys.
  pub ws_message-Good :
      (u : String) (body : Option SendMessageRequest) (env : Env) (r : Router) (cs : List Client)
      → lookup u r.clients ≡ some cs
      → Good us r
      → Good us (ws_message u body env r)
  unfolding ws_message
  ws_message-Good u none env r cs there g = g
  ws_message-Good u (some req) env r cs there g =
      let I = Good us in
      let who = AllKeys-lookup (λ k. is_user k us ≡ true) u r.clients there g.online in
      Outcome-state I (λ _. I) _
        (Outcome-and_then I (λ _. I) (λ _. I) (submit u req env r) _
          (submit-Good us u req env r who g)
          λ msg s h. or_500-Outcome I (λ _. I) (broadcast msg) s (broadcast-Good us msg s h))
        λ _ s h. h
