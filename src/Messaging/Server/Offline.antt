-- ===== src/Messaging/Server/Offline.antt =====
-- Who is online behind the mux. `Upgrade` needs an http.Hijacker, and the tracing hides it.
use ziyad_messenger.Base.{
  String, Bool, true, false, not, ◌≡◌, refl, ap, ◌∙◌, List, [], ◌∷◌, All, Option, none, some, ◌==◌,
  arith,
}
use ziyad_messenger.Base.State.Laws.{Keeps, Keeps-bind, Keeps-seq}
use ziyad_messenger.Base.Assoc.{lookup}
use ziyad_messenger.Base.Http.{
  status_bad_request, status_forbidden, status_not_found, status_method_not_allowed,
}
use ziyad_messenger.Services.{Call, serve_plain_all}
use ziyad_messenger.Services.Invariants.{serve_plain_all-keeps}
use ziyad_messenger.Protocol.{Message, SendMessageRequest}
use ziyad_messenger.Messaging.Store.{
  Db, Router, Error, Result, ok, err, ◌>>=◌, ◌>>◌, guard, query, exec,
}
use ziyad_messenger.Messaging.Store.Laws.{SameClients}
use ziyad_messenger.Messaging.Queries.{
  user_exists, get_channel_members, get_channel_type, list_accessible_channels,
  list_channel_members, select_history,
}
use ziyad_messenger.Messaging.Dm.{find_or_create_dm_channel}
use ziyad_messenger.Messaging.Access.{
  ParseWithClaims, authorize_channel_access, resolve_requested_channel,
}
use ziyad_messenger.Messaging.Access.Laws.{authenticate-SameState, authorize-SameState}
use ziyad_messenger.Messaging.Clients.{to_all, to_members, deliver, broadcast}
use ziyad_messenger.Messaging.Handlers.{
  Env, Stop, or_error, or_500, decoded, body_or_stop, save_message, submit, method_is, user_of,
  run_history, run_channels, run_channel_members, run_create_dm, run_send, history_handler,
  channels_handler, channel_members_handler, create_dm_handler, send_handler, handle_ws, connect,
}
use ziyad_messenger.Messaging.System.Calls.{find_or_create-SameClients, resolve-SameClients}
use ziyad_messenger.Messaging.Server.{Upgrade, Outside, read_request, messaging_service}

-- Nobody who was not there has come.
abbrev StaysEmpty : Router → Router → Type 0
StaysEmpty r r' = r.clients ≡ [] → r'.clients ≡ []

StaysEmpty-trans : (a b c : Router) → StaysEmpty a b → StaysEmpty b c → StaysEmpty a c
StaysEmpty-trans a b c h k e = k (h e)

SameClients-StaysEmpty : {r r' : Router} → SameClients r r' → StaysEmpty r r'
SameClients-StaysEmpty s e = s.clients ∙ e

abbrev Quiet : {E A : Type 0} → (Router → Result E A × Router) → Type 0
Quiet m = Keeps StaysEmpty m

bind :
    {E A B : Type 0} (m : Router → Result E A × Router) (f : A → Router → Result E B × Router)
    → Quiet m
    → ((a : A) → Quiet (f a))
    → Quiet (m >>= f)
bind m f = Keeps-bind StaysEmpty StaysEmpty-trans m f

seq :
    {E B : Type 0} (m : Router → Result E (Unit {0}) × Router) (k : Router → Result E B × Router)
    → Quiet m
    → Quiet k
    → Quiet (m >> k)
seq m k = Keeps-seq StaysEmpty StaysEmpty-trans m k

guard-Quiet : {E : Type 0} (b : Bool) (e : E) → Quiet (guard b e)
guard-Quiet true e r h = h
guard-Quiet false e r h = h

query-Quiet : {A : Type 0} (q : Db → Result Error A) → Quiet (query q)
unfolding query
query-Quiet q r h = h

resolve-Quiet : (u c : String) → Quiet (resolve_requested_channel u c)
resolve-Quiet u c r = SameClients-StaysEmpty (resolve-SameClients u c r)

authorize-Quiet : (u c : String) → Quiet (authorize_channel_access u c)
authorize-Quiet u c r e = (authorize-SameState u c r).clients ∙ e

to_members-empty : (us : List String) (msg : Message) → to_members us msg [] ≡ []
unfolding to_members lookup
to_members-empty [] msg = refl
to_members-empty (u ∷ us) msg = to_members-empty us msg

deliver-empty : (us : List String) (t : String) (msg : Message) → deliver us t msg [] ≡ []
unfolding deliver to_all
deliver-empty us t msg = ground (arith, to_members-empty us msg)

get_channel_members-Quiet : (c : String) → Quiet (get_channel_members c)
unfolding get_channel_members get_channel_type query
get_channel_members-Quiet c r e = ground arith

broadcast-Quiet : (msg : Message) → Quiet (broadcast msg)
unfolding broadcast
broadcast-Quiet msg =
    bind (get_channel_members msg.channel_id) _ (get_channel_members-Quiet msg.channel_id)
      λ (us, t) r e. ap (deliver us t msg) e ∙ deliver-empty us t msg

submit-Quiet : (u : String) (req : SendMessageRequest) (env : Env) → Quiet (submit u req env)
unfolding submit save_message exec
submit-Quiet u req env =
    bind
      (or_error "channel not found" status_not_found (resolve_requested_channel u req.channel_id)) _
      (resolve-Quiet u req.channel_id)
      λ c.
        seq (or_error "forbidden" status_forbidden (authorize_channel_access u c)) _
          (authorize-Quiet u c) λ r e. ground arith

method-Quiet : (expected method : String) → Quiet (method_is expected method)
method-Quiet expected method =
    guard-Quiet (method == expected) ("Method not allowed", status_method_not_allowed)

decoded-Quiet : {A : Type 0} (body : Option A) → Quiet (decoded "invalid request" body)
decoded-Quiet none r e = e
decoded-Quiet (some a) r e = e

body-Quiet : {A : Type 0} (body : Result String A) → Quiet (body_or_stop body)
body-Quiet (ok a) r e = e
body-Quiet (err text) r e = e

find_or_create-Quiet : (u v : String) → Quiet (find_or_create_dm_channel u v)
find_or_create-Quiet u v r = SameClients-StaysEmpty (find_or_create-SameClients u v r)

module _ (parse : ParseWithClaims) (secret : String) where
  user_of-Quiet :
      (req : ziyad_messenger.Messaging.Handlers.Request) (env : Env)
      → Quiet (user_of parse secret req env)
  unfolding user_of
  user_of-Quiet req env r e =
      (authenticate-SameState parse secret env.now req.authorization req.token r).clients ∙ e

  history-Quiet :
      (req : ziyad_messenger.Messaging.Handlers.Request) (env : Env)
      → Quiet (run_history parse secret req env)
  unfolding run_history select_history
  history-Quiet req env = bind (user_of parse secret req env) _ (user_of-Quiet req env) λ u.
      seq (guard (not (req.channel_id == "")) ("missing channel_id", status_bad_request)) _
        (guard-Quiet (not (req.channel_id == "")) ("missing channel_id", status_bad_request))
        (bind
          (or_error "channel not found" status_not_found
            (resolve_requested_channel u req.channel_id))
          _ (resolve-Quiet u req.channel_id)
          λ c.
            seq (or_error "forbidden" status_forbidden (authorize_channel_access u c)) _
              (authorize-Quiet u c) (query-Quiet _))

  channels-Quiet :
      (req : ziyad_messenger.Messaging.Handlers.Request) (env : Env)
      → Quiet (run_channels parse secret req env)
  unfolding run_channels list_accessible_channels
  channels-Quiet req env =
      seq (method_is "GET" req.method) _ (method-Quiet "GET" req.method)
        (bind (user_of parse secret req env) _ (user_of-Quiet req env) λ u. query-Quiet _)

  channel_members-Quiet :
      (req : ziyad_messenger.Messaging.Handlers.Request) (env : Env)
      → Quiet (run_channel_members parse secret req env)
  unfolding run_channel_members list_channel_members
  channel_members-Quiet req env =
      seq (method_is "GET" req.method) _ (method-Quiet "GET" req.method) (
        bind (user_of parse secret req env) _ (user_of-Quiet req env) λ u.
          seq (guard (not (req.channel_id == "")) ("missing channel_id", status_bad_request)) _
            (guard-Quiet (not (req.channel_id == "")) ("missing channel_id", status_bad_request))
            (seq (or_error "forbidden" status_forbidden (authorize_channel_access u req.channel_id))
              _ (authorize-Quiet u req.channel_id) (query-Quiet _)))

  create_dm-Quiet :
      (req : ziyad_messenger.Messaging.Handlers.Request) (body : Option String) (env : Env)
      → Quiet (run_create_dm parse secret req body env)
  unfolding run_create_dm user_exists
  create_dm-Quiet req body env =
      seq (method_is "POST" req.method) _ (method-Quiet "POST" req.method) (
        bind (user_of parse secret req env) _ (user_of-Quiet req env) λ u.
          bind (decoded "invalid request" body) _ (decoded-Quiet body) λ target.
            seq (guard (not (target == "")) ("missing target_user_id", status_bad_request)) _
              (guard-Quiet (not (target == "")) ("missing target_user_id", status_bad_request))
              (seq (guard (not (target == u)) ("invalid target", status_bad_request)) _
                (guard-Quiet (not (target == u)) ("invalid target", status_bad_request))
                (bind (or_500 (user_exists target)) _ (query-Quiet _) λ exists.
                  seq (guard exists ("target user not found", status_not_found)) _
                    (guard-Quiet exists ("target user not found", status_not_found))
                    (find_or_create-Quiet u target))))

  send-Quiet :
      (req : ziyad_messenger.Messaging.Handlers.Request) (body : Result String SendMessageRequest)
      (env : Env)
      → Quiet (run_send parse secret req body env)
  unfolding run_send
  send-Quiet req body env = seq (method_is "POST" req.method) _ (method-Quiet "POST" req.method) (
      bind (body_or_stop body) _ (body-Quiet body) λ msg_req.
        bind (user_of parse secret req env) _ (user_of-Quiet req env) λ u.
          bind (submit u msg_req env) _ (submit-Quiet u msg_req env)
            λ msg. seq (or_500 (broadcast msg)) _ (broadcast-Quiet msg) λ r e. e)

  connect-Quiet :
      (x : Result Stop String × Router) → x.1.clients ≡ [] → (connect false x).1.clients ≡ []
  connect-Quiet (err stop, r) e = e
  connect-Quiet (ok u, r) e = e

  module _ (upgrade : Upgrade) (stop : Stop) where
    -- Where the library refuses to take over a connection whose writer is no http.Hijacker, as it
    -- documents, no requests to the server of the messaging service ever bring a client online: from a
    -- router without clients it stays without, and no message reaches anyone over a WebSocket.
    pub serve_plain_all-IsOffline :
        (cs : List (Call Outside)) (r : Router)
        → upgrade false ≡ some stop
        → r.clients ≡ []
        → (serve_plain_all (messaging_service parse secret upgrade) cs r).clients ≡ []
    unfolding messaging_service handle_ws history_handler channels_handler channel_members_handler
        create_dm_handler send_handler
    serve_plain_all-IsOffline cs r refused e =
        serve_plain_all-keeps (λ _. Unit {0}) (λ s. s.clients ≡ [])
          (messaging_service parse secret upgrade) cs r
          (
            (λ p req s _ h.
                rw refused (connect-Quiet _ (user_of-Quiet (read_request p req) p.env s h))),
            (
              (λ p req s _ h. history-Quiet (read_request p req) p.env s h),
              (
                (λ p req s _ h. channels-Quiet (read_request p req) p.env s h),
                (
                  (λ p req s _ h. channel_members-Quiet (read_request p req) p.env s h),
                  (
                    (λ p req s _ h.
                        create_dm-Quiet (read_request p req) p.target_user_id p.env s h),
                    (
                      (λ p req s _ h. h),
                      ((λ p req s _ h. send-Quiet (read_request p req) p.send p.env s h), tt),
                    ),
                  ),
                ),
              ),
            ),
          )
          (always cs) e
      where
        always : (cs : List (Call Outside)) → All (λ c. Unit {0}) cs
        always [] = tt
        always (c ∷ cs) = (tt, always cs)
