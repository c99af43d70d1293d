-- ===== src/Messaging/Handlers/Sent.antt =====
-- What the /send handler has done when it answers.
use mathlib.Core.Path.{subst}
use ziyad_messenger.Base.{ℕ, String, true, ◌≡◌, sym, ap, ◌∙◌, some, arith, ◌==◌}
use ziyad_messenger.Base.Http.{reply, status_method_not_allowed}
use ziyad_messenger.Protocol.{Message, SendMessageRequest, SendMessageResponse}
use ziyad_messenger.Messaging.Store.{Router, Result, ok, err}
use ziyad_messenger.Messaging.Store.Laws.{SameState, and_then-eq-ok}
use ziyad_messenger.Messaging.Queries.{channel_type_row}
use ziyad_messenger.Messaging.Queries.Keys.{IsKeyed}
use ziyad_messenger.Messaging.Access.{ParseWithClaims, bearer_token}
use ziyad_messenger.Messaging.Access.Laws.{IsAuthentic}
use ziyad_messenger.Messaging.Clients.{broadcast}
use ziyad_messenger.Messaging.Clients.Delivery.{
  IsDelivered, broadcast-tables, broadcast-IsDelivered,
}
use ziyad_messenger.Messaging.Handlers.{
  Request, Env, Stop, method_is, body_or_stop, or_500, user_of, submit, run_send, send_handler,
}
use ziyad_messenger.Messaging.Handlers.Laws.{respond-eq-reply, or_500-eq-ok, guard-eq-ok}
use ziyad_messenger.Messaging.Handlers.History.{user_of-IsAuthentic}
use ziyad_messenger.Messaging.Handlers.Send.{Submitted, submit-Submitted}

body_or_stop-eq-ok :
    {A : Type 0} (body : Result String A) (r : Router) {a : A} {r' : Router}
    → body_or_stop body r ≡ (ok a, r')
    → (body ≡ ok a) × (r' ≡ r)
body_or_stop-eq-ok (ok b) r h = ground arith
body_or_stop-eq-ok (err text) r h = cc

module _ (parse : ParseWithClaims) (secret : String) where
  -- A sender with a valid token has stored the message of the request, and it was broadcast.
  pub record SendGranted (req : Request) (body : Result String SendMessageRequest) (env : Env)
      (r r' : Router) (response : SendMessageResponse) : Type 0 where
    pub msg_req : SendMessageRequest
    pub decoded : body ≡ ok msg_req
    pub sender_id : String
    pub authentic :
        IsAuthentic parse secret env.now (bearer_token req.authorization req.token) sender_id r.db
    pub msg : Message
    pub stored : Router
    pub submitted : Submitted sender_id msg_req env r stored msg
    pub type : String
    pub typed : channel_type_row msg.channel_id stored.db ≡ some type
    pub delivered : (u : String) → IsDelivered msg type stored r' u
    pub tables : r'.db ≡ stored.db
    pub answer : response ≡ record { message_id = msg.id; success = true; error = "" }

  transport :
      (user_id : String) (req : SendMessageRequest) (env : Env) (r q q' : Router) {msg : Message}
      → SameState r q
      → Submitted user_id req env q q' msg
      → Submitted user_id req env r q' msg
  transport user_id req env r q q' same s = record {
    between = s.between;
    resolved = rw (← same.db) s.resolved;
    allowed = s.allowed;
    built = s.built;
    fresh = s.fresh;
    stored = s.stored;
    clients = ground (arith, s.clients, same);
  }

  granted_send :
      (req : Request) (body : Result String SendMessageRequest) (env : Env)
      (r r₀ r₁ r₂ r₃ r₄ r' : Router) (msg_req : SendMessageRequest) (sender_id : String)
      (msg : Message) {response : SendMessageResponse}
      → (req.method == "POST" ≡ true) × (r₀ ≡ r)
      → (body ≡ ok msg_req) × (r₁ ≡ r₀)
      → IsAuthentic parse secret env.now (bearer_token req.authorization req.token) sender_id r₁.db
        × SameState r₁ r₂
      → Submitted sender_id msg_req env r₂ r₃ msg
      → broadcast msg r₃ ≡ (ok tt, r₄)
      → IsKeyed r'.db.channel_members
      → ◌≡◌ {A = Result Stop SendMessageResponse × Router}
          (ok (record { message_id = msg.id; success = true; error = "" }), r₄)
          (ok response, r')
      → SendGranted req body env r r' response
  granted_send req body env r r₀ r₁ r₂ r₃ r₄ r' msg_req sender_id msg (_, e₀) (decoded, e₁)
        (who, same) put told keyed end =
      let same₀ : r₁ ≡ r = e₁ ∙ e₀ in
      let last : r₄ ≡ r' = ap (λ p. p.1) end in
      let tables : r'.db ≡ r₃.db = ap (λ q. q.db) (sym last) ∙ broadcast-tables msg r₃ told in
      let (type, typed, _, delivered) =
        broadcast-IsDelivered msg r₃ (subst (λ d. IsKeyed d.channel_members) tables keyed) told in
      record {
        msg_req = msg_req;
        decoded = decoded;
        sender_id = sender_id;
        authentic =
            subst
              (λ q.
                IsAuthentic parse secret env.now (bearer_token req.authorization req.token)
                  sender_id q.db)
              same₀ who;
        msg = msg;
        stored = r₃;
        submitted =
            subst (λ q. Submitted sender_id msg_req env q r₃ msg) same₀
              (transport sender_id msg_req env r₁ r₂ r₃ same put);
        type = type;
        typed = typed;
        delivered = subst (λ q. (u : String) → IsDelivered msg type r₃ q u) last delivered;
        tables = tables;
        answer = ground arith;
      }

  -- The /send handler answers 200 only if the sender's token is valid, the message is stored in a
  -- channel that was found for the request and is open to the sender, and the broadcast has offered
  -- it to those who may read the channel; the answer carries the stored message's id. The table of
  -- members has its primary key.
  pub send-SendGranted :
      (req : Request) (body : Result String SendMessageRequest) (env : Env) (r : Router) {code : ℕ}
      {response : SendMessageResponse} {r' : Router}
      → send_handler parse secret req body env r ≡ (reply code response, r')
      → IsKeyed r'.db.channel_members
      → (code ≡ 200) × SendGranted req body env r r' response
  unfolding send_handler run_send
  send-SendGranted req body env r {response} {r'} h keyed =
      let (fine, ran) = respond-eq-reply (run_send parse secret req body env) r h in
      let (_, r₀, posted, h₀) = and_then-eq-ok (method_is "POST" req.method r) _ ran in
      let (msg_req, r₁, read, h₁) = and_then-eq-ok (body_or_stop body r₀) _ h₀ in
      let (sender_id, r₂, who, h₂) = and_then-eq-ok (user_of parse secret req env r₁) _ h₁ in
      let (msg, r₃, put, h₃) = and_then-eq-ok (submit sender_id msg_req env r₂) _ h₂ in
      let (_, r₄, told, end) = and_then-eq-ok (or_500 (broadcast msg) r₃) _ h₃ in
      (
        fine,
        granted_send req body env r r₀ r₁ r₂ r₃ r₄ r' msg_req sender_id msg
            (guard-eq-ok (req.method == "POST") ("Method not allowed", status_method_not_allowed) r
              posted)
            (body_or_stop-eq-ok body r₀ read) (user_of-IsAuthentic parse secret req env r₁ who)
            (submit-Submitted sender_id msg_req env r₂ put) (or_500-eq-ok (broadcast msg) r₃ told)
            keyed end,
      )
