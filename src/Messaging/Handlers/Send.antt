-- ===== src/Messaging/Handlers/Send.antt =====
-- What `submit` and the /send handler store, and what they leave alone.
use ziyad_messenger.Base.{
  String, true, false, ◌≡◌, refl, ap, ◌∙◌, inl, inr, [], ◌∷◌, ◌++◌, ◌==◌, arith, any,
}
use ziyad_messenger.Base.Http.{status_forbidden, status_not_found}
use ziyad_messenger.Protocol.{Message, SendMessageRequest}
use ziyad_messenger.Messaging.Store.{Db, Router, Error, ok, err, M, and_then, exec, return}
use ziyad_messenger.Messaging.Store.Laws.{
  SameState, SameClients, SameClients-trans, SameState-SameClients, and_then-eq-ok, and_then-eq-err,
  exec-eq-ok,
}
use ziyad_messenger.Messaging.Queries.{insert_message}
use ziyad_messenger.Messaging.Access.{authorize_channel_access, resolve_requested_channel}
use ziyad_messenger.Messaging.Access.Laws.{may_access, authorize-may_access, authorize-SameState}
use ziyad_messenger.Messaging.Access.Resolve.{
  Resolved, resolve-Resolved, resolve-eq-err, Resolved-messages,
}
use ziyad_messenger.Messaging.Handlers.{
  Env, Stop, or_error, or_500, new_message, persisting, save_message, submit,
}
use ziyad_messenger.Messaging.Handlers.Laws.{
  or_error-eq-ok, or_500-eq-ok, or_error-eq-err, or_500-eq-err,
}

-- A stored message: its channel was found for the request and is open to the sender; it carries the
-- sender's id and the request's content, it is new, and it is the last of the table; nothing but it,
-- and the DM channel that the request may have made, was added.
pub record Submitted (user_id : String) (req : SendMessageRequest) (env : Env) (r r' : Router)
    (msg : Message) : Type 0 where
  pub between : Db
  pub resolved : Resolved user_id req.channel_id msg.channel_id r.db between
  pub allowed : may_access user_id msg.channel_id between ≡ true
  pub built : msg ≡ new_message req user_id msg.channel_id env
  pub fresh : any (λ (m : Message). m.id == msg.id) between.messages ≡ false
  pub stored : r'.db ≡ record between { messages = between.messages ++ msg ∷ [] }
  pub clients : SameClients r r'

persisting-eq-ok :
    {A : Type 0} (m : M Error A) (r : Router) {a : A} {r' : Router}
    → persisting m r ≡ (ok a, r')
    → m r ≡ (ok a, r')
persisting-eq-ok m r h = ground arith

pub save_message-eq-ok :
    (req : SendMessageRequest) (user_id channel_id : String) (env : Env) (r : Router)
    {msg : Message} {r' : Router}
    → save_message req user_id channel_id env r ≡ (ok msg, r')
    → (msg ≡ new_message req user_id channel_id env)
      × (any (λ (m : Message). m.id == env.uuid) r.db.messages ≡ false)
      × (r'.db
          ≡ record r.db { messages = r.db.messages ++ new_message req user_id channel_id env ∷ [] })
      × SameClients r r'
unfolding save_message insert_message
save_message-eq-ok req user_id channel_id env r h =
    let msg = new_message req user_id channel_id env in
    let (_, q, wrote, end) =
      and_then-eq-ok (exec (insert_message msg) r) _
        (persisting-eq-ok (λ r. and_then (exec (insert_message msg) r) λ _. return msg) r h) in
    let (put, same) = exec-eq-ok (insert_message msg) r wrote in
    (ground arith, ground (arith, put), ground (arith, put), ground (arith, same))

submitted :
    (user_id channel_id : String) (req : SendMessageRequest) (env : Env) (r r₁ r₂ r' : Router)
    {msg : Message}
    → Resolved user_id req.channel_id channel_id r.db r₁.db × SameClients r r₁
    → (may_access user_id channel_id r₁.db ≡ true) × SameState r₁ r₂
    → (msg ≡ new_message req user_id channel_id env)
      × (any (λ (m : Message). m.id == env.uuid) r₂.db.messages ≡ false)
      × (r'.db ≡ record r₂.db {
        messages = r₂.db.messages ++ new_message req user_id channel_id env ∷ [];
      })
      × SameClients r₂ r'
    → Submitted user_id req env r r' msg
unfolding new_message
submitted user_id channel_id req env r r₁ r₂ r' (found, c) (may, s) (built, fresh, stored, c') =
    record {
      between = r₁.db;
      resolved = rw built found;
      allowed = rw built may;
      built = rw built refl;
      fresh = ground arith;
      stored = ground arith;
      clients = SameClients-trans c (SameClients-trans (SameState-SameClients s) c');
    }

-- A message is stored only in a channel that was found for the request and is open to its sender.
pub submit-Submitted :
    (user_id : String) (req : SendMessageRequest) (env : Env) (r : Router) {msg : Message}
    {r' : Router}
    → submit user_id req env r ≡ (ok msg, r')
    → Submitted user_id req env r r' msg
unfolding submit
submit-Submitted user_id req env r {r'} h =
    let (channel_id, r₁, found, h₁) =
      and_then-eq-ok
        (or_error "channel not found" status_not_found
          (resolve_requested_channel user_id req.channel_id) r)
        _ h in
    let (_, r₂, may, h₂) =
      and_then-eq-ok
        (or_error "forbidden" status_forbidden (authorize_channel_access user_id channel_id) r₁) _
        h₁ in
    submitted user_id channel_id req env r r₁ r₂ r'
      (resolve-Resolved user_id req.channel_id r (
        or_error-eq-ok "channel not found" status_not_found
          (resolve_requested_channel user_id req.channel_id) r found))
      (authorize-may_access user_id channel_id r₁ r₂ (
        or_error-eq-ok "forbidden" status_forbidden (authorize_channel_access user_id channel_id) r₁
          may))
      (save_message-eq-ok req user_id channel_id env r₂
        (or_500-eq-ok (save_message req user_id channel_id env) r₂ h₂))

pub save_message-eq-err :
    (req : SendMessageRequest) (user_id channel_id : String) (env : Env) (r : Router) {e : Error}
    {r' : Router}
    → save_message req user_id channel_id env r ≡ (err e, r')
    → r'.db ≡ r.db
unfolding save_message exec
save_message-eq-err req user_id channel_id env r h = ground arith

-- Behind the search for the channel.
unstored :
    (user_id channel_id : String) (req : SendMessageRequest) (env : Env) (r : Router) {stop : Stop}
    {r' : Router}
    → and_then
        (or_error "forbidden" status_forbidden (authorize_channel_access user_id channel_id) r)
        (λ _. or_500 (save_message req user_id channel_id env))
      ≡ (err stop, r')
    → r'.db.messages ≡ r.db.messages
unstored user_id channel_id req env r h =
    let check = authorize_channel_access user_id channel_id in
    elim (and_then-eq-err (or_error "forbidden" status_forbidden check r) _ h) [
      | inl e ↦ ground (arith, authorize-SameState user_id channel_id r)
      | inr (_, q, may, h₁) ↦
          let (e, failed) = or_500-eq-err (save_message req user_id channel_id env) q h₁ in
          ap (λ d. d.messages) (save_message-eq-err req user_id channel_id env q failed)
          ∙ ground (arith, authorize-SameState user_id channel_id r)
    ]

-- A call that stores no message leaves the messages as they were.
pub submit-eq-err :
    (user_id : String) (req : SendMessageRequest) (env : Env) (r : Router) {stop : Stop}
    {r' : Router}
    → submit user_id req env r ≡ (err stop, r')
    → r'.db.messages ≡ r.db.messages
unfolding submit
submit-eq-err user_id req env r h =
    let find = resolve_requested_channel user_id req.channel_id in
    elim (and_then-eq-err (or_error "channel not found" status_not_found find r) _ h) [
      | inl e ↦
          let (_, failed) = or_error-eq-err "channel not found" status_not_found find r e in
          ap (λ d. d.messages) (resolve-eq-err user_id req.channel_id r failed)
      | inr (channel_id, r₁, found, h₁) ↦
          unstored user_id channel_id req env r₁ h₁
          ∙ Resolved-messages
              (resolve-Resolved user_id req.channel_id r
                (or_error-eq-ok "channel not found" status_not_found find r found)).0
    ]
