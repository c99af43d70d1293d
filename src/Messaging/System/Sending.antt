-- ===== src/Messaging/System/Sending.antt =====
-- What sending a message keeps of the router's state.
use mathlib.Core.Path.{subst}
use ziyad_messenger.Base.{ℕ, String, true, ◌≡◌, ap, List, Option, none, some, arith}
use ziyad_messenger.Base.State.Outcomes.{Outcome, Outcome-and_then, Outcome-cases, Outcome-mono}
use ziyad_messenger.Base.Http.{status_forbidden, status_not_found}
use ziyad_messenger.Protocol.{Message, SendMessageRequest}
use ziyad_messenger.Messaging.Store.{User, Db, Router, Error, Result, ok, err, M, query, exec}
use ziyad_messenger.Messaging.Store.Laws.{SameState, SameClients}
use ziyad_messenger.Messaging.Queries.{get_channel_type, get_channel_members}
use ziyad_messenger.Messaging.Access.{authorize_channel_access, resolve_requested_channel}
use ziyad_messenger.Messaging.Clients.{deliver, broadcast}
use ziyad_messenger.Messaging.Clients.Laws.{deliver-IsSound}
use ziyad_messenger.Messaging.Handlers.{
  Env, Stop, stop_with, stop_text, or_error, or_500, decoded, body_or_stop, new_message,
  save_message, submit,
}
use ziyad_messenger.Messaging.Handlers.Send.{save_message-eq-ok, save_message-eq-err}
use ziyad_messenger.Messaging.System.Tables.{is_channel, is_user, message-IsConsistent}
use ziyad_messenger.Messaging.System.Lookups.{deliver-AllKeys}
use ziyad_messenger.Messaging.System.Operations.{
  Good, IsGood-same, IsGood-tables, unchanged, query-Good, authorize-Good, resolve-Good,
}

module _ (I : Router → Type 0) where
  stop_with-Outcome :
      {A : Type 0} (Q : A → Router → Type 0) (stop : Stop) (x : Result Error A × Router)
      → Outcome I Q x
      → Outcome I Q (stop_with stop x.0, x.1)
  stop_with-Outcome Q stop (ok a, s) h = h
  stop_with-Outcome Q stop (err e, s) h = h

  stop_text-Outcome :
      {A : Type 0} (Q : A → Router → Type 0) (x : Result Error A × Router)
      → Outcome I Q x
      → Outcome I Q (stop_text x.0, x.1)
  stop_text-Outcome Q (ok a, s) h = h
  stop_text-Outcome Q (err e, s) h = h

  -- The handlers' bodies, as they stop with an error's text.
  pub or_error-Outcome :
      {A : Type 0} (Q : A → Router → Type 0) (text : String) (code : ℕ) (m : M Error A) (r : Router)
      → Outcome I Q (m r)
      → Outcome I Q (or_error text code m r)
  or_error-Outcome Q text code m r h = stop_with-Outcome Q (text, code) (m r) h

  pub or_500-Outcome :
      {A : Type 0} (Q : A → Router → Type 0) (m : M Error A) (r : Router)
      → Outcome I Q (m r)
      → Outcome I Q (or_500 m r)
  or_500-Outcome Q m r h = stop_text-Outcome Q (m r) h

  pub body_or_stop-Outcome :
      {A : Type 0} (body : Result String A) (r : Router)
      → I r
      → Outcome I (λ _. I) (body_or_stop body r)
  body_or_stop-Outcome (ok a) r h = h
  body_or_stop-Outcome (err text) r h = h

  pub decoded-Outcome :
      {A : Type 0} (text : String) (body : Option A) (r : Router)
      → I r
      → Outcome I (λ _. I) (decoded text body r)
  decoded-Outcome text none r h = h
  decoded-Outcome text (some a) r h = h

get_channel_members-SameState : (c : String) (r : Router) → SameState r (get_channel_members c r).1
unfolding get_channel_members get_channel_type query
get_channel_members-SameState c r = ground arith

save_message-SameClients :
    (req : SendMessageRequest) (u c : String) (env : Env) (r : Router)
    → SameClients r (save_message req u c env r).1
unfolding save_message exec
save_message-SameClients req u c env r = ground arith

module _ (us : List User) where
  abbrev pub Kept : {E A : Type 0} → Result E A × Router → Type 0
  Kept = Outcome (Good us) (λ _. Good us)

  -- A read at the end of a handler.
  pub read-Good :
      {A : Type 0} (q : Db → Result Error A) (r : Router) → Good us r → Kept (or_500 (query q) r)
  read-Good q r g =
      or_500-Outcome (Good us) (λ _. Good us) (query q) r
        (Outcome-mono (Good us) (λ a s. Good us s × (q s.db ≡ ok a)) (λ _. Good us) (query q r)
          (query-Good us q r g) λ a s h. h.0)

  deliver-Good :
      (members : List String) (t : String) (msg : Message) (r : Router)
      → Good us r
      → Good us (record r { clients = deliver members t msg r.clients })
  deliver-Good members t msg r g = record {
    users = g.users;
    tables = g.tables;
    online = deliver-AllKeys (λ u. is_user u us ≡ true) members t msg r.clients g.online;
    sound = deliver-IsSound members t msg r g.sound;
  }

  same-Kept :
      {E A : Type 0} (r : Router) (x : Result E A × Router) → SameState r x.1 → Good us r → Kept x
  same-Kept r (ok a, s) same g = IsGood-same us same g
  same-Kept r (err e, s) same g = IsGood-same us same g

  pub broadcast-Good : (msg : Message) (r : Router) → Good us r → Kept (broadcast msg r)
  unfolding broadcast
  broadcast-Good msg r g =
      Outcome-and_then (Good us) (λ _. Good us) (λ _. Good us)
        (get_channel_members msg.channel_id r) _
        (same-Kept r _ (get_channel_members-SameState msg.channel_id r) g)
        λ (members, t) s h. deliver-Good members t msg s h

  save_message-Good :
      (req : SendMessageRequest) (u c : String) (env : Env) (r : Router)
      → is_user u us ≡ true
      → is_channel c r.db.channels ≡ true
      → Good us r
      → Kept (save_message req u c env r)
  unfolding new_message
  save_message-Good req u c env r who where_to g =
      Outcome-cases (Good us) (λ _. Good us) (save_message req u c env r)
        (λ msg s e.
          let (_, fresh, stored, same) = save_message-eq-ok req u c env r e in
          IsGood-tables us same (ap (λ d. d.users) stored)
            (rw stored (
              message-IsConsistent (new_message req u c env) r.db fresh (where_to, rw g.users who)
                g.tables))
            g)
        λ e s h.
          unchanged us
            (subst (SameClients r) (ap (λ p. p.1) h) (save_message-SameClients req u c env r))
            (save_message-eq-err req u c env r h) g

  pub resolved-Good :
      (u c : String) (r : Router)
      → is_user u us ≡ true
      → Good us r
      → Kept (or_error "channel not found" status_not_found (resolve_requested_channel u c) r)
  resolved-Good u c r who g =
      or_error-Outcome (Good us) (λ _. Good us) "channel not found" status_not_found
        (resolve_requested_channel u c) r (resolve-Good us u c r who g)

  pub authorized-Good :
      (u c : String) (r : Router)
      → Good us r
      → Outcome
          (Good us)
          (λ _ s. Good us s × (is_channel c s.db.channels ≡ true))
          (or_error "forbidden" status_forbidden (authorize_channel_access u c) r)
  authorized-Good u c r g =
      or_error-Outcome (Good us) (λ _ s. Good us s × (is_channel c s.db.channels ≡ true))
        "forbidden" status_forbidden (authorize_channel_access u c) r (authorize-Good us u c r g)

  -- The check of the right, where the channel's existence does not matter.
  pub checked-Good :
      (u c : String) (r : Router)
      → Good us r
      → Kept (or_error "forbidden" status_forbidden (authorize_channel_access u c) r)
  checked-Good u c r g =
      Outcome-mono (Good us) (λ _ s. Good us s × (is_channel c s.db.channels ≡ true)) (λ _. Good us)
        (or_error "forbidden" status_forbidden (authorize_channel_access u c) r)
        (authorized-Good u c r g) λ _ _ h. h.0

  pub submit-Good :
      (u : String) (req : SendMessageRequest) (env : Env) (r : Router)
      → is_user u us ≡ true
      → Good us r
      → Kept (submit u req env r)
  unfolding submit
  submit-Good u req env r who g =
      let I = Good us in
      Outcome-and_then I (λ _. I) (λ _. I)
        (or_error "channel not found" status_not_found (resolve_requested_channel u req.channel_id)
          r)
        _ (resolved-Good u req.channel_id r who g)
        λ c s g₁.
          Outcome-and_then I (λ _ t. I t × (is_channel c t.db.channels ≡ true)) (λ _. I)
            (or_error "forbidden" status_forbidden (authorize_channel_access u c) s) _
            (authorized-Good u c s g₁)
            λ _ t (g₂, there).
              or_500-Outcome I (λ _. I) (save_message req u c env) t
                (save_message-Good req u c env t who there g₂)
