-- ===== src/Messaging/Handlers/History.antt =====
-- Who gets which messages from `HistoryHandler`.
use mathlib.Core.Path.{subst, subst₂}
use ziyad_messenger.Base.{ℕ, String, true, not, ◌≡◌, sym, ap, ◌∙◌, List, ◌==◌, arith}
use ziyad_messenger.Base.Http.{
  reply, status_bad_request, status_unauthorized, status_forbidden, status_not_found,
}
use ziyad_messenger.Protocol.{Message}
use ziyad_messenger.Messaging.Store.{Router, Error, Result, ok, guard}
use ziyad_messenger.Messaging.Store.Laws.{SameState, SameClients, and_then-eq-ok, query-eq-ok}
use ziyad_messenger.Messaging.Queries.{history_rows, select_history}
use ziyad_messenger.Messaging.Access.{
  ParseWithClaims, bearer_token, authenticate, authorize_channel_access, resolve_requested_channel,
}
use ziyad_messenger.Messaging.Access.Laws.{
  may_access, authorize-may_access, IsAuthentic, authenticate-IsAuthentic,
}
use ziyad_messenger.Messaging.Access.Resolve.{Resolved, resolve-Resolved}
use ziyad_messenger.Messaging.Handlers.{
  Request, Env, or_error, user_of, run_history, history_handler,
}
use ziyad_messenger.Messaging.Handlers.Laws.{
  respond-eq-reply, or_error-eq-ok, or_500-eq-ok, guard-eq-ok,
}

module _ (parse : ParseWithClaims) (secret : String) where
  -- Why somebody gets a channel's history: a valid token, a channel found for the request, and the
  -- right to it; the answer is that channel's history, and no message was touched.
  pub record HistoryGranted (req : Request) (env : Env) (r r' : Router) (rows : List Message)
      : Type 0 where
    pub user_id : String
    pub authentic :
        IsAuthentic parse secret env.now (bearer_token req.authorization req.token) user_id r.db
    pub channel_id : String
    pub resolved : Resolved user_id req.channel_id channel_id r.db r'.db
    pub allowed : may_access user_id channel_id r'.db ≡ true
    pub answer : rows ≡ history_rows channel_id r'.db.messages
    pub clients : r'.clients ≡ r.clients

  pub user_of-IsAuthentic :
      (req : Request) (env : Env) (r : Router) {user_id : String} {r' : Router}
      → user_of parse secret req env r ≡ (ok user_id, r')
      → IsAuthentic parse secret env.now (bearer_token req.authorization req.token) user_id r.db
        × SameState r r'
  unfolding user_of
  user_of-IsAuthentic req env r h =
      authenticate-IsAuthentic parse secret env.now req.authorization req.token r (
        or_error-eq-ok "unauthorized" status_unauthorized
          (authenticate parse secret env.now req.authorization req.token) r h)

  granted :
      (req : Request) (env : Env) (user_id channel_id : String) (r r₁ r₂ r₃ r₄ r' : Router)
      {rows : List Message}
      → IsAuthentic parse secret env.now (bearer_token req.authorization req.token) user_id r.db
        × SameState r r₁
      → r₂ ≡ r₁
      → Resolved user_id req.channel_id channel_id r₂.db r₃.db × SameClients r₂ r₃
      → (may_access user_id channel_id r₃.db ≡ true) × SameState r₃ r₄
      → ◌≡◌ {A = Result Error (List Message)}
          (ok (history_rows channel_id r₄.db.messages))
          (ok rows)
        × SameState r₄ r'
      → HistoryGranted req env r r' rows
  granted req env user_id channel_id r r₁ r₂ r₃ r₄ r' (who, s) e (found, c) (may, s')
        (answer, s'') =
      let last : r₃.db ≡ r'.db = sym (s''.db ∙ s'.db) in
      let first : r₂.db ≡ r.db = ap (λ q. q.db) e ∙ s.db in
      record {
        user_id = user_id;
        authentic = who;
        channel_id = channel_id;
        resolved = subst₂ (Resolved user_id req.channel_id channel_id) first last found;
        allowed = subst (λ d. may_access user_id channel_id d ≡ true) last may;
        answer = ground arith;
        clients = ground arith;
      }

  -- A history is given out only to an authenticated user, for a channel that exists and that the user
  -- may read, and it is the history of that channel.
  pub history-HistoryGranted :
      (req : Request) (env : Env) (r : Router) {code : ℕ} {rows : List Message} {r' : Router}
      → history_handler parse secret req env r ≡ (reply code rows, r')
      → (code ≡ 200) × HistoryGranted req env r r' rows
  unfolding history_handler run_history select_history
  history-HistoryGranted req env r {rows} {r'} h =
      let (fine, ran) = respond-eq-reply (run_history parse secret req env) r h in
      let (user_id, r₁, who, h₁) = and_then-eq-ok (user_of parse secret req env r) _ ran in
      let (_, r₂, given, h₂) =
        and_then-eq-ok
          (guard (not (req.channel_id == "")) ("missing channel_id", status_bad_request) r₁) _ h₁ in
      let (channel_id, r₃, found, h₃) =
        and_then-eq-ok
          (or_error "channel not found" status_not_found
            (resolve_requested_channel user_id req.channel_id) r₂)
          _ h₂ in
      let (_, r₄, may, h₄) =
        and_then-eq-ok
          (or_error "forbidden" status_forbidden (authorize_channel_access user_id channel_id) r₃) _
          h₃ in
      (
        fine,
        granted req env user_id channel_id r r₁ r₂ r₃ r₄ r' (user_of-IsAuthentic req env r who)
            (guard-eq-ok (not (req.channel_id == "")) ("missing channel_id", status_bad_request) r₁
              given).1
            (resolve-Resolved user_id req.channel_id r₂ (
              or_error-eq-ok "channel not found" status_not_found
                (resolve_requested_channel user_id req.channel_id) r₂ found))
            (authorize-may_access user_id channel_id r₃ r₄ (
              or_error-eq-ok "forbidden" status_forbidden
                (authorize_channel_access user_id channel_id) r₃ may))
            (query-eq-ok (λ d. ok (history_rows channel_id d.messages)) r₄
              (or_500-eq-ok (select_history channel_id) r₄ h₄)),
      )
