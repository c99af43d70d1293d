-- ===== src/Messaging/System/Requests.antt =====
-- What the HTTP handlers keep of the router's state.
use ziyad_messenger.Base.{String, List, Bool, true, not, ◌≡◌, ◌∙◌, Option, ◌==◌, arith, eq_iff}
use ziyad_messenger.Base.State.Outcomes.{Outcome, Outcome-and_then, Outcome-mono, Outcome-guard}
use ziyad_messenger.Base.Http.{
  status_bad_request, status_unauthorized, status_not_found, status_method_not_allowed,
}
use ziyad_messenger.Protocol.{SendMessageRequest}
use ziyad_messenger.Messaging.Store.{User, Router, Error, Result, ok, guard, and_then, M}
use ziyad_messenger.Messaging.Queries.{
  user_exists, has_user, list_accessible_channels, list_channel_members, select_history,
}
use ziyad_messenger.Messaging.Dm.{find_or_create_dm_channel}
use ziyad_messenger.Messaging.Access.{ParseWithClaims, authenticate}
use ziyad_messenger.Messaging.Clients.{broadcast}
use ziyad_messenger.Messaging.Handlers.{
  Request, Env, Stop, or_500, user_of, run_history, run_channels, run_channel_members,
  run_create_dm, run_send,
}
use ziyad_messenger.Messaging.System.Tables.{is_user}
use ziyad_messenger.Messaging.System.Operations.{
  Good, query-Good, authenticate-Good, find_or_create-Good,
}
use ziyad_messenger.Messaging.System.Sending.{
  Kept, or_error-Outcome, or_500-Outcome, body_or_stop-Outcome, decoded-Outcome, read-Good,
  broadcast-Good, resolved-Good, checked-Good, submit-Good,
}

module _ (us : List User) (parse : ParseWithClaims) (secret : String) where
  -- Behind `m`, which keeps the state good and gives `Q` of its answer, the rest keeps it good.
  after :
      {A B : Type 0} (Q : A → Type 0) (x : Result Stop A × Router) (f : A → M Stop B)
      → Outcome (Good us) (λ a s. Good us s × Q a) x
      → ((a : A) (s : Router) → Q a → Good us s → Kept us (f a s))
      → Kept us (and_then x f)
  after Q x f h k =
      Outcome-and_then (Good us) (λ a s. Good us s × Q a) (λ _. Good us) x f h
        λ a s (g, q). k a s q g

  then_on :
      {A B : Type 0} (x : Result Stop A × Router) (f : A → M Stop B)
      → Kept us x
      → ((a : A) (s : Router) → Good us s → Kept us (f a s))
      → Kept us (and_then x f)
  then_on x f h k = Outcome-and_then (Good us) (λ _. Good us) (λ _. Good us) x f h k

  guarded :
      {B : Type 0} (b : Bool) (stop : Stop) (f : Unit {0} → M Stop B) (r : Router)
      → Good us r
      → ((s : Router) → b ≡ true → Good us s → Kept us (f tt s))
      → Kept us (and_then (guard b stop r) f)
  guarded b stop f r g k =
      after (λ _. b ≡ true) (guard b stop r) f (Outcome-guard (Good us) b stop r g)
        λ _ s e g'. k s e g'

  pub user_of-Good :
      (req : Request) (env : Env) (r : Router)
      → Good us r
      → Outcome
          (Good us)
          (λ u s. Good us s × (is_user u us ≡ true))
          (user_of parse secret req env r)
  unfolding user_of
  user_of-Good req env r g =
      or_error-Outcome (Good us) _ "unauthorized" status_unauthorized
        (authenticate parse secret env.now req.authorization req.token) r
        (authenticate-Good us parse secret env.now req.authorization req.token r g)

  pub history-Good :
      (req : Request) (env : Env) (r : Router)
      → Good us r
      → Kept us (run_history parse secret req env r)
  unfolding run_history select_history
  history-Good req env r g =
      after (λ u. is_user u us ≡ true) (user_of parse secret req env r) _ (user_of-Good req env r g)
        λ u s who g₁.
          guarded (not (req.channel_id == "")) ("missing channel_id", status_bad_request) _ s g₁
            λ t _ g₂.
              then_on _ _ (resolved-Good us u req.channel_id t who g₂)
                λ c q g₃. then_on _ _ (checked-Good us u c q g₃) λ _ w g₄. read-Good us _ w g₄

  pub channels-Good :
      (req : Request) (env : Env) (r : Router)
      → Good us r
      → Kept us (run_channels parse secret req env r)
  unfolding run_channels list_accessible_channels
  channels-Good req env r g =
      guarded (req.method == "GET") ("Method not allowed", status_method_not_allowed) _ r g
        λ s _ g₁.
          after (λ u. is_user u us ≡ true) (user_of parse secret req env s) _
            (user_of-Good req env s g₁) λ u t _ g₂. read-Good us _ t g₂

  pub channel_members-Good :
      (req : Request) (env : Env) (r : Router)
      → Good us r
      → Kept us (run_channel_members parse secret req env r)
  unfolding run_channel_members list_channel_members
  channel_members-Good req env r g =
      guarded (req.method == "GET") ("Method not allowed", status_method_not_allowed) _ r g
        λ s _ g₁.
          after (λ u. is_user u us ≡ true) (user_of parse secret req env s) _
            (user_of-Good req env s g₁)
            λ u t _ g₂.
              guarded (not (req.channel_id == "")) ("missing channel_id", status_bad_request) _ t g₂
                λ q _ g₃.
                  then_on _ _ (checked-Good us u req.channel_id q g₃) λ _ w g₄. read-Good us _ w g₄

  exists-Good :
      (target : String) (r : Router)
      → Good us r
      → Outcome
          (Good us)
          (λ found s. Good us s × (is_user target us ≡ found))
          (or_500 (user_exists target) r)
  unfolding user_exists
  exists-Good target r g =
      or_500-Outcome (Good us) (λ found s. Good us s × (is_user target us ≡ found))
        (user_exists target) r
        (Outcome-mono (Good us)
          (λ a s. Good us s × ◌≡◌ {A = Result Error Bool} (ok (has_user target s.db)) (ok a))
          (λ found s. Good us s × (is_user target us ≡ found)) (user_exists target r)
          (query-Good us (λ d. ok (has_user target d)) r g)
          λ found s (h, e). (h, found_in found s h e))
    where
      found_in :
          (found : Bool) (s : Router)
          → Good us s
          → ◌≡◌ {A = Result Error Bool} (ok (has_user target s.db)) (ok found)
          → is_user target us ≡ found
      found_in found s h e = rw (← h.users) (ground arith)

  found_dm-Good :
      (u target : String) (r : Router)
      → not (target == u) ≡ true
      → is_user u us ≡ true
      → is_user target us ≡ true
      → Good us r
      → Kept us (or_500 (find_or_create_dm_channel u target) r)
  found_dm-Good u target r other who there g =
      or_500-Outcome (Good us) (λ _. Good us) (find_or_create_dm_channel u target) r
        (find_or_create-Good us u target r (ground (arith, eq_iff target u, eq_iff u target)) who
          there g)

  pub create_dm-Good :
      (req : Request) (body : Option String) (env : Env) (r : Router)
      → Good us r
      → Kept us (run_create_dm parse secret req body env r)
  unfolding run_create_dm
  create_dm-Good req body env r g =
      guarded (req.method == "POST") ("Method not allowed", status_method_not_allowed) _ r g
        λ s _ g₁.
          after (λ u. is_user u us ≡ true) (user_of parse secret req env s) _
            (user_of-Good req env s g₁)
            λ u t who g₂.
              then_on _ _ (decoded-Outcome (Good us) "invalid request" body t g₂) λ target q g₃.
                guarded (not (target == "")) ("missing target_user_id", status_bad_request) _ q g₃
                  λ v _ g₄.
                    guarded (not (target == u)) ("invalid target", status_bad_request) _ v g₄
                      λ w other g₅.
                        after (λ found. is_user target us ≡ found) _ _ (exists-Good target w g₅)
                          λ found x there g₆.
                            guarded found ("target user not found", status_not_found) _ x g₆
                              λ y yes g₇. found_dm-Good u target y other who (there ∙ yes) g₇

  pub send-Good :
      (req : Request) (body : Result String SendMessageRequest) (env : Env) (r : Router)
      → Good us r
      → Kept us (run_send parse secret req body env r)
  unfolding run_send
  send-Good req body env r g =
      guarded (req.method == "POST") ("Method not allowed", status_method_not_allowed) _ r g
        λ s _ g₁. then_on _ _ (body_or_stop-Outcome (Good us) body s g₁) λ msg_req t g₂.
          after (λ u. is_user u us ≡ true) (user_of parse secret req env t) _
            (user_of-Good req env t g₂)
            λ u q who g₃. then_on _ _ (submit-Good us u msg_req env q who g₃) λ msg v g₄.
              then_on _ _
                (or_500-Outcome (Good us) (λ _. Good us) (broadcast msg) v
                  (broadcast-Good us msg v g₄))
                λ _ w g₅. g₅
