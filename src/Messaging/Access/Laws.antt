-- ===== src/Messaging/Access/Laws.antt =====
-- What the access check of messaging/main.go decides.
use ziyad_messenger.Base.{
  ℕ, String, Bool, true, false, ◌≡◌, ◌||◌, ◌≢◌, refl, inl, inr, [], none, some, ◌==◌, eq_iff, arith,
  Bool-cases, if◌then◌else◌,
}
use ziyad_messenger.Messaging.Store.{
  Db, Router, Error, unauthorized, channel_missing, forbidden, Result, ok, err, and_then, query,
}
use ziyad_messenger.Messaging.Store.Laws.{SameState}
use ziyad_messenger.Messaging.Queries.{
  channel_type_row, get_channel_type, has_member, is_channel_member, user_row,
  find_user_id_by_username,
}
use ziyad_messenger.Messaging.Access.{
  Claims, ParseWithClaims, bearer_token, jwt_secret, validate_token, mask, masked, authenticate,
  authorize_channel_access,
}

-- The right to a channel: it exists, and it is public or the user is among its members.
unfoldable pub may_access : String → String → Db → Bool
may_access user_id channel_id d = elim (channel_type_row channel_id d) [
  | none ↦ false
  | some t ↦ t == "public" || has_member channel_id user_id d.channel_members
]

-- Whatever the engine does, access is granted only to a user who may have it, and the check changes
-- neither the tables nor the clients.
pub authorize-may_access :
    (user_id channel_id : String) (r r' : Router)
    → authorize_channel_access user_id channel_id r ≡ (ok tt, r')
    → (may_access user_id channel_id r.db ≡ true) × SameState r r'
unfolding authorize_channel_access get_channel_type is_channel_member may_access query
authorize-may_access user_id channel_id r r' e = ground arith

-- With an engine that answers, the check decides by the channel's type and the membership.
pub authorize_lem :
    (user_id channel_id : String) (r : Router)
    → r.faults ≡ []
    → (authorize_channel_access user_id channel_id r).0 ≡ (elim (channel_type_row channel_id r.db) [
      | none ↦ err channel_missing
      | some t ↦ if may_access user_id channel_id r.db then ok tt else err forbidden
    ])
unfolding authorize_channel_access get_channel_type is_channel_member may_access query
authorize_lem user_id channel_id r calm = ground arith

-- The caller is the user whose name stands in a valid token.
pub record IsAuthentic (parse : ParseWithClaims) (env : String) (now : ℕ) (token user_id : String)
    (d : Db) : Type 0 where
  pub presented : token ≢ ""
  pub claims : Claims
  pub valid : parse token (jwt_secret env) now ≡ some (claims, true)
  pub listed : user_row claims.username d ≡ ok user_id

authenticated :
    (parse : ParseWithClaims) (env : String) (now : ℕ) (token user_id : String) (r r' : Router)
    → (token == "") ≡ false
    → (x : Result Error Claims) → validate_token parse env now token ≡ x
    → and_then
        (mask unauthorized x, r)
        (λ claims. masked unauthorized (find_user_id_by_username claims.username))
      ≡ (ok user_id, r')
    → IsAuthentic parse env now token user_id r.db × SameState r r'
unfolding validate_token find_user_id_by_username query
authenticated parse env now token user_id r r' given (err e) v h = cc h
authenticated parse env now token user_id r r' given (ok claims) v h = (
  record {
    presented = ground (arith, eq_iff token "");
    claims = claims;
    valid = ground arith;
    listed = ground arith;
  },
  ground arith,
)

-- Whoever is let in presented a token that the JWT library holds valid under the service's secret,
-- and is the user of its name; the tables and the clients stay as they were.
pub authenticate-IsAuthentic :
    (parse : ParseWithClaims) (env : String) (now : ℕ) (authorization query_token : String)
    (r : Router) {user_id : String} {r' : Router}
    → authenticate parse env now authorization query_token r ≡ (ok user_id, r')
    → IsAuthentic parse env now (bearer_token authorization query_token) user_id r.db
      × SameState r r'
unfolding authenticate
authenticate-IsAuthentic parse env now authorization query_token r {user_id} {r'} h =
    let token = bearer_token authorization query_token in
    elim (Bool-cases (token == "")) [
      | inl empty ↦ cc (rw empty at h)
      | inr given ↦ authenticated parse env now token user_id r r' given _ refl (rw given at h)
    ]

-- The check leaves everything as it was, also when it refuses.
pub authorize-SameState :
    (user_id channel_id : String) (r : Router)
    → SameState r (authorize_channel_access user_id channel_id r).1
unfolding authorize_channel_access get_channel_type is_channel_member query
authorize-SameState user_id channel_id r = ground arith

pub authenticate-SameState :
    (parse : ParseWithClaims) (env : String) (now : ℕ) (authorization query_token : String)
    (r : Router)
    → SameState r (authenticate parse env now authorization query_token r).1
unfolding authenticate find_user_id_by_username query
authenticate-SameState parse env now authorization query_token r = ground arith
