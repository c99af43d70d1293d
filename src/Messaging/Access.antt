-- ===== src/Messaging/Access.antt =====
-- Who may do what in messaging/main.go: `bearerToken`, `jwtSecret`, `validateToken`, `authenticate`,
-- `authorizeChannelAccess`, `resolveRequestedChannel`.
pub mod Laws
pub mod Resolve
use Prim.Native.Char.{code}
use Prim.Native.String
use Prim.Native.Nat.{◌+◌}
use ziyad_messenger.Base.{
  ℕ, String, Bool, true, false, not, ◌&&◌, List, Option, none, some, ◌==◌, leb, eqb, if◌then◌else◌,
}
use ziyad_messenger.Base.Text.{cut}
use ziyad_messenger.Messaging.Store.{
  Error, unauthorized, channel_missing, forbidden, no_rows, db_error, Result, ok, err, M, ◌>>=◌,
  ◌>>◌, and_then, return, throw, Router,
}
use ziyad_messenger.Messaging.Queries.{
  get_channel_type, user_exists, find_user_id_by_username, is_channel_member,
}
use ziyad_messenger.Messaging.Dm.{find_or_create_dm_channel}

pub record Claims : Type 0 where
  pub username : String
  pub role : String

-- `strings.EqualFold(s, "Bearer")`: no letter of the word folds to a character beyond ASCII.
unfoldable pub fold_char : ℕ → ℕ
fold_char c = if leb b'A' c && leb c b'Z' then c + 32 else c

unfoldable pub equal_fold : String → String → Bool
equal_fold String.[] String.[] = true
equal_fold (String.◌∷◌ c s) (String.◌∷◌ d t) =
    eqb (fold_char (code c)) (fold_char (code d)) && equal_fold s t
equal_fold _ _ = false

-- The Authorization header with the scheme's name, in any case; else the URL's `token`.
abbrev from_header : Bool → Option String → String → String
from_header true (some token) query_token = token
from_header _ _ query_token = query_token

unfoldable pub bearer_token : String → String → String
unfolding equal_fold fold_char cut
bearer_token authorization query_token =
    let (scheme, token) = cut b' ' authorization in
    from_header (equal_fold scheme "Bearer") token query_token

-- The environment's MESSAGING_JWT_SECRET.
unfoldable pub jwt_secret : String → String
jwt_secret env = if env == "" then "my_secret_key" else env

-- The JWT library: the claims of a token under a secret at a time, and whether it is valid; `none`
-- for an error.
abbrev pub ParseWithClaims : Type 0
ParseWithClaims = String → String → ℕ → Option (Claims × Bool)

unfoldable pub validate_token : ParseWithClaims → String → ℕ → String → Result Error Claims
validate_token parse env now token = elim (parse token (jwt_secret env) now) [
  | none ↦ err unauthorized
  | some (claims, valid) ↦ if valid then ok claims else err unauthorized
]

-- Whatever goes wrong, the caller learns "unauthorized".
abbrev pub mask : {A : Type 0} → Error → Result Error A → Result Error A
mask e (ok a) = ok a
mask e (err _) = err e

abbrev pub masked : {A : Type 0} → Error → M Error A → M Error A
masked e m r = (mask e (m r).0, (m r).1)

unfoldable pub authenticate : ParseWithClaims → String → ℕ → String → String → M Error String
authenticate parse env now authorization query_token = do
  let token = bearer_token authorization query_token
  let found : M Error String = do
    claims ← λ r. (mask unauthorized (validate_token parse env now token), r)
    masked unauthorized (find_user_id_by_username claims.username)
  if token == "" then throw unauthorized else found

unfoldable pub authorize_channel_access : String → String → M Error (Unit {0})
authorize_channel_access user_id channel_id = do
  ch_type ← get_channel_type channel_id
  let private : M Error (Unit {0}) = do
    member ← is_channel_member channel_id user_id
    if member then return tt else throw forbidden
  if ch_type == "public" then return tt else private

-- The DM channel with another user, asked for by that user's id.
unfoldable pub dm_with : String → String → M Error String
dm_with sender_id requested = do
  exists ← user_exists requested
  let other : M Error String =
      if requested == sender_id
      then throw forbidden
      else find_or_create_dm_channel sender_id requested
  if not exists then throw channel_missing else other

-- What `resolveRequestedChannel` does with the answer to `getChannelType`.
unfoldable pub or_dm : String → String → Result Error String → M Error String
unfolding dm_with
or_dm sender_id requested (ok _) = return requested
or_dm sender_id requested (err channel_missing) = dm_with sender_id requested
or_dm sender_id requested (err e) = throw e

unfoldable pub resolve_requested_channel : String → String → M Error String
unfolding or_dm
resolve_requested_channel sender_id requested r =
    let (found, r') = get_channel_type requested r in
    if requested == "" then (err channel_missing, r) else or_dm sender_id requested found r'
