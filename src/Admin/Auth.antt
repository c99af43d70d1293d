-- ===== src/Admin/Auth.antt =====
-- backend/admin-api/internal/auth/{auth,handler,errors}.go and the middleware of
-- backend/admin-api/internal/middleware/{jwt,rbac}.go.
-- bcrypt and the JWT library are parameters: the hash of a password under a salt, the comparison, the
-- signature of claims under a secret with an expiry, and the claims of a token with its validity.
pub mod Setup
use ziyad_messenger.Base.{
  ℕ, ◌+◌, String, Bool, true, not, ◌&&◌, ◌||◌, [], ◌∷◌, ◌++◌, Option, none, some, ◌==◌, ltb, length,
  any, find, if◌then◌else◌,
}
use ziyad_messenger.Base.Text.{cut}
use ziyad_messenger.Base.State.{Result, ok, err, ◌>>=◌, ◌>>◌, return, guard}
use ziyad_messenger.Admin.Store.{
  AdminUser, Db, M, query, exec, scanning, Stop, or_error, Claims, Ctx, bound_with,
}

pub record Packages : Type 0 where
  pub generate_from_password : String → String → Option String
  pub compare_hash_and_password : String → String → Bool
  pub sign : Claims → ℕ → ℕ → String → Option String
  pub parse_with_claims : String → String → ℕ → Option (Claims × Bool)

abbrev default_secret : String
default_secret = "change-me-in-production-local-only"

-- The environment's ADMIN_JWT_SECRET.
unfoldable pub get_secret : String → String
get_secret env = if env == "" then default_secret else env

abbrev day : ℕ
day = 86400

-- `expires_at` is what the handler computes a second time.
pub record LoginResponse : Type 0 where
  pub token : String
  pub user : AdminUser
  pub expires_at : ℕ

pub record LoginRequest : Type 0 where
  pub username : String
  pub password : String

pub record CreateAdminRequest : Type 0 where
  pub username : String
  pub password : String
  pub role : String

-- SELECT … FROM admin_users WHERE username = ?
unfoldable pub admin_row : String → Db → Result String AdminUser
admin_row username d = elim (find (λ (u : AdminUser). u.username == username) d.admin_users) [
  | none ↦ err "sql: no rows in result set"
  | some u ↦ ok u
]

-- INSERT INTO admin_users
unfoldable pub insert_admin : AdminUser → Db → Result String (ℕ × Db)
insert_admin u d =
    if any (λ (x : AdminUser). x.id == u.id) d.admin_users
    then err "UNIQUE constraint failed: admin_users.id"
    else if any (λ (x : AdminUser). x.username == u.username) d.admin_users
    then err "UNIQUE constraint failed: admin_users.username"
    else ok (1, record d { admin_users = d.admin_users ++ u ∷ [] })

module _ (pk : Packages) where
  unfoldable pub hash_password : Ctx → String → M String String
  hash_password ctx password s = elim (pk.generate_from_password ctx.salt password) [
    | none ↦ (err "bcrypt", s)
    | some hash ↦ (ok hash, s)
  ]

  unfoldable pub check_password : String → String → Bool
  check_password hash password = pk.compare_hash_and_password hash password

  unfoldable pub login : String → String → M String AdminUser
  unfolding check_password
  login username password = do
    u ← query (admin_row username)
    guard (check_password u.password_hash password) "invalid credentials"
    return u

  unfoldable pub new_admin : String → String → String → Ctx → AdminUser
  new_admin username hash role ctx = record {
    id = ctx.uuid;
    username = username;
    password_hash = hash;
    role = role;
    created_at = ctx.now;
    updated_at = ctx.now;
  }

  unfoldable pub create_admin_user : String → String → String → Ctx → M String AdminUser
  unfolding hash_password
  create_admin_user username password role ctx = do
    hash ← hash_password ctx password
    exec (insert_admin (new_admin username hash role ctx)) >>= λ n.
        return (new_admin username hash role ctx)

  -- The count is 0 where the engine fails.
  unfoldable pub ensure_super_admin : String → String → Ctx → M String (Unit {0})
  unfolding create_admin_user
  ensure_super_admin username password ctx = do
    count ← scanning 0 (query λ d. ok (length d.admin_users))
    let created : M String (Unit {0}) =
        create_admin_user username password "super_admin" ctx >>= λ u. return tt
    if ltb 0 count then return tt else created

  unfoldable pub claims_of : AdminUser → Claims
  claims_of u = record { user_id = u.id; username = u.username; role = u.role }

  -- `jwt.NewNumericDate(exp)` and the time of issue.
  unfoldable pub generate_token : String → AdminUser → ℕ → ℕ → M String String
  unfolding claims_of get_secret
  generate_token env u expires_in now s =
      elim (pk.sign (claims_of u) (now + expires_in) now (get_secret env)) [
        | none ↦ (err "token", s)
        | some token ↦ (ok token, s)
      ]

  unfoldable pub parse_token : String → ℕ → String → Result String Claims
  unfolding get_secret
  parse_token env now token = elim (pk.parse_with_claims token (get_secret env) now) [
    | none ↦ err "jwt"
    | some (claims, valid) ↦ if valid then ok claims else err "unauthorized"
  ]

  unfoldable pub login_handler : String → Option LoginRequest → Ctx → M Stop LoginResponse
  unfolding login generate_token
  login_handler env body ctx = do
    req ← bound_with (λ (r : LoginRequest). not (r.username == "") && not (r.password == "")) body
    user ← or_error "invalid credentials" 401 (login req.username req.password)
    token ← or_error "token generation failed" 500 (generate_token env user day ctx.now)
    return (record { token = token; user = user; expires_at = ctx.now + day })

  unfoldable pub create_admin_handler : Option CreateAdminRequest → Ctx → M Stop AdminUser
  unfolding create_admin_user
  create_admin_handler body ctx = do
    req ←
        bound_with (λ (r : CreateAdminRequest). not (r.username == "") && not (r.password == ""))
          body
    or_error "username already exists" 409 (
        create_admin_user req.username req.password (if req.role == "" then "admin" else req.role)
          ctx)

  abbrev pub from_parse : Result String Claims → Result Stop Claims
  from_parse (ok claims) = ok claims
  from_parse (err e) = err ("invalid token", 401)

  abbrev pub from_parts : String → ℕ → Bool → Option String → Result Stop Claims
  from_parts env now true (some token) = from_parse (parse_token env now token)
  from_parts env now _ _ = err ("invalid authorization", 401)

  -- `JWTAuth`, on the Authorization header.
  unfoldable pub jwt_auth : String → ℕ → String → Result Stop Claims
  unfolding parse_token
  jwt_auth env now authorization =
      let (scheme, token) = cut b' ' authorization in
      if authorization == ""
      then err ("missing authorization", 401)
      else from_parts env now (scheme == "Bearer") token

-- The roles of `adminRoles`.
unfoldable pub is_admin_role : String → Bool
is_admin_role role = role == "super_admin" || role == "admin"

-- `RequireAdmin`, behind `JWTAuth`.
unfoldable pub require_admin : Claims → Result Stop (Unit {0})
unfolding is_admin_role
require_admin claims =
    if is_admin_role claims.role then ok tt else err ("admin access required", 403)
