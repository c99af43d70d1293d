-- ===== src/Auth.antt =====
-- backend/services/auth/main.go and token.go: `RegisterHandler`, `LoginHandler`, `ensureDefaultUser` and
-- `GenerateToken`, on the tables `users` and `roles`; crypto.go in the child Password.
-- A body is what the decoder makes of it. The random salt, the new id, the clock's second and whether
-- the engine fails at the call's statement are arguments; `sign` is the JWT library's signature under
-- the service's key, `none` for an error. The text columns that only this service writes are not NULL.
pub mod Password
pub mod Login
pub mod Server
mod Tests
use ziyad_messenger.Base.{
  ℕ, ◌+◌, ◌*◌, String, Bool, true, false, not, ◌&&◌, ◌||◌, List, [], ◌∷◌, ◌++◌, Option, none, some,
  ◌==◌, ltb, leb, eqb, len, any, find, if◌then◌else◌,
}
use ziyad_messenger.Base.Text.{trim_space, all_chars}
use ziyad_messenger.Base.Http.{
  Response, http_error, reply, status_ok, status_created, status_bad_request, status_unauthorized,
  status_method_not_allowed, status_conflict, status_internal_server_error,
}
use ziyad_messenger.Auth.Password.{Crypto, hash_password, verify_password}

-- A row of `users`; `role_id` and `password_hash` may be NULL in rows that the admin API writes.
pub record UserRow : Type 0 where
  pub id : String
  pub username : String
  pub full_name : String
  pub password_hash : Option String
  pub role_id : Option String
  pub created_at : ℕ
  pub updated_at : ℕ

pub record Role : Type 0 where
  pub id : String
  pub name : String

pub record Db : Type 0 where
  pub users : List UserRow
  pub roles : List Role

pub record RegisterRequest : Type 0 where
  pub username : String
  pub full_name : String
  pub password : String
  pub role : String

pub record LoginRequest : Type 0 where
  pub username : String
  pub password : String

pub record Claims : Type 0 where
  pub username : String
  pub role : String
  pub expires_at : ℕ
  pub issuer : String

-- What /login answers.
pub record Session : Type 0 where
  pub token : String
  pub user_id : String
  pub role : String

-- What a call takes from outside.
pub record Env : Type 0 where
  pub salt : Option (List ℕ)
  pub uuid : String
  pub now : ℕ
  pub fault : Bool

-- ^[a-zA-Z0-9_.-]{3,32}$
abbrev is_name_char : ℕ → Bool
is_name_char c =
    (leb b'a' c && leb c b'z')
    || (leb b'A' c && leb c b'Z')
    || (leb b'0' c && leb c b'9')
    || eqb c b'_'
    || eqb c b'.'
    || eqb c b'-'

unfoldable pub username_pattern : String → Bool
username_pattern s = all_chars is_name_char s && leb 3 (len s) && leb (len s) 32

-- INSERT INTO users, with the primary key and the UNIQUE column; `none` for an error.
unfoldable pub insert_user : UserRow → Db → Option Db
insert_user u d =
    if any (λ (x : UserRow). x.id == u.id || x.username == u.username) d.users
    then none
    else some (record d { users = d.users ++ u ∷ [] })

abbrev pub exec_insert : Bool → UserRow → Db → Option Db
exec_insert true u d = none
exec_insert false u d = insert_user u d

unfoldable pub new_user : String → String → String → String → Env → UserRow
new_user username full_name hash role env = record {
  id = env.uuid;
  username = username;
  full_name = full_name;
  password_hash = some hash;
  role_id = some role;
  created_at = env.now;
  updated_at = env.now;
}

abbrev pub inserted : String → Option Db → Db → Response String × Db
inserted id none d = (http_error "User already exists or DB error" status_conflict, d)
inserted id (some d') d = (reply status_created id, d')

abbrev pub hashed : RegisterRequest → Option String → Env → Db → Response String × Db
hashed req none env d = (http_error "Server error" status_internal_server_error, d)
hashed req (some hash) env d =
    let u = new_user req.username req.full_name hash req.role env in
    inserted env.uuid (exec_insert env.fault u d) d

-- The three fields that the handler trims.
unfoldable pub trimmed : RegisterRequest → RegisterRequest
trimmed req = record req {
  username = trim_space req.username;
  full_name = trim_space req.full_name;
  role = trim_space req.role;
}

-- The checks in their order: the text of the first that fails.
unfoldable pub refusal : RegisterRequest → Option String
refusal req =
    if not (username_pattern req.username)
    then some "Invalid username format"
    else if ltb (len req.password) 8 || ltb 72 (len req.password)
    then some "Password length must be 8-72"
    else if ltb 80 (len req.full_name)
    then some "Full name too long"
    else if ltb 40 (len req.role)
    then some "Role too long"
    else none

-- SELECT u.id, u.username, u.password_hash, COALESCE(r.name, u.role_id, 'user') … WHERE u.username = ?
abbrev role_name : Option String → List Role → String
role_name none roles = "user"
role_name (some id) roles = elim (find (λ (r : Role). r.id == id) roles) [
  | none ↦ id
  | some r ↦ r.name
]

unfoldable pub login_row : String → Db → Option UserRow
login_row username d = find (λ (u : UserRow). u.username == username) d.users

module _ (k : Crypto) where
  abbrev pub checked : RegisterRequest → Option String → Env → Db → Response String × Db
  checked req (some text) env d = (http_error text status_bad_request, d)
  checked req none env d = hashed req (hash_password k req.password env.salt) env d

  abbrev pub received : Option RegisterRequest → Env → Db → Response String × Db
  received none env d = (http_error "Invalid request" status_bad_request, d)
  received (some req) env d = checked (trimmed req) (refusal (trimmed req)) env d

  unfoldable pub register_handler :
      String → Option RegisterRequest → Env → Db → Response String × Db
  register_handler method body env d =
      if method == "POST"
      then received body env d
      else (http_error "Method not allowed" status_method_not_allowed, d)

  abbrev pub defaulted : Option String → String → String → Env → Db → Bool × Db
  defaulted none username role env d = (false, d)
  defaulted (some hash) username role env d =
      elim (exec_insert env.fault (new_user username "Administrator" hash role env) d) [
        | none ↦ (false, d)
        | some d' ↦ (true, d')
      ]

  -- `true` where the user was made or stood there, `false` for an error. `look_fault` is the engine's
  -- at the first statement.
  unfoldable pub ensure_default_user : String → String → String → Bool → Env → Db → Bool × Db
  ensure_default_user username password role look_fault env d =
      if look_fault
      then (false, d)
      else if any (λ (x : UserRow). x.username == username) d.users
      then (true, d)
      else defaulted (hash_password k password env.salt) username role env d

  module _ (sign : Claims → Option String) where
    -- A day, in seconds.
    unfoldable pub generate_token : String → String → ℕ → Option String
    generate_token username role now = sign (record {
      username = username;
      role = role;
      expires_at = now + 86400;
      issuer = "lan-chat-auth";
    })

    abbrev tokened : UserRow → String → Option String → Response Session
    tokened u role none = http_error "Server error" status_internal_server_error
    tokened u role (some token) =
        reply status_ok (record { token = token; user_id = u.id; role = role })

    abbrev verified : UserRow → String → Option Bool → ℕ → Response Session
    verified u role (some true) now = tokened u role (generate_token u.username role now)
    verified u role _ now = http_error "Invalid credentials" status_unauthorized

    abbrev scanned : UserRow → Option String → String → String → ℕ → Response Session
    scanned u none password role now = http_error "Invalid credentials" status_unauthorized
    scanned u (some hash) password role now = verified u role (verify_password k password hash) now

    abbrev found : Option UserRow → String → List Role → ℕ → Response Session
    found none password roles now = http_error "Invalid credentials" status_unauthorized
    found (some u) password roles now =
        scanned u u.password_hash password (role_name u.role_id roles) now

    abbrev looked_up : String → String → Bool → ℕ → Db → Response Session
    looked_up username password fault now d =
        if username == "" || password == ""
        then http_error "Missing credentials" status_bad_request
        else if ltb 64 (len username) || ltb 128 (len password)
        then http_error "Invalid credentials format" status_bad_request
        else if fault
        then http_error "Invalid credentials" status_unauthorized
        else found (login_row username d) password d.roles now

    unfoldable pub login_handler : String → Option LoginRequest → Bool → ℕ → Db → Response Session
    unfolding generate_token
    login_handler method none fault now d =
        if method == "POST"
        then http_error "Invalid request" status_bad_request
        else http_error "Method not allowed" status_method_not_allowed
    login_handler method (some req) fault now d =
        if method == "POST"
        then looked_up (trim_space req.username) req.password fault now d
        else http_error "Method not allowed" status_method_not_allowed
