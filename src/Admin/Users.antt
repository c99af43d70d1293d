-- ===== src/Admin/Users.antt =====
-- backend/admin-api/internal/users/handler.go.
pub mod Listing
use ziyad_messenger.Base.{
  ℕ, String, Bool, true, false, not, ◌&&◌, List, [], ◌∷◌, ◌++◌, map, Option, none, some, ◌==◌, ltb,
  length, any, select, if◌then◌else◌,
}
use ziyad_messenger.Base.State.{Result, ok, err, and_then, ◌>>=◌, ◌>>◌, return}
use ziyad_messenger.Base.Order.{order_by}
use ziyad_messenger.Admin.Store.{
  UserRow, Db, Service, M, query, exec, Stop, or_error, or_500, or_not_found, bound, bound_with,
  Ctx, logged,
}
use ziyad_messenger.Admin.Auth.{Packages, hash_password}
use Prim.Native.String

pub record User : Type 0 where
  pub id : String
  pub username : String
  pub full_name : String
  pub role_id : String
  pub department_id : String
  pub created_at : ℕ
  pub updated_at : ℕ

pub record CreateUserRequest : Type 0 where
  pub username : String
  pub full_name : String
  pub password : String
  pub role_id : String
  pub department_id : String

pub record UpdateUserRequest : Type 0 where
  pub username : String
  pub full_name : String
  pub password : String
  pub role_id : String
  pub department_id : String

-- `rows.Scan` into a zero value: it stops at the first NULL, and what follows keeps its zero value.
abbrev scan_department : UserRow → String → String → Option String → User
scan_department u full_name role_id none = record {
  id = u.id;
  username = u.username;
  full_name = full_name;
  role_id = role_id;
  department_id = "";
  created_at = 0;
  updated_at = 0;
}
scan_department u full_name role_id (some department_id) = record {
  id = u.id;
  username = u.username;
  full_name = full_name;
  role_id = role_id;
  department_id = department_id;
  created_at = u.created_at;
  updated_at = u.updated_at;
}

abbrev scan_role : UserRow → String → Option String → User
scan_role u full_name none = record {
  id = u.id;
  username = u.username;
  full_name = full_name;
  role_id = "";
  department_id = "";
  created_at = 0;
  updated_at = 0;
}
scan_role u full_name (some role_id) = scan_department u full_name role_id u.department_id

unfoldable pub scan_user : UserRow → User
scan_user u = elim u.full_name [
  | none ↦ record {
    id = u.id;
    username = u.username;
    full_name = "";
    role_id = "";
    department_id = "";
    created_at = 0;
    updated_at = 0;
  }
  | some full_name ↦ scan_role u full_name u.role_id
]

-- SELECT … FROM users ORDER BY created_at DESC
unfoldable pub list_users : M Stop (List User)
unfolding scan_user
list_users = or_500 (
    query
      λ d. ok (map scan_user (order_by (λ (a b : UserRow). ltb b.created_at a.created_at) d.users)))

unfoldable pub insert_user : UserRow → Db → Result String (ℕ × Db)
insert_user u d =
    if any (λ (x : UserRow). x.id == u.id) d.users
    then err "UNIQUE constraint failed: users.id"
    else if any (λ (x : UserRow). x.username == u.username) d.users
    then err "UNIQUE constraint failed: users.username"
    else ok (1, record d { users = d.users ++ u ∷ [] })

unfoldable pub new_user : CreateUserRequest → String → Ctx → UserRow
new_user req hash ctx = record {
  id = ctx.uuid;
  username = req.username;
  full_name = some req.full_name;
  password_hash = hash;
  role_id = some req.role_id;
  department_id = some req.department_id;
  created_at = ctx.now;
  updated_at = ctx.now;
}

-- The SET clauses that the request's fields put into the statement.
unfoldable pub updated : UpdateUserRequest → ℕ → UserRow → UserRow
updated req now u = record u {
  username = if req.username == "" then u.username else req.username;
  full_name = if req.full_name == "" then u.full_name else some req.full_name;
  role_id = if req.role_id == "" then u.role_id else some req.role_id;
  department_id = if req.department_id == "" then u.department_id else some req.department_id;
  updated_at = now;
}

abbrev at : {A : Type 0} → (A → String) → String → (A → A) → A → A
at key id f a = if key a == id then f a else a

-- UPDATE users SET … WHERE id = ?, with the UNIQUE column.
unfoldable pub update_user : UpdateUserRequest → ℕ → String → Db → Result String (ℕ × Db)
unfolding updated
update_user req now id d =
    let hits = select (λ (u : UserRow). u.id == id) d.users in
    let taken = any (λ (u : UserRow). not (u.id == id) && u.username == req.username) d.users in
    if not (req.username == "") && ltb 0 (length hits) && taken
    then err "UNIQUE constraint failed: users.username"
    else ok (
      length hits,
      record d { users = map (at (λ (u : UserRow). u.id) id (updated req now)) d.users },
    )

unfoldable pub reset_user : String → ℕ → String → Db → Result String (ℕ × Db)
reset_user hash now id d = ok (
  length (select (λ (u : UserRow). u.id == id) d.users),
  record d {
    users =
        map
          (at (λ (u : UserRow). u.id) id
            (λ (u : UserRow). record u { password_hash = hash; updated_at = now }))
          d.users;
  },
)

unfoldable pub delete_user : String → Db → Result String (ℕ × Db)
delete_user id d = ok (
  length (select (λ (u : UserRow). u.id == id) d.users),
  record d { users = select (λ (u : UserRow). not (u.id == id)) d.users },
)

abbrev default_password : String
default_password = "123456789"

abbrev pub target : String → String
target id = String.◌++◌ "users/" id

module _ (pk : Packages) where
  unfoldable pub create_user : Option CreateUserRequest → Ctx → M Stop (String × String)
  unfolding hash_password insert_user new_user
  create_user body ctx = do
    req ←
        bound_with (λ (r : CreateUserRequest). not (r.username == "") && not (r.password == ""))
          body
    hash ← or_error "hash failed" 500 (hash_password pk ctx req.password)
    n ← or_error "user exists or db error" 409 (exec (insert_user (new_user req hash ctx)))
    logged ctx "user.create" (target ctx.uuid) req.username
    return (ctx.uuid, req.username)

  unfoldable pub reset_password : String → Ctx → M Stop String
  unfolding hash_password reset_user
  reset_password id ctx = do
    hash ← or_error "hash failed" 500 (hash_password pk ctx default_password)
    n ← or_500 (exec (reset_user hash ctx.now id))
    logged ctx "user.reset_password" (target id) ""
    return "Password reset to default (123456789)"

unfoldable pub update_user_handler : String → Option UpdateUserRequest → Ctx → M Stop (Unit {0})
unfolding update_user
update_user_handler id body ctx = do
  req ← bound body
  n ← or_500 (exec (update_user req ctx.now id))
  logged ctx "user.update" (target id) ""

unfoldable pub delete_user_handler : String → Ctx → M Stop (Unit {0})
unfolding delete_user
delete_user_handler id ctx = do
  n ← or_500 (exec (delete_user id))
  or_not_found "not found" n
  logged ctx "user.delete" (target id) ""
