-- ===== src/Admin/Roles.antt =====
-- backend/admin-api/internal/roles/handler.go. The JSON of a list of texts is a parameter;
-- `unmarshal` is what the decoder leaves in an empty list, also when it ends in an error.
pub mod Permissions
use Prim.Native.String
use ziyad_messenger.Base.{
  ℕ, String, Bool, true, false, not, ◌&&◌, ◌||◌, List, [], ◌∷◌, ◌++◌, map, Option, none, some, ◌==◌,
  ltb, length, any, select, if◌then◌else◌,
}
use ziyad_messenger.Base.State.{Result, ok, err, and_then, ◌>>=◌, ◌>>◌, return}
use ziyad_messenger.Base.Order.{text_lt, order_by}
use ziyad_messenger.Admin.Store.{
  RoleRow, Db, Service, M, query, exec, ignoring, Stop, or_error, or_500, or_not_found, bound,
  bound_with, Ctx, logged,
}

pub record Json : Type 0 where
  pub marshal : List String → String
  pub unmarshal : String → List String

pub record Role : Type 0 where
  pub id : String
  pub name : String
  pub permissions : List String
  pub created_at : ℕ
  pub updated_at : ℕ

-- The body of both requests; `name` is required to create a role.
pub record RoleRequest : Type 0 where
  pub name : String
  pub permissions : List String

unfoldable pub perm_encode : Json → List String → String
perm_encode json [] = "[]"
perm_encode json (p ∷ ps) = json.marshal (p ∷ ps)

unfoldable pub perm_decode : Json → String → List String
perm_decode json s = if s == "" || s == "[]" then [] else json.unmarshal s

unfoldable pub insert_role : RoleRow → Db → Result String (ℕ × Db)
insert_role r d =
    if any (λ (x : RoleRow). x.id == r.id || x.name == r.name) d.roles
    then err "UNIQUE constraint failed: roles.name"
    else ok (1, record d { roles = d.roles ++ r ∷ [] })

abbrev at : String → (RoleRow → RoleRow) → RoleRow → RoleRow
at id f r = if r.id == id then f r else r

-- UPDATE roles SET name = ?, with the UNIQUE column.
unfoldable pub rename_role : String → ℕ → String → Db → Result String (ℕ × Db)
rename_role name now id d =
    let hits = length (select (λ (r : RoleRow). r.id == id) d.roles) in
    if ltb 0 hits && any (λ (r : RoleRow). not (r.id == id) && r.name == name) d.roles
    then err "UNIQUE constraint failed: roles.name"
    else ok (
      hits,
      record d {
        roles = map (at id (λ (r : RoleRow). record r { name = name; updated_at = now })) d.roles;
      },
    )

unfoldable pub set_permissions : String → ℕ → String → Db → Result String (ℕ × Db)
set_permissions permissions now id d = ok (
  length (select (λ (r : RoleRow). r.id == id) d.roles),
  record d {
    roles =
        map (at id (λ (r : RoleRow). record r { permissions = permissions; updated_at = now }))
          d.roles;
  },
)

unfoldable pub delete_role : String → Db → Result String (ℕ × Db)
delete_role id d = ok (
  length (select (λ (r : RoleRow). r.id == id) d.roles),
  record d { roles = select (λ (r : RoleRow). not (r.id == id)) d.roles },
)

abbrev pub target : String → String
target id = String.◌++◌ "roles/" id

unfoldable pub delete_role_handler : String → Ctx → M Stop (Unit {0})
unfolding delete_role
delete_role_handler id ctx = do
  n ← or_500 (exec (delete_role id))
  or_not_found "not found" n
  logged ctx "role.delete" (target id) ""

module _ (json : Json) where
  unfoldable pub list_roles : M Stop (List Role)
  unfolding perm_decode
  list_roles = or_500 (
      query λ d. ok (
        map
          (λ (r : RoleRow). record {
            id = r.id;
            name = r.name;
            permissions = perm_decode json r.permissions;
            created_at = r.created_at;
            updated_at = r.updated_at;
          })
          (order_by (λ (a b : RoleRow). text_lt a.name b.name) d.roles)))

  unfoldable pub create_role : Option RoleRequest → Ctx → M Stop (String × String)
  unfolding insert_role perm_encode
  create_role body ctx = do
    req ← bound_with (λ (r : RoleRequest). not (r.name == "")) body
    n ← or_error "role exists or db error" 409 (
        exec (
          insert_role (record {
            id = ctx.uuid;
            name = req.name;
            permissions = perm_encode json req.permissions;
            created_at = ctx.now;
            updated_at = ctx.now;
          })))
    logged ctx "role.create" (target ctx.uuid) req.name
    return (ctx.uuid, req.name)

  abbrev when : Bool → M String ℕ → M Stop (Unit {0})
  when true m = ignoring m
  when false m = return tt

  -- Both errors are ignored.
  unfoldable pub update_role : String → Option RoleRequest → Ctx → M Stop (Unit {0})
  unfolding rename_role set_permissions perm_encode
  update_role id body ctx = do
    req ← bound body
    when (not (req.name == "")) (exec (rename_role req.name ctx.now id))
    when (ltb 0 (length req.permissions))
        (exec (set_permissions (perm_encode json req.permissions) ctx.now id))
    logged ctx "role.update" (target id) ""
