-- ===== src/Admin/Departments.antt =====
-- backend/admin-api/internal/departments/handler.go.
pub mod Deletion
use Prim.Native.String
use ziyad_messenger.Base.{
  ℕ, String, Bool, true, false, not, ◌||◌, List, [], ◌∷◌, ◌++◌, map, Option, none, some, ◌==◌, ltb,
  eqb, length, any, select, if◌then◌else◌,
}
use ziyad_messenger.Base.State.{Result, ok, err, and_then, ◌>>=◌, ◌>>◌, return, guard}
use ziyad_messenger.Base.Order.{text_lt, order_by}
use ziyad_messenger.Admin.Store.{
  Department, UserRow, Db, Service, M, query, exec, scanning, Stop, or_error, or_500, or_not_found,
  bound_with, Ctx, logged,
}

unfoldable pub list_departments : M Stop (List Department)
list_departments =
    or_500 (query λ d. ok (order_by (λ (a b : Department). text_lt a.name b.name) d.departments))

unfoldable pub insert_department : Department → Db → Result String (ℕ × Db)
insert_department x d =
    if any (λ (y : Department). y.id == x.id || y.name == x.name) d.departments
    then err "UNIQUE constraint failed: departments.name"
    else ok (1, record d { departments = d.departments ++ x ∷ [] })

-- SELECT COUNT(*) FROM users WHERE department_id = ?
abbrev pub is_in : String → Option String → Bool
is_in id none = false
is_in id (some department_id) = department_id == id

unfoldable pub count_users : String → Db → ℕ
count_users id d = length (select (λ (u : UserRow). is_in id u.department_id) d.users)

unfoldable pub delete_department : String → Db → Result String (ℕ × Db)
delete_department id d = ok (
  length (select (λ (x : Department). x.id == id) d.departments),
  record d { departments = select (λ (x : Department). not (x.id == id)) d.departments },
)

abbrev pub target : String → String
target id = String.◌++◌ "departments/" id

-- The body is the field `name`, which is required.
unfoldable pub create_department : Option String → Ctx → M Stop (String × String)
unfolding insert_department
create_department body ctx = do
  name ← bound_with (λ (s : String). not (s == "")) body
  n ← or_error "department exists or db error" 409 (
      exec (
        insert_department
          (record { id = ctx.uuid; name = name; created_at = ctx.now; updated_at = ctx.now })))
  logged ctx "department.create" (target ctx.uuid) name
  return (ctx.uuid, name)

-- The count is 0 where the engine fails.
unfoldable pub delete_department_handler : String → Ctx → M Stop (Unit {0})
unfolding delete_department count_users
delete_department_handler id ctx = do
  count ← scanning 0 (query λ d. ok (count_users id d))
  guard (not (ltb 0 count)) ("department is not empty (has users)", 400)
  n ← or_500 (exec (delete_department id))
  or_not_found "not found" n
  logged ctx "department.delete" (target id) ""
