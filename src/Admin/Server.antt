-- ===== src/Admin/Server.antt =====
-- The routes of backend/admin-api/cmd/server/main.go under /admin that work on the tables, with their
-- middleware: `JWTAuth`, `RequireAdmin` and `Audit` (backend/admin-api/internal/middleware/audit.go).
-- The web framework finds the route and reads the body: a call is what it hands on. The log of accesses is in
-- Observability; the CORS headers are left out.
pub mod Access
pub mod Notes
pub mod Trail
pub mod Failure
use ziyad_messenger.Base.{ℕ, String, Bool, true, false, List, Option, none, some, if◌then◌else◌}
use ziyad_messenger.Base.Http.{Response, http_error, reply}
use ziyad_messenger.Base.State.{Result, ok, err, and_then, ◌>>=◌, return}
use ziyad_messenger.Admin.Store.{
  AdminUser, Department, LogEntry, Service, M, Stop, Claims, Ctx, logged,
}
use ziyad_messenger.Admin.Auth.{
  Packages, LoginRequest, LoginResponse, CreateAdminRequest, create_admin_handler, jwt_auth,
  require_admin,
}
use ziyad_messenger.Admin.Logs.{list_handler}
use ziyad_messenger.Admin.Users.{
  User, CreateUserRequest, UpdateUserRequest, list_users, create_user, update_user_handler,
  delete_user_handler, reset_password,
}
use ziyad_messenger.Admin.Roles.{
  Json, Role, RoleRequest, list_roles, create_role, update_role, delete_role_handler,
}
use ziyad_messenger.Admin.Departments.{
  list_departments, create_department, delete_department_handler,
}
use ziyad_messenger.Admin.Devices.{Device, list_devices, delete_device_handler}
use ziyad_messenger.Admin.Channels.{
  Channel, CreateChannelRequest, AddMemberRequest, MemberInfo, list_channels, create_channel,
  delete_channel_handler, list_members, add_member, remove_member,
}

-- A route that works on the tables, with its parameters and the body. What else is under /admin is in Gateway.
pub data Call : Type 0 where
  me : Call
  admin_create : Option CreateAdminRequest → Call
  users_list : Call
  user_create : Option CreateUserRequest → Call
  user_update : String → Option UpdateUserRequest → Call
  user_delete : String → Call
  user_reset : String → Call
  departments_list : Call
  department_create : Option String → Call
  department_delete : String → Call
  roles_list : Call
  role_create : Option RoleRequest → Call
  role_update : String → Option RoleRequest → Call
  role_delete : String → Call
  devices_list : Call
  device_delete : String → Call
  channels_list : Call
  channel_create : Option CreateChannelRequest → Call
  channel_delete : String → Call
  members_list : String → Call
  member_add : String → Option AddMemberRequest → Call
  member_remove : String → String → Call
  audit_list : Option String → Option String → String → String → Call

-- What is answered.
pub data Body : Type 0 where
  claims : Claims → Body
  admin : AdminUser → Body
  users : List User → Body
  departments : List Department → Body
  roles : List Role → Body
  devices : List Device → Body
  channels : List Channel → Body
  members : List MemberInfo → Body
  logs : List LogEntry → Body
  created : String × String → Body
  channel_created : String × String × String → Body
  message : String → Body
  done : Body

abbrev pub answering : {A : Type 0} → ℕ → (A → Body) → M Stop A → M Stop (ℕ × Body)
answering code f m = m >>= λ a. return (code, f a)

abbrev pub finishing : M Stop (Unit {0}) → M Stop (ℕ × Body)
finishing m = m >>= λ _. return (200, done)

module _ (pk : Packages) (json : Json) where
  unfoldable pub handle : Call → Ctx → M Stop (ℕ × Body)
  handle me ctx = return (200, claims ctx.claims)
  handle (admin_create body) ctx = answering 201 admin (create_admin_handler pk body ctx)
  handle users_list ctx = answering 200 users list_users
  handle (user_create body) ctx = answering 201 created (create_user pk body ctx)
  handle (user_update id body) ctx = finishing (update_user_handler id body ctx)
  handle (user_delete id) ctx = finishing (delete_user_handler id ctx)
  handle (user_reset id) ctx = answering 200 message (reset_password pk id ctx)
  handle departments_list ctx = answering 200 departments list_departments
  handle (department_create body) ctx = answering 201 created (create_department body ctx)
  handle (department_delete id) ctx = finishing (delete_department_handler id ctx)
  handle roles_list ctx = answering 200 roles (list_roles json)
  handle (role_create body) ctx = answering 201 created (create_role json body ctx)
  handle (role_update id body) ctx = finishing (update_role json id body ctx)
  handle (role_delete id) ctx = finishing (delete_role_handler id ctx)
  handle devices_list ctx = answering 200 devices list_devices
  handle (device_delete id) ctx = finishing (delete_device_handler id ctx)
  handle channels_list ctx = answering 200 channels list_channels
  handle (channel_create body) ctx = answering 201 channel_created (create_channel body ctx)
  handle (channel_delete id) ctx = finishing (delete_channel_handler id ctx)
  handle (members_list id) ctx = answering 200 members (list_members id)
  handle (member_add id body) ctx = finishing (add_member id body ctx)
  handle (member_remove id user_id) ctx = finishing (remove_member id user_id ctx)
  handle (audit_list offset limit actor action) ctx =
      answering 200 logs (list_handler offset limit actor action)

-- The arguments of `middleware.Audit` in the table of routes.
unfoldable pub audit_of : Call → Option (String × String)
audit_of me = none
audit_of (admin_create body) = some ("admin.create", "admins")
audit_of users_list = some ("users.list", "users")
audit_of (user_create body) = some ("user.create", "users")
audit_of (user_update id body) = some ("user.update", "users")
audit_of (user_delete id) = some ("user.delete", "users")
audit_of (user_reset id) = some ("user.reset_password", "users")
audit_of departments_list = some ("departments.list", "departments")
audit_of (department_create body) = some ("department.create", "departments")
audit_of (department_delete id) = some ("department.delete", "departments")
audit_of roles_list = some ("roles.list", "roles")
audit_of (role_create body) = some ("role.create", "roles")
audit_of (role_update id body) = some ("role.update", "roles")
audit_of (role_delete id) = some ("role.delete", "roles")
audit_of devices_list = some ("devices.list", "devices")
audit_of (device_delete id) = some ("device.delete", "devices")
audit_of channels_list = some ("channels.list", "channels")
audit_of (channel_create body) = some ("channel.create", "channels")
audit_of (channel_delete id) = some ("channel.delete", "channels")
audit_of (members_list id) = none
audit_of (member_add id body) = none
audit_of (member_remove id user_id) = none
audit_of (audit_list offset limit actor action) = none

-- `Audit`: behind the handler, whatever it answered.
abbrev pub audited :
    {A : Type 0}
    → Option (String × String)
    → Ctx
    → Result Stop A × Service
    → Result Stop A × Service
audited none ctx x = x
audited (some (action, target)) ctx (x, s) = (x, (logged {E = Stop} ctx action target ctx.path s).1)

abbrev pub responded : Result Stop (ℕ × Body) → Response Body
responded (ok (code, body)) = reply code body
responded (err (text, code)) = http_error text code

abbrev pub refused : Result Stop (Unit {0}) → Result Stop Claims → Result Stop Claims
refused (ok _) x = x
refused (err e) x = err e

-- `JWTAuth` and then `RequireAdmin`.
unfoldable pub admit : Packages → String → ℕ → String → Result Stop Claims
unfolding jwt_auth require_admin
admit pk env now authorization = elim (jwt_auth pk env now authorization) [
  | err e ↦ err e
  | ok who ↦ refused (require_admin who) (ok who)
]

module _ (pk : Packages) (json : Json) (env : String) where
  abbrev pub admitted : Result Stop Claims → Call → Ctx → Service → Response Body × Service
  admitted (err (text, code)) call ctx s = (http_error text code, s)
  admitted (ok who) call ctx s =
      let mine = record ctx { claims = who } in
      let x = audited (audit_of call) mine (handle pk json call mine s) in (responded x.0, x.1)

  -- A request to one of these routes with an Authorization header. What `ctx` says of the caller is not read.
  unfoldable pub serve : String → Call → Ctx → Service → Response Body × Service
  unfolding handle audit_of admit
  serve authorization call ctx s = admitted (admit pk env ctx.now authorization) call ctx s
