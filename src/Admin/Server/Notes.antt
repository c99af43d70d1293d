-- ===== src/Admin/Server/Notes.antt =====
-- What each handler leaves in the log of `audit.Log`.
use ziyad_messenger.Base.{
  ℕ, suc, String, [], ◌∷◌, ◌++◌, Option, none, some, ◌≡◌, ◌⊎◌, arith, length, ◌==◌, if◌then◌else◌,
}
use ziyad_messenger.Base.State.{Result, ok, err, and_then, ◌>>=◌, return}
use ziyad_messenger.Admin.Store.{
  LogEntry, Db, Service, M, query, exec, Stop, or_500, Ctx, log, logged, insert_log,
}
use ziyad_messenger.Admin.Auth.{
  Packages, CreateAdminRequest, create_admin_handler, create_admin_user, insert_admin,
  hash_password,
}
use ziyad_messenger.Admin.Users
use ziyad_messenger.Admin.Roles
use ziyad_messenger.Admin.Departments
use ziyad_messenger.Admin.Devices
use ziyad_messenger.Admin.Channels
use ziyad_messenger.Admin.Logs
use ziyad_messenger.Admin.Server.{Call, Body, handle}

-- The entry that `audit.Log` writes behind `n` others.
abbrev pub entry : Ctx → String → String → String → ℕ → LogEntry
entry ctx action target details n = record {
  id = suc n;
  timestamp = ctx.now;
  actor_id = ctx.claims.user_id;
  actor_username = ctx.claims.username;
  action = action;
  target_resource = target;
  details = details;
  ip_address = ctx.ip;
}

-- The log is as it was, or has one more entry at its end.
abbrev pub Noted : Ctx → Service → Service → Type 0
Noted ctx s s' =
    (action : String) × (target : String) × (details : String) × ((s'.db.audit_logs
        ≡ s.db.audit_logs)
      ⊎ (s'.db.audit_logs
          ≡ s.db.audit_logs ++ entry ctx action target details (length s.db.audit_logs) ∷ []))

abbrev pub Notes : {A : Type 0} → Ctx → M Stop A → Type 0
Notes ctx m = (s : Service) → Noted ctx s (m s).1

delete_department-Notes :
    (id : String) (ctx : Ctx) → Notes ctx (Departments.delete_department_handler id ctx)
unfolding Departments.delete_department_handler Departments.delete_department query exec logged log
    insert_log
delete_department-Notes id ctx s = ("department.delete", Departments.target id, "", ground arith)

delete_device-Notes : (id : String) (ctx : Ctx) → Notes ctx (Devices.delete_device_handler id ctx)
unfolding Devices.delete_device_handler Devices.delete_device exec logged log insert_log
delete_device-Notes id ctx s = ("device.delete", Devices.target id, "", ground arith)

delete_role-Notes : (id : String) (ctx : Ctx) → Notes ctx (Roles.delete_role_handler id ctx)
unfolding Roles.delete_role_handler Roles.delete_role exec logged log insert_log
delete_role-Notes id ctx s = ("role.delete", Roles.target id, "", ground arith)

delete_user-Notes : (id : String) (ctx : Ctx) → Notes ctx (Users.delete_user_handler id ctx)
unfolding Users.delete_user_handler Users.delete_user exec logged log insert_log
delete_user-Notes id ctx s = ("user.delete", Users.target id, "", ground arith)

delete_channel-Notes :
    (id : String) (ctx : Ctx) → Notes ctx (Channels.delete_channel_handler id ctx)
unfolding Channels.delete_channel_handler Channels.delete_channel exec logged log insert_log
delete_channel-Notes id ctx s = ("channel.delete", Channels.target id, "", ground arith)

remove_member-Notes :
    (id user_id : String) (ctx : Ctx) → Notes ctx (Channels.remove_member id user_id ctx)
unfolding Channels.remove_member Channels.delete_member exec logged log insert_log
remove_member-Notes id user_id ctx s =
    ("channel.member.remove", Channels.member_target id user_id, "", ground arith)

create_channel-Notes :
    (body : Option Channels.CreateChannelRequest) (ctx : Ctx)
    → Notes ctx (Channels.create_channel body ctx)
unfolding Channels.create_channel Channels.insert_with_owner Channels.insert_channel
    Channels.insert_member query exec logged log insert_log
create_channel-Notes none ctx s = ("", "", "", ground arith)
create_channel-Notes (some req) ctx s =
    ("channel.create", Channels.target ctx.uuid, req.name, ground arith)

add_member-Notes :
    (id : String) (body : Option Channels.AddMemberRequest) (ctx : Ctx)
    → Notes ctx (Channels.add_member id body ctx)
unfolding Channels.add_member Channels.insert_member exec logged log insert_log
add_member-Notes id none ctx s = ("", "", "", ground arith)
add_member-Notes id (some req) ctx s = (
  "channel.member.add",
  Channels.member_target id req.user_id,
  (if req.role == "" then "member" else req.role),
  ground arith,
)

create_department-Notes :
    (body : Option String) (ctx : Ctx) → Notes ctx (Departments.create_department body ctx)
unfolding Departments.create_department Departments.insert_department exec logged log insert_log
create_department-Notes none ctx s = ("", "", "", ground arith)
create_department-Notes (some name) ctx s =
    ("department.create", Departments.target ctx.uuid, name, ground arith)

update_user-Notes :
    (id : String) (body : Option Users.UpdateUserRequest) (ctx : Ctx)
    → Notes ctx (Users.update_user_handler id body ctx)
unfolding Users.update_user_handler Users.update_user exec logged log insert_log
update_user-Notes id none ctx s = ("", "", "", ground arith)
update_user-Notes id (some req) ctx s = ("user.update", Users.target id, "", ground arith)

module _ (json : Roles.Json) where
  create_role-Notes :
      (body : Option Roles.RoleRequest) (ctx : Ctx) → Notes ctx (Roles.create_role json body ctx)
  unfolding Roles.create_role Roles.insert_role exec logged log insert_log
  create_role-Notes none ctx s = ("", "", "", ground arith)
  create_role-Notes (some req) ctx s =
      ("role.create", Roles.target ctx.uuid, req.name, ground arith)

  update_role-Notes :
      (id : String) (body : Option Roles.RoleRequest) (ctx : Ctx)
      → Notes ctx (Roles.update_role json id body ctx)
  unfolding Roles.update_role Roles.rename_role Roles.set_permissions exec logged log insert_log
  update_role-Notes id none ctx s = ("", "", "", ground arith)
  update_role-Notes id (some req) ctx s = ("role.update", Roles.target id, "", ground arith)

module _ (pk : Packages) where
  create_user-Notes :
      (body : Option Users.CreateUserRequest) (ctx : Ctx)
      → Notes ctx (Users.create_user pk body ctx)
  unfolding Users.create_user Users.insert_user hash_password exec logged log insert_log
  create_user-Notes none ctx s = ("", "", "", ground arith)
  create_user-Notes (some req) ctx s =
      ("user.create", Users.target ctx.uuid, req.username, ground arith)

  reset_password-Notes : (id : String) (ctx : Ctx) → Notes ctx (Users.reset_password pk id ctx)
  unfolding Users.reset_password Users.reset_user hash_password exec logged log insert_log
  reset_password-Notes id ctx s = ("user.reset_password", Users.target id, "", ground arith)

  create_admin-Notes :
      (body : Option CreateAdminRequest) (ctx : Ctx) → Notes ctx (create_admin_handler pk body ctx)
  unfolding create_admin_handler create_admin_user insert_admin hash_password exec
  create_admin-Notes none ctx s = ("", "", "", ground arith)
  create_admin-Notes (some req) ctx s = ("", "", "", ground arith)

query-Notes : {A : Type 0} (ctx : Ctx) (q : Db → Result String A) → Notes ctx (or_500 (query q))
unfolding query
query-Notes ctx q s = ("", "", "", ground arith)

then-Noted :
    {A B : Type 0} (ctx : Ctx) (s : Service) (f : A → B) (x : Result Stop A × Service)
    → Noted ctx s x.1
    → Noted ctx s (and_then x (λ a. return (f a))).1
then-Noted ctx s f (ok a, t) h = h
then-Noted ctx s f (err e, t) h = h

then-Notes :
    {A B : Type 0} (ctx : Ctx) (m : M Stop A) (f : A → B)
    → Notes ctx m
    → Notes ctx (m >>= λ a. return (f a))
then-Notes ctx m f h s = then-Noted ctx s f (m s) (h s)

module _ (pk : Packages) (json : Roles.Json) where
  pub handle-Notes : (call : Call) (ctx : Ctx) → Notes ctx (handle pk json call ctx)
  unfolding handle Users.list_users Departments.list_departments Roles.list_roles
      Devices.list_devices Channels.list_channels Channels.list_members Logs.list_handler
      Logs.get_list
  handle-Notes Call.me ctx = λ s. ("", "", "", ground arith)
  handle-Notes (Call.admin_create body) ctx =
      then-Notes ctx (create_admin_handler pk body ctx) (λ x. (201, Body.admin x))
        (create_admin-Notes pk body ctx)
  handle-Notes Call.users_list ctx =
      then-Notes ctx Users.list_users (λ x. (200, Body.users x)) (query-Notes ctx _)
  handle-Notes (Call.user_create body) ctx =
      then-Notes ctx (Users.create_user pk body ctx) (λ x. (201, Body.created x))
        (create_user-Notes pk body ctx)
  handle-Notes (Call.user_update id body) ctx =
      then-Notes ctx (Users.update_user_handler id body ctx) (λ _. (200, Body.done))
        (update_user-Notes id body ctx)
  handle-Notes (Call.user_delete id) ctx =
      then-Notes ctx (Users.delete_user_handler id ctx) (λ _. (200, Body.done))
        (delete_user-Notes id ctx)
  handle-Notes (Call.user_reset id) ctx =
      then-Notes ctx (Users.reset_password pk id ctx) (λ x. (200, Body.message x))
        (reset_password-Notes pk id ctx)
  handle-Notes Call.departments_list ctx =
      then-Notes ctx Departments.list_departments (λ x. (200, Body.departments x))
        (query-Notes ctx _)
  handle-Notes (Call.department_create body) ctx =
      then-Notes ctx (Departments.create_department body ctx) (λ x. (201, Body.created x))
        (create_department-Notes body ctx)
  handle-Notes (Call.department_delete id) ctx =
      then-Notes ctx (Departments.delete_department_handler id ctx) (λ _. (200, Body.done))
        (delete_department-Notes id ctx)
  handle-Notes Call.roles_list ctx =
      then-Notes ctx (Roles.list_roles json) (λ x. (200, Body.roles x)) (query-Notes ctx _)
  handle-Notes (Call.role_create body) ctx =
      then-Notes ctx (Roles.create_role json body ctx) (λ x. (201, Body.created x))
        (create_role-Notes json body ctx)
  handle-Notes (Call.role_update id body) ctx =
      then-Notes ctx (Roles.update_role json id body ctx) (λ _. (200, Body.done))
        (update_role-Notes json id body ctx)
  handle-Notes (Call.role_delete id) ctx =
      then-Notes ctx (Roles.delete_role_handler id ctx) (λ _. (200, Body.done))
        (delete_role-Notes id ctx)
  handle-Notes Call.devices_list ctx =
      then-Notes ctx Devices.list_devices (λ x. (200, Body.devices x)) (query-Notes ctx _)
  handle-Notes (Call.device_delete id) ctx =
      then-Notes ctx (Devices.delete_device_handler id ctx) (λ _. (200, Body.done))
        (delete_device-Notes id ctx)
  handle-Notes Call.channels_list ctx =
      then-Notes ctx Channels.list_channels (λ x. (200, Body.channels x)) (query-Notes ctx _)
  handle-Notes (Call.channel_create body) ctx =
      then-Notes ctx (Channels.create_channel body ctx) (λ x. (201, Body.channel_created x))
        (create_channel-Notes body ctx)
  handle-Notes (Call.channel_delete id) ctx =
      then-Notes ctx (Channels.delete_channel_handler id ctx) (λ _. (200, Body.done))
        (delete_channel-Notes id ctx)
  handle-Notes (Call.members_list id) ctx =
      then-Notes ctx (Channels.list_members id) (λ x. (200, Body.members x)) (query-Notes ctx _)
  handle-Notes (Call.member_add id body) ctx =
      then-Notes ctx (Channels.add_member id body ctx) (λ _. (200, Body.done))
        (add_member-Notes id body ctx)
  handle-Notes (Call.member_remove id user_id) ctx =
      then-Notes ctx (Channels.remove_member id user_id ctx) (λ _. (200, Body.done))
        (remove_member-Notes id user_id ctx)
  handle-Notes (Call.audit_list offset limit actor action) ctx =
      then-Notes ctx (Logs.list_handler offset limit actor action) (λ x. (200, Body.logs x))
        (query-Notes ctx _)
