-- ===== src/Admin/Server/Failure.antt =====
-- What a refused request leaves behind.
use ziyad_messenger.Base.{
  ℕ, String, Option, none, some, ◌≡◌, inl, inr, refl, arith, select-not, ◌==◌,
}
use ziyad_messenger.Base.State.{Result, ok, err, return}
use ziyad_messenger.Admin.Store.{
  Department, ChannelRow, RoleRow, UserRow, DeviceRow, Db, Service, M, query, exec, Stop, or_500,
  Claims, Ctx, log, logged, insert_log,
}
use ziyad_messenger.Admin.Store.Laws.{and_then-eq-err}
use ziyad_messenger.Admin.Auth.{
  Packages, CreateAdminRequest, create_admin_handler, create_admin_user, insert_admin,
  hash_password,
}
use ziyad_messenger.Admin.Users
use ziyad_messenger.Admin.Roles
use ziyad_messenger.Admin.Departments
use ziyad_messenger.Admin.Devices
use ziyad_messenger.Admin.Channels
use ziyad_messenger.Admin.Logs
use ziyad_messenger.Base.Http.{http_error}
use ziyad_messenger.Admin.Server.{
  Call, Body, answering, finishing, handle, audit_of, audited, responded, admit, admitted, serve,
}

-- A handler that stops leaves the tables as they were.
abbrev pub Restores : {A : Type 0} → M Stop A → Type 0
Restores m = (s s' : Service) (e : Stop) → m s ≡ (err e, s') → s'.db ≡ s.db

delete_department-Restores :
    (id : String) (ctx : Ctx) → Restores (Departments.delete_department_handler id ctx)
unfolding Departments.delete_department_handler Departments.delete_department logged log insert_log
    query exec
delete_department-Restores id ctx s s' e h =
    ground (arith, select-not (λ (x : Department). x.id == id) s.db.departments)

delete_device-Restores : (id : String) (ctx : Ctx) → Restores (Devices.delete_device_handler id ctx)
unfolding Devices.delete_device_handler Devices.delete_device logged log insert_log exec
delete_device-Restores id ctx s s' e h =
    ground (arith, select-not (λ (x : DeviceRow). x.id == id) s.db.devices)

delete_role-Restores : (id : String) (ctx : Ctx) → Restores (Roles.delete_role_handler id ctx)
unfolding Roles.delete_role_handler Roles.delete_role logged log insert_log exec
delete_role-Restores id ctx s s' e h =
    ground (arith, select-not (λ (x : RoleRow). x.id == id) s.db.roles)

delete_user-Restores : (id : String) (ctx : Ctx) → Restores (Users.delete_user_handler id ctx)
unfolding Users.delete_user_handler Users.delete_user logged log insert_log exec
delete_user-Restores id ctx s s' e h =
    ground (arith, select-not (λ (x : UserRow). x.id == id) s.db.users)

delete_channel-Restores :
    (id : String) (ctx : Ctx) → Restores (Channels.delete_channel_handler id ctx)
unfolding Channels.delete_channel_handler Channels.delete_channel logged log insert_log exec
delete_channel-Restores id ctx s s' e h =
    ground (arith, select-not (λ (x : ChannelRow). x.id == id) s.db.channels)

remove_member-Restores :
    (id user_id : String) (ctx : Ctx) → Restores (Channels.remove_member id user_id ctx)
unfolding Channels.remove_member Channels.delete_member logged log insert_log exec
remove_member-Restores id user_id ctx s s' e h =
    ground (arith, select-not (Channels.is_member id user_id) s.db.channel_members)

create_channel-Restores :
    (body : Option Channels.CreateChannelRequest) (ctx : Ctx)
    → Restores (Channels.create_channel body ctx)
unfolding Channels.create_channel Channels.insert_with_owner Channels.insert_channel
    Channels.insert_member logged log insert_log query exec
create_channel-Restores none ctx s s' e h = ground arith
create_channel-Restores (some req) ctx s s' e h = ground arith

add_member-Restores :
    (id : String) (body : Option Channels.AddMemberRequest) (ctx : Ctx)
    → Restores (Channels.add_member id body ctx)
unfolding Channels.add_member Channels.insert_member logged log insert_log exec
add_member-Restores id none ctx s s' e h = ground arith
add_member-Restores id (some req) ctx s s' e h = ground arith

create_department-Restores :
    (body : Option String) (ctx : Ctx) → Restores (Departments.create_department body ctx)
unfolding Departments.create_department Departments.insert_department logged log insert_log exec
create_department-Restores body ctx s s' e h = ground arith

update_user-Restores :
    (id : String) (body : Option Users.UpdateUserRequest) (ctx : Ctx)
    → Restores (Users.update_user_handler id body ctx)
unfolding Users.update_user_handler Users.update_user logged log insert_log exec
update_user-Restores id none ctx s s' e h = ground arith
update_user-Restores id (some req) ctx s s' e h = ground arith

module _ (json : Roles.Json) where
  create_role-Restores :
      (body : Option Roles.RoleRequest) (ctx : Ctx) → Restores (Roles.create_role json body ctx)
  unfolding Roles.create_role Roles.insert_role logged log insert_log exec
  create_role-Restores none ctx s s' e h = ground arith
  create_role-Restores (some req) ctx s s' e h = ground arith

  update_role-Restores :
      (id : String) (body : Option Roles.RoleRequest) (ctx : Ctx)
      → Restores (Roles.update_role json id body ctx)
  unfolding Roles.update_role Roles.rename_role Roles.set_permissions logged log insert_log exec
  update_role-Restores id none ctx s s' e h = ground arith
  update_role-Restores id (some req) ctx s s' e h = ground arith

module _ (pk : Packages) where
  create_user-Restores :
      (body : Option Users.CreateUserRequest) (ctx : Ctx) → Restores (Users.create_user pk body ctx)
  unfolding Users.create_user Users.insert_user hash_password logged log insert_log exec
  create_user-Restores none ctx s s' e h = ground arith
  create_user-Restores (some req) ctx s s' e h = ground arith

  reset_password-Restores : (id : String) (ctx : Ctx) → Restores (Users.reset_password pk id ctx)
  unfolding Users.reset_password Users.reset_user hash_password logged log insert_log exec
  reset_password-Restores id ctx s s' e h = ground arith

  create_admin-Restores :
      (body : Option CreateAdminRequest) (ctx : Ctx) → Restores (create_admin_handler pk body ctx)
  unfolding create_admin_handler create_admin_user insert_admin hash_password exec
  create_admin-Restores none ctx s s' e h = ground arith
  create_admin-Restores (some req) ctx s s' e h = ground arith

query-Restores : {A : Type 0} (q : Db → Result String A) → Restores (or_500 (query q))
unfolding query
query-Restores q s s' e h = ground arith

answering-Restores :
    {A : Type 0} (code : ℕ) (f : A → Body) (m : M Stop A)
    → Restores m
    → Restores (answering code f m)
answering-Restores code f m h s s' e k = elim (and_then-eq-err (m s) (λ a. return (code, f a)) k) [
  | inl l ↦ h s s' e l
  | inr (a, t, l, r) ↦ ground arith
]

finishing-Restores : (m : M Stop (Unit {0})) → Restores m → Restores (finishing m)
finishing-Restores m h s s' e k = elim (and_then-eq-err (m s) (λ a. return (200, Body.done)) k) [
  | inl l ↦ h s s' e l
  | inr (a, t, l, r) ↦ ground arith
]

module _ (pk : Packages) (json : Roles.Json) where
  pub handle-Restores : (call : Call) (ctx : Ctx) → Restores (handle pk json call ctx)
  unfolding handle Users.list_users Departments.list_departments Roles.list_roles
      Devices.list_devices Channels.list_channels Channels.list_members Logs.list_handler
      Logs.get_list
  handle-Restores Call.me ctx = λ s s' e h. ground arith
  handle-Restores (Call.admin_create body) ctx =
      answering-Restores 201 Body.admin (create_admin_handler pk body ctx)
        (create_admin-Restores pk body ctx)
  handle-Restores Call.users_list ctx =
      answering-Restores 200 Body.users Users.list_users (query-Restores _)
  handle-Restores (Call.user_create body) ctx =
      answering-Restores 201 Body.created (Users.create_user pk body ctx)
        (create_user-Restores pk body ctx)
  handle-Restores (Call.user_update id body) ctx =
      finishing-Restores (Users.update_user_handler id body ctx) (update_user-Restores id body ctx)
  handle-Restores (Call.user_delete id) ctx =
      finishing-Restores (Users.delete_user_handler id ctx) (delete_user-Restores id ctx)
  handle-Restores (Call.user_reset id) ctx =
      answering-Restores 200 Body.message (Users.reset_password pk id ctx)
        (reset_password-Restores pk id ctx)
  handle-Restores Call.departments_list ctx =
      answering-Restores 200 Body.departments Departments.list_departments (query-Restores _)
  handle-Restores (Call.department_create body) ctx =
      answering-Restores 201 Body.created (Departments.create_department body ctx)
        (create_department-Restores body ctx)
  handle-Restores (Call.department_delete id) ctx =
      finishing-Restores (Departments.delete_department_handler id ctx)
        (delete_department-Restores id ctx)
  handle-Restores Call.roles_list ctx =
      answering-Restores 200 Body.roles (Roles.list_roles json) (query-Restores _)
  handle-Restores (Call.role_create body) ctx =
      answering-Restores 201 Body.created (Roles.create_role json body ctx)
        (create_role-Restores json body ctx)
  handle-Restores (Call.role_update id body) ctx =
      finishing-Restores (Roles.update_role json id body ctx)
        (update_role-Restores json id body ctx)
  handle-Restores (Call.role_delete id) ctx =
      finishing-Restores (Roles.delete_role_handler id ctx) (delete_role-Restores id ctx)
  handle-Restores Call.devices_list ctx =
      answering-Restores 200 Body.devices Devices.list_devices (query-Restores _)
  handle-Restores (Call.device_delete id) ctx =
      finishing-Restores (Devices.delete_device_handler id ctx) (delete_device-Restores id ctx)
  handle-Restores Call.channels_list ctx =
      answering-Restores 200 Body.channels Channels.list_channels (query-Restores _)
  handle-Restores (Call.channel_create body) ctx =
      answering-Restores 201 Body.channel_created (Channels.create_channel body ctx)
        (create_channel-Restores body ctx)
  handle-Restores (Call.channel_delete id) ctx =
      finishing-Restores (Channels.delete_channel_handler id ctx) (delete_channel-Restores id ctx)
  handle-Restores (Call.members_list id) ctx =
      answering-Restores 200 Body.members (Channels.list_members id) (query-Restores _)
  handle-Restores (Call.member_add id body) ctx =
      finishing-Restores (Channels.add_member id body ctx) (add_member-Restores id body ctx)
  handle-Restores (Call.member_remove id user_id) ctx =
      finishing-Restores (Channels.remove_member id user_id ctx)
        (remove_member-Restores id user_id ctx)
  handle-Restores (Call.audit_list offset limit actor action) ctx =
      answering-Restores 200 Body.logs (Logs.list_handler offset limit actor action)
        (query-Restores _)

-- `d'` differs from `d` in the log of actions only.
abbrev pub SameTables : Db → Db → Type 0
SameTables d d' = d' ≡ record d { audit_logs = d'.audit_logs }

audited-SameTables :
    (A : Type 0) (o : Option (String × String)) (ctx : Ctx) (x : Result Stop A) (s : Service)
    → SameTables s.db (audited o ctx (x, s)).1.db
unfolding logged log insert_log exec
audited-SameTables A none ctx x s = ground arith
audited-SameTables A (some (action, target)) ctx x s = ground arith

module _ (pk : Packages) (json : Roles.Json) (env : String) where
  answered :
      (call : Call) (ctx : Ctx) (s : Service) (x : Result Stop (ℕ × Body) × Service) (text : String)
      (code : ℕ)
      → ((t : Service) (e : Stop) → x ≡ (err e, t) → t.db ≡ s.db)
      → responded (audited (audit_of call) ctx x).0 ≡ http_error text code
      → SameTables s.db (audited (audit_of call) ctx x).1.db
  answered call ctx s (err e, t) text code k h =
      ground (arith, k t e refl, audited-SameTables (ℕ × Body) (audit_of call) ctx (err e) t)
  answered call ctx s (ok a, t) text code k h = ground arith

  -- A request under /admin that is answered with an error changes no table but the log of actions.
  pub serve-SameTables :
      (authorization : String) (call : Call) (ctx : Ctx) (s : Service) (text : String) (code : ℕ)
      → (serve pk json env authorization call ctx s).0 ≡ http_error text code
      → SameTables s.db (serve pk json env authorization call ctx s).1.db
  unfolding serve
  serve-SameTables authorization call ctx s text code = from (admit pk env ctx.now authorization)
    where
      from :
          (who : Result Stop Claims)
          → (admitted pk json env who call ctx s).0 ≡ http_error text code
          → SameTables s.db (admitted pk json env who call ctx s).1.db
      from (err e) h = refl
      from (ok who) h =
          let mine = record ctx { claims = who } in
          answered call mine s (handle pk json call mine s) text code
            (handle-Restores pk json call mine s) h
