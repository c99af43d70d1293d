-- ===== src/Admin/Tests.antt =====
-- The handlers of backend/admin-api at concrete requests.
mod Encoding
mod Gateway
mod Setup
mod Machines
mod Metrics
use Prim.Native.String
use mathlib.Core.List.{Mem, mem-cons_self}
use ziyad_messenger.Base.{
  ℕ, String, Bool, true, false, List, [], ◌∷◌, ◌++◌, map, Option, none, some, ◌≡◌, ◌≢◌, ◌⊎◌, inl,
  inr, ◌≤◌, min, refl, arith, ◌==◌, any, All, length, if◌then◌else◌,
}
use ziyad_messenger.Base.Int.{atoi, digits, pos}
use ziyad_messenger.Base.Text.{cut}
use ziyad_messenger.Base.Http.{http_error, reply}
use ziyad_messenger.Base.State.{Result, ok, err}
use ziyad_messenger.Admin.Store.{
  AdminUser, RoleRow, Department, ChannelRow, MemberRow, UserRow, DeviceRow, LogEntry, Db, Service,
  Claims, Ctx, query, exec, log, logged, insert_log,
}
use ziyad_messenger.Admin.Auth.{Packages, get_secret}
use ziyad_messenger.Admin.Users.{User, list_users}
use ziyad_messenger.Admin.Users.Listing.{list_users_null}
use ziyad_messenger.Admin.Roles.{
  Json, Role, RoleRequest, list_roles, create_role, insert_role, perm_encode,
}
use ziyad_messenger.Admin.Roles.Permissions.{IsFaithful, list_roles-create_role}
use ziyad_messenger.Admin.Departments.{count_users, delete_department, delete_department_handler}
use ziyad_messenger.Admin.Departments.Deletion.{delete_department_handler-eq-ok}
use ziyad_messenger.Admin.Channels.{delete_channel, delete_channel_handler}
use ziyad_messenger.Admin.Channels.Orphans.{find_or_create-delete_channel}
use ziyad_messenger.Admin.Logs.{list_handler, get_list, limited, skipped, matches, default_query}
use ziyad_messenger.Admin.Logs.Pages.{list_handler-IsPage}
use ziyad_messenger.Base.Order.{order_by, order_from, insert_sorted}
use ziyad_messenger.Messaging.Store.{Router}
use ziyad_messenger.Messaging.Dm.{dm_id, find_or_create_dm_channel}
use ziyad_messenger.Admin.Tests.Encoding.{json, json-IsFaithful}
use ziyad_messenger.Admin.Server.{Call, serve}
use ziyad_messenger.Admin.Server.Access.{IsAdmin, Refused, serve-IsAdmin}
use ziyad_messenger.Admin.Server.Failure.{SameTables, serve-SameTables}
use ziyad_messenger.Admin.Server.Trail.{IsSigned, serve-IsSigned}

abbrev root_claims : Claims
root_claims = record { user_id = "1"; username = "root"; role = "super_admin" }

-- One token is good.
abbrev pub packages : Packages
packages = record {
  generate_from_password = λ salt password. some (String.◌++◌ salt password);
  compare_hash_and_password = λ hash password. hash == password;
  sign = λ claims expires now secret. some "good";
  parse_with_claims =
      λ token secret now. if token == "good" then some (root_claims, true) else none;
}

abbrev pub no_json : Json
no_json = record { marshal = λ ps. "[]"; unmarshal = λ s. [] }

abbrev pub ctx : Ctx
ctx = record {
  claims = root_claims;
  ip = "10.0.0.1";
  path = "/admin";
  now = 1000;
  uuid = "u-9";
  salt = "salt";
}

abbrev sales : Department
sales = record { id = "d1"; name = "Sales"; created_at = 1; updated_at = 1 }

-- As the auth service writes a row.
abbrev ann : UserRow
ann = record {
  id = "2";
  username = "ann";
  full_name = some "Ann";
  password_hash = "x";
  role_id = some "user";
  department_id = none;
  created_at = 77;
  updated_at = 77;
}

abbrev pub tables : Db
tables = record {
  admin_users = [];
  roles = [];
  departments = sales ∷ [];
  channels = [];
  channel_members = [];
  users = ann ∷ [];
  devices = [];
  audit_logs = [];
}

abbrev pub answering_service : Service
answering_service = record { db = tables; faults = none ∷ none ∷ none ∷ none ∷ [] }

serve-SameTables_example :
    SameTables tables
      (serve packages no_json "" "Bearer good"
        (Call.department_delete "d2")
        ctx
        answering_service).1.db
unfolding serve delete_department_handler delete_department query exec logged log insert_log cut
serve-SameTables_example =
    serve-SameTables packages no_json "" "Bearer good" (Call.department_delete "d2") ctx
      answering_service "not found" 404 refl

serve-IsSigned_example :
    (more : List LogEntry) × ((serve packages no_json "" "Bearer good"
        (Call.department_delete "d1")
        ctx
        answering_service).1.db.audit_logs
      ≡ [] ++ more)
    × All (IsSigned packages "" 1000 "Bearer good") more
serve-IsSigned_example =
    serve-IsSigned packages no_json "" "Bearer good" (Call.department_delete "d1") ctx
      answering_service

list_users_null_example :
    (rows : List User) × (x : User) × ((list_users answering_service).0 ≡ ok rows)
    × Mem x rows
    × (x.id ≡ "2")
    × (x.created_at ≡ 0)
    × (x.updated_at ≡ 0)
list_users_null_example =
    list_users_null answering_service ann (none ∷ none ∷ none ∷ []) refl (mem-cons_self {l = []})
      refl

abbrev editors : RoleRequest
editors = record { name = "editors"; permissions = "read" ∷ "write" ∷ [] }

abbrev with_role : Service
with_role = (create_role json (some editors) ctx answering_service).1

list_roles-create_role_example :
    (rows : List Role) × (role : Role) × ((list_roles json with_role).0 ≡ ok rows)
    × Mem role rows
    × (role.name ≡ "editors")
    × (role.permissions ≡ "read" ∷ "write" ∷ [])
unfolding create_role insert_role exec logged log insert_log
list_roles-create_role_example =
    list_roles-create_role json editors ctx answering_service with_role ("u-9", "editors")
      (none ∷ []) json-IsFaithful refl refl

abbrev entry : ℕ → LogEntry
entry n = record {
  id = n;
  timestamp = n;
  actor_id = "1";
  actor_username = "root";
  action = "user.create";
  target_resource = "users/2";
  details = "";
  ip_address = "10.0.0.1";
}

abbrev with_log : Service
with_log = record {
  db = record tables { audit_logs = entry 1 ∷ entry 2 ∷ entry 3 ∷ [] };
  faults = [];
}

list_handler-IsPage_example :
    (length (entry 3 ∷ entry 2 ∷ []) ≤ min 2 200)
    × All (λ (e : LogEntry). matches "1" "" e ≡ true) (entry 3 ∷ entry 2 ∷ [])
unfolding list_handler get_list limited skipped matches query atoi digits order_by order_from
    insert_sorted
list_handler-IsPage_example =
    list_handler-IsPage none (some "2") "1" "" with_log with_log (entry 3 ∷ entry 2 ∷ []) 2 refl
      refl

abbrev dm_channel : ChannelRow
dm_channel = record {
  id = dm_id "a" "b";
  name = "Direct Message";
  type = some "dm";
  department_id = none;
  created_at = 1;
  updated_at = 1;
  created_by = none;
}

abbrev dm_member : String → MemberRow
dm_member user_id = record {
  channel_id = dm_id "a" "b";
  user_id = user_id;
  role = none;
  joined_at = 1;
}

abbrev with_dm : Service
with_dm = record {
  db = record tables {
    channels = dm_channel ∷ [];
    channel_members = dm_member "a" ∷ dm_member "b" ∷ [];
  };
  faults = [];
}

abbrev without_dm : Service
without_dm = (delete_channel_handler (dm_id "a" "b") ctx with_dm).1

-- The messaging service on the tables that are left.
abbrev router : Router
router = record {
  db = record {
    users = [];
    channels = [];
    channel_members = (dm_id "a" "b", "a") ∷ (dm_id "a" "b", "b") ∷ [];
    messages = [];
  };
  clients = [];
  next_conn = 0;
  closed = [];
  faults = [];
}

find_or_create-delete_channel_example :
    (find_or_create_dm_channel "a" "b" router ≢ (ok (dm_id "a" "b"), router))
    × (find_or_create_dm_channel "b" "a" router ≢ (ok (dm_id "a" "b"), router))
unfolding delete_channel_handler delete_channel exec logged log insert_log dm_id
find_or_create-delete_channel_example =
    find_or_create-delete_channel "a" "b" (dm_id "a" "b") ctx with_dm without_dm router router refl
      refl (record { channels = refl; members = refl })
