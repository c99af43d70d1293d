-- ===== src/Admin/Channels.antt =====
-- backend/admin-api/internal/channels/handler.go.
pub mod Creation
pub mod Orphans
use Prim.Native.String
use ziyad_messenger.Base.{
  ℕ, String, Bool, true, false, not, ◌&&◌, List, [], ◌∷◌, ◌++◌, map, Option, none, some, ◌==◌,
  length, any, select, if◌then◌else◌,
}
use ziyad_messenger.Base.State.{Result, ok, err, and_then, ◌>>=◌, ◌>>◌, return}
use ziyad_messenger.Base.Order.{text_lt, order_by}
use ziyad_messenger.Admin.Store.{
  ChannelRow, MemberRow, UserRow, Db, Service, M, query, exec, keep_or_restore, Stop, or_error,
  or_500, or_not_found, bound_with, Ctx, logged,
}

pub record Channel : Type 0 where
  pub id : String
  pub name : String
  pub type : String
  pub department_id : String
  pub created_at : ℕ
  pub updated_at : ℕ
  pub created_by : String

-- The body of a new channel; `name` is required.
pub record CreateChannelRequest : Type 0 where
  pub name : String
  pub type : String
  pub department_id : String

pub record AddMemberRequest : Type 0 where
  pub user_id : String
  pub role : String

pub record MemberInfo : Type 0 where
  pub id : String
  pub username : String
  pub full_name : String
  pub role : String
  pub joined_at : ℕ

abbrev or_empty : Option String → String
or_empty none = ""
or_empty (some s) = s

-- `rows.Scan` stops at the first NULL that has no pointer, and what follows keeps its zero value.
abbrev scanned : ChannelRow → Option String → Option String → Channel
scanned c none d = record {
  id = c.id;
  name = c.name;
  type = "";
  department_id = "";
  created_at = 0;
  updated_at = 0;
  created_by = "";
}
scanned c (some t) none = record {
  id = c.id;
  name = c.name;
  type = t;
  department_id = "";
  created_at = 0;
  updated_at = 0;
  created_by = "";
}
scanned c (some t) (some d) = record {
  id = c.id;
  name = c.name;
  type = t;
  department_id = d;
  created_at = c.created_at;
  updated_at = c.updated_at;
  created_by = or_empty c.created_by;
}

unfoldable pub scan_channel : ChannelRow → Channel
scan_channel c = scanned c c.type c.department_id

abbrev by_name : ChannelRow → ChannelRow → Bool
by_name a b = text_lt a.name b.name

unfoldable pub list_channels : M Stop (List Channel)
unfolding scan_channel
list_channels = or_500 (query λ d. ok (map scan_channel (order_by by_name d.channels)))

abbrev is_public : Option String → Bool
is_public none = false
is_public (some t) = t == "public"

unfoldable pub list_public : M Stop (List Channel)
unfolding scan_channel
list_public = or_500 (
    query λ d. ok (
      map scan_channel
        (order_by by_name (select (λ (c : ChannelRow). is_public c.type) d.channels))))

unfoldable pub insert_channel : ChannelRow → Db → Result String (ℕ × Db)
insert_channel c d =
    if any (λ (x : ChannelRow). x.id == c.id) d.channels
    then err "UNIQUE constraint failed: channels.id"
    else ok (1, record d { channels = d.channels ++ c ∷ [] })

abbrev pub is_member : String → String → MemberRow → Bool
is_member channel_id user_id m = m.channel_id == channel_id && m.user_id == user_id

unfoldable pub insert_member : MemberRow → Db → Result String (ℕ × Db)
insert_member m d =
    if any (is_member m.channel_id m.user_id) d.channel_members
    then err "UNIQUE constraint failed: channel_members.channel_id, channel_members.user_id"
    else ok (1, record d { channel_members = d.channel_members ++ m ∷ [] })

unfoldable pub delete_channel : String → Db → Result String (ℕ × Db)
delete_channel id d = ok (
  length (select (λ (c : ChannelRow). c.id == id) d.channels),
  record d { channels = select (λ (c : ChannelRow). not (c.id == id)) d.channels },
)

unfoldable pub delete_member : String → String → Db → Result String (ℕ × Db)
delete_member id user_id d = ok (
  length (select (is_member id user_id) d.channel_members),
  record d { channel_members = select (λ m. not (is_member id user_id m)) d.channel_members },
)

abbrev pub target : String → String
target id = String.◌++◌ "channels/" id

abbrev pub member_target : String → String → String
member_target id user_id = String.◌++◌ (target id) (String.◌++◌ "/members/" user_id)

abbrev or_public : String → String
or_public type = if type == "" then "public" else type

unfoldable pub new_channel : CreateChannelRequest → Ctx → ChannelRow
new_channel req ctx = record {
  id = ctx.uuid;
  name = req.name;
  type = some (or_public req.type);
  department_id = some req.department_id;
  created_at = ctx.now;
  updated_at = ctx.now;
  created_by = some ctx.claims.user_id;
}

unfoldable pub owner : Ctx → MemberRow
owner ctx = record {
  channel_id = ctx.uuid;
  user_id = ctx.claims.user_id;
  role = some "owner";
  joined_at = ctx.now;
}

abbrev nothing : Db → Result String (Unit {0})
nothing d = ok tt

-- From `Begin` to `Commit`, with the deferred `Rollback`.
unfoldable pub insert_with_owner : CreateChannelRequest → Ctx → M Stop (Unit {0})
unfolding insert_channel insert_member new_channel owner query
insert_with_owner req ctx s = keep_or_restore s.db (
    (do
      or_error "db error" 500 (query nothing)
      n ← or_error "channel exists or db error" 409 (exec (insert_channel (new_channel req ctx)))
      m ← or_error "failed to add member" 500 (exec (insert_member (owner ctx)))
      or_error "commit error" 500 (query nothing))
      s)

unfoldable pub create_channel :
    Option CreateChannelRequest → Ctx → M Stop (String × String × String)
unfolding insert_with_owner
create_channel body ctx = do
  req ← bound_with (λ (r : CreateChannelRequest). not (r.name == "")) body
  insert_with_owner req ctx
  logged ctx "channel.create" (target ctx.uuid) req.name
  return (ctx.uuid, req.name, or_public req.type)

unfoldable pub delete_channel_handler : String → Ctx → M Stop (Unit {0})
unfolding delete_channel
delete_channel_handler id ctx = do
  n ← or_500 (exec (delete_channel id))
  or_not_found "not found" n
  logged ctx "channel.delete" (target id) ""

-- The member's row, as far as `Scan` gets, with the user's.
abbrev member_info : UserRow → MemberRow → Option String → Option String → MemberInfo
member_info u m none role = record {
  id = u.id;
  username = u.username;
  full_name = "";
  role = "";
  joined_at = 0;
}
member_info u m (some full_name) none = record {
  id = u.id;
  username = u.username;
  full_name = full_name;
  role = "";
  joined_at = 0;
}
member_info u m (some full_name) (some role) = record {
  id = u.id;
  username = u.username;
  full_name = full_name;
  role = role;
  joined_at = m.joined_at;
}

-- JOIN users u ON m.user_id = u.id. The statement asks for no order; rows come as members stand.
unfoldable pub member_infos : String → List MemberRow → List UserRow → List MemberInfo
member_infos id [] us = []
member_infos id (m ∷ ms) us =
    if m.channel_id == id
    then map (λ (u : UserRow). member_info u m u.full_name m.role)
        (select (λ (u : UserRow). u.id == m.user_id) us)
      ++ member_infos id ms us
    else member_infos id ms us

unfoldable pub list_members : String → M Stop (List MemberInfo)
unfolding member_infos
list_members id = or_500 (query λ d. ok (member_infos id d.channel_members d.users))

unfoldable pub add_member : String → Option AddMemberRequest → Ctx → M Stop (Unit {0})
unfolding insert_member
add_member id body ctx = do
  req ← bound_with (λ (r : AddMemberRequest). not (r.user_id == "")) body
  let role = if req.role == "" then "member" else req.role
  n ← or_error "user already in channel or database error" 409 (
      exec (
        insert_member (record {
          channel_id = id;
          user_id = req.user_id;
          role = some role;
          joined_at = ctx.now;
        })))
  logged ctx "channel.member.add" (member_target id req.user_id) role

unfoldable pub remove_member : String → String → Ctx → M Stop (Unit {0})
unfolding delete_member
remove_member id user_id ctx = do
  n ← or_500 (exec (delete_member id user_id))
  or_not_found "member not found" n
  logged ctx "channel.member.remove" (member_target id user_id) ""
