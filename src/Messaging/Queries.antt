-- ===== src/Messaging/Queries.antt =====
-- The SQL statements of messaging/main.go, on the tables, and the methods that run one of them.
pub mod Keys
pub mod History
pub mod Channels
use ziyad_messenger.Base.{
  ℕ, String, Bool, true, false, not, ◌&&◌, ◌||◌, List, [], ◌∷◌, ◌++◌, map, Option, none, some, ◌==◌,
  any, select, find, take, ltb, if◌then◌else◌,
}
use ziyad_messenger.Protocol.{Message}
use ziyad_messenger.Messaging.Store.{
  User, ChannelView, ChannelMemberView, Db, Router, Error, channel_missing, forbidden, no_rows,
  db_error, Result, ok, err, M, ◌>>=◌, and_then, return, throw, query, exec,
}
use ziyad_messenger.Base.Order.{text_lt, order_by}

-- SELECT type FROM channels WHERE id = ?
unfoldable pub channel_type_row : String → Db → Option String
channel_type_row id d = elim (find (λ (c : ChannelView). c.id == id) d.channels) [
  | none ↦ none
  | some c ↦ some c.type
]

unfoldable pub or_missing : Option String → Result Error String
or_missing none = err channel_missing
or_missing (some t) = ok t

unfoldable pub get_channel_type : String → M Error String
unfolding or_missing
get_channel_type channel_id = query λ d. or_missing (channel_type_row channel_id d)

-- SELECT EXISTS(SELECT 1 FROM users WHERE id = ?)
abbrev pub has_user : String → Db → Bool
has_user id d = any (λ (u : User). u.id == id) d.users

unfoldable pub user_exists : String → M Error Bool
user_exists user_id = query λ d. ok (has_user user_id d)

-- SELECT id FROM users WHERE username = ?
unfoldable pub user_row : String → Db → Result Error String
user_row username d = elim (find (λ (u : User). u.username == username) d.users) [
  | none ↦ err no_rows
  | some u ↦ ok u.id
]

unfoldable pub find_user_id_by_username : String → M Error String
unfolding user_row
find_user_id_by_username username = query (user_row username)

-- SELECT EXISTS(SELECT 1 FROM channel_members WHERE channel_id = ? AND user_id = ?)
unfoldable pub has_member : String → String → List (String × String) → Bool
has_member channel_id user_id ms = any (λ (c, u). c == channel_id && u == user_id) ms

unfoldable pub is_channel_member : String → String → M Error Bool
is_channel_member channel_id user_id =
    query λ d. ok (has_member channel_id user_id d.channel_members)

-- SELECT user_id FROM channel_members WHERE channel_id = ?
unfoldable pub members_of : String → List (String × String) → List String
members_of channel_id [] = []
members_of channel_id ((c, u) ∷ ms) =
    if c == channel_id then u ∷ members_of channel_id ms else members_of channel_id ms

-- The members of a channel that is not public, with the channel's type.
abbrev no_members : List String
no_members = []

unfoldable pub get_channel_members : String → M Error (List String × String)
get_channel_members channel_id = do
  ch_type ← get_channel_type channel_id
  let rows : M Error (List String × String) =
      query λ d. ok (members_of channel_id d.channel_members, ch_type)
  if ch_type == "public" then return (no_members, "public") else rows

-- One row for each of a channel's members, or one with NULL.
abbrev pub left_rows : ChannelView → List String → List (ChannelView × Option String)
left_rows c [] = (c, none) ∷ []
left_rows c (u ∷ us) = (c, some u) ∷ map (λ v. (c, some v)) us

unfoldable pub left_join : ChannelView → List (String × String) → List (ChannelView × Option String)
left_join c ms = left_rows c (members_of c.id ms)

unfoldable pub joined :
    List ChannelView → List (String × String) → List (ChannelView × Option String)
joined [] ms = []
joined (c ∷ cs) ms = left_join c ms ++ joined cs ms

abbrev is_row_of : String → ChannelView × Option String → Bool
is_row_of user_id (c, none) = c.type == "public"
is_row_of user_id (c, some u) = c.type == "public" || u == user_id

abbrev pub same_view : ChannelView → ChannelView → Bool
same_view a b = a.id == b.id && a.name == b.name && a.type == b.type

unfoldable pub distinct : List ChannelView → List ChannelView
distinct [] = []
distinct (c ∷ cs) = c ∷ select (λ x. not (same_view c x)) (distinct cs)

unfoldable pub accessible_rows : String → Db → List ChannelView
unfolding joined left_join distinct
accessible_rows user_id d =
    order_by (λ a b. text_lt a.name b.name)
      (distinct
        (map (λ row. row.0) (select (is_row_of user_id) (joined d.channels d.channel_members))))

unfoldable pub list_accessible_channels : String → M Error (List ChannelView)
list_accessible_channels user_id = query λ d. ok (accessible_rows user_id d)

abbrev coalesce : Option String → String
coalesce none = ""
coalesce (some s) = s

abbrev member_view : User → ChannelMemberView
member_view u = record { id = u.id; username = u.username; full_name = coalesce u.full_name }

-- JOIN users u ON u.id = m.user_id, for the members of one channel.
unfoldable pub member_views : List String → List User → List ChannelMemberView
member_views [] us = []
member_views (m ∷ ms) us = map member_view (select (λ u. u.id == m) us) ++ member_views ms us

unfoldable pub list_channel_members : String → M Error (List ChannelMemberView)
unfolding member_views
list_channel_members channel_id = query λ d. ok (
    order_by (λ a b. text_lt a.username b.username)
      (member_views (members_of channel_id d.channel_members) d.users))

-- SELECT … FROM messages WHERE channel_id = ? ORDER BY timestamp ASC LIMIT 100
unfoldable pub history_rows : String → List Message → List Message
history_rows channel_id ms =
    take 100
      (order_by (λ a b. ltb a.timestamp b.timestamp) (select (λ m. m.channel_id == channel_id) ms))

unfoldable pub select_history : String → M Error (List Message)
select_history channel_id = query λ d. ok (history_rows channel_id d.messages)

-- INSERT INTO channels (id, name, type), with the primary key's constraint.
unfoldable pub insert_channel : ChannelView → Db → Result Error Db
insert_channel c d =
    if any (λ (x : ChannelView). x.id == c.id) d.channels
    then err (db_error "UNIQUE constraint failed: channels.id")
    else ok (record d { channels = d.channels ++ c ∷ [] })

-- INSERT INTO channel_members (channel_id, user_id)
unfoldable pub insert_member : String → String → Db → Result Error Db
insert_member channel_id user_id d =
    if has_member channel_id user_id d.channel_members
    then err
        (db_error "UNIQUE constraint failed: channel_members.channel_id, channel_members.user_id")
    else ok (record d { channel_members = d.channel_members ++ (channel_id, user_id) ∷ [] })

-- INSERT INTO messages (…)
unfoldable pub insert_message : Message → Db → Result Error Db
insert_message m d =
    if any (λ (x : Message). x.id == m.id) d.messages
    then err (db_error "UNIQUE constraint failed: messages.id")
    else ok (record d { messages = d.messages ++ m ∷ [] })
