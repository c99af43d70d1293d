-- ===== src/Messaging/Dm.antt =====
-- `findOrCreateDMChannel` of messaging/main.go.
pub mod Names
pub mod Laws
pub mod Privacy
use Prim.Native.String
use ziyad_messenger.Base.{String, Bool, ◌==◌, any, if◌then◌else◌}
use ziyad_messenger.Messaging.Store.{
  ChannelView, Db, Error, ok, M, ◌>>=◌, ◌>>◌, and_then, return, query, exec, transaction,
}
use ziyad_messenger.Messaging.Queries.{insert_channel, insert_member}
use ziyad_messenger.Base.Order.{text_lt}

-- fmt.Sprintf("dm:%s:%s", p1, p2)
abbrev pub dm_name : String → String → String
dm_name p1 p2 = String.◌++◌ "dm:" (String.◌++◌ p1 (String.◌++◌ ":" p2))

unfoldable pub dm_id : String → String → String
dm_id u1 u2 = if text_lt u2 u1 then dm_name u2 u1 else dm_name u1 u2

-- SELECT EXISTS(SELECT 1 FROM channels WHERE id = ?)
unfoldable pub has_channel : String → Db → Bool
has_channel id d = any (λ (c : ChannelView). c.id == id) d.channels

abbrev pub dm_view : String → ChannelView
dm_view id = record { id = id; name = "Direct Message"; type = "dm" }

-- The three INSERTs, in one transaction.
unfoldable pub create_dm_channel : String → String → String → M Error (Unit {0})
create_dm_channel id u1 u2 =
    transaction
      do exec (insert_channel (dm_view id)); exec (insert_member id u1); exec (insert_member id u2)

unfoldable pub find_or_create_dm_channel : String → String → M Error String
find_or_create_dm_channel u1 u2 = do
  exists ← query λ d. ok (has_channel (dm_id u1 u2) d)
  let created : M Error String = (create_dm_channel (dm_id u1 u2) u1 u2 >> return (dm_id u1 u2))
  if exists then return (dm_id u1 u2) else created
