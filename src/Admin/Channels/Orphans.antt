-- ===== src/Admin/Channels/Orphans.antt =====
-- What the deletion of a channel leaves of it.
use ziyad_messenger.Base.{
  String, Bool, true, false, List, [], ◌∷◌, map, ◌&&◌, ◌≢◌, ◌≡◌, refl, arith, ◌==◌, any,
  length-select, any-select-not, inl, inr,
}
use ziyad_messenger.Base.State.{ok}
use ziyad_messenger.Admin.Store.{
  ChannelRow, MemberRow, Db, Service, Ctx, exec, log, logged, insert_log,
}
use ziyad_messenger.Admin.Channels.{is_member, delete_channel, delete_channel_handler}
use ziyad_messenger.Messaging
use ziyad_messenger.Messaging.Store.{Router}
use ziyad_messenger.Messaging.Queries.{has_member}
use ziyad_messenger.Messaging.Dm.{dm_id, has_channel, find_or_create_dm_channel}
use ziyad_messenger.Messaging.Dm.Names.{dm_id_comm}
use ziyad_messenger.Messaging.Dm.Privacy.{find_or_create_stale}

-- A deletion that succeeds takes the channel out of its table and leaves its memberships.
pub delete_channel_handler-eq-ok :
    (id : String) (ctx : Ctx) (s s' : Service)
    → delete_channel_handler id ctx s ≡ (ok tt, s')
    → (any (λ (c : ChannelRow). c.id == id) s.db.channels ≡ true)
      × (any (λ (c : ChannelRow). c.id == id) s'.db.channels ≡ false)
      × (s'.db.channel_members ≡ s.db.channel_members)
unfolding delete_channel_handler delete_channel exec logged log insert_log
delete_channel_handler-eq-ok id ctx s s' h = (
  ground (arith, length-select is_it s.db.channels),
  ground (arith, any-select-not is_it s.db.channels),
  ground arith,
)
  where
    is_it : ChannelRow → Bool
    is_it c = c.id == id

any-map :
    {A B : Type 0} (p : B → Bool) (f : A → B) (xs : List A)
    → any p (map f xs) ≡ any (λ x. p (f x)) xs
any-map p f [] = refl
any-map p f (x ∷ xs) = ground (arith, any-map p f xs)

-- The messaging service reads the tables that the admin service writes.
pub record IsShared (d : Db) (r : Messaging.Store.Db) : Type 0 where
  pub channels :
      map (λ (c : Messaging.Store.ChannelView). c.id) r.channels
      ≡ map (λ (c : ChannelRow). c.id) d.channels
  pub members :
      r.channel_members ≡ map (λ (m : MemberRow). (m.channel_id, m.user_id)) d.channel_members

-- When an administrator has deleted the channel of a DM of which the user `u` was a member, then on the tables that
-- the deletion left no call of the messaging service for the two users, in either order, makes or finds their
-- channel, whatever its engine answers.
pub find_or_create-delete_channel :
    (u v id : String) (ctx : Ctx) (s s' : Service) (r r' : Router)
    → delete_channel_handler (dm_id u v) ctx s ≡ (ok tt, s')
    → any (is_member (dm_id u v) u) s.db.channel_members ≡ true
    → IsShared s'.db r.db
    → (find_or_create_dm_channel u v r ≢ (ok id, r'))
      × (find_or_create_dm_channel v u r ≢ (ok id, r'))
unfolding has_channel has_member
find_or_create-delete_channel u v id ctx s s' r r' h member shared =
    let (_, gone, left) = delete_channel_handler-eq-ok (dm_id u v) ctx s s' h in
    let is_it : String → Bool = λ c. c == dm_id u v in
    let is_member_of : String × String → Bool = λ (c, w). c == dm_id u v && w == u in
    let no_channel : has_channel (dm_id u v) r.db ≡ false = ground (
      arith,
      gone,
      shared.channels,
      any-map is_it (λ (c : Messaging.Store.ChannelView). c.id) r.db.channels,
      any-map is_it (λ (c : ChannelRow). c.id) s'.db.channels,
    ) in
    let stale : has_member (dm_id u v) u r.db.channel_members ≡ true = ground (
      arith,
      member,
      left,
      shared.members,
      any-map is_member_of (λ (m : MemberRow). (m.channel_id, m.user_id)) s'.db.channel_members,
    ) in
    (
      find_or_create_stale u v id r r' no_channel (inl stale),
      find_or_create_stale v u id r r' (rw (dm_id_comm v u) no_channel)
          (inr (rw (dm_id_comm v u) stale)),
    )
