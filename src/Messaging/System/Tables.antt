-- ===== src/Messaging/System/Tables.antt =====
-- The keys and the references of the tables of messaging/main.go. The schema declares the keys only.
use mathlib.Core.List.{append_assoc}
use ziyad_messenger.Base.{
  String, Bool, true, false, ◌||◌, ◌&&◌, ◌≡◌, refl, List, [], ◌∷◌, ◌++◌, ◌==◌, arith, any, All,
  All-append, any-append, eq_iff, eq_refl, Bool-cases, inl, inr,
}
use ziyad_messenger.Protocol.{Message}
use ziyad_messenger.Messaging.Store.{User, ChannelView, Db}
use ziyad_messenger.Messaging.Queries.{has_member}
use ziyad_messenger.Messaging.Queries.Keys.{IsKeyed}
use ziyad_messenger.Messaging.Dm.{dm_id, has_channel, dm_view}
use ziyad_messenger.Messaging.Dm.Laws.{with_dm, dm_outcome}

abbrev pub is_channel : String → List ChannelView → Bool
is_channel id cs = any (λ c. c.id == id) cs

abbrev pub is_user : String → List User → Bool
is_user id us = any (λ u. u.id == id) us

abbrev pub is_message_id : String → List Message → Bool
is_message_id id ms = any (λ m. m.id == id) ms

abbrev pub DistinctChannels : List ChannelView → Type 0
DistinctChannels [] = Unit {0}
DistinctChannels (c ∷ cs) = (is_channel c.id cs ≡ false) × DistinctChannels cs

abbrev pub DistinctMessages : List Message → Type 0
DistinctMessages [] = Unit {0}
DistinctMessages (m ∷ ms) = (is_message_id m.id ms ≡ false) × DistinctMessages ms

-- A pair of a channel and a user that both exist.
abbrev pub Refers : List ChannelView → List User → String → String → Type 0
Refers cs us c u = (is_channel c cs ≡ true) × (is_user u us ≡ true)

abbrev pub MembersRefer : List ChannelView → List User → List (String × String) → Type 0
MembersRefer cs us = All (λ row. Refers cs us row.0 row.1)

abbrev pub MessagesRefer : List ChannelView → List User → List Message → Type 0
MessagesRefer cs us = All (λ m. Refers cs us m.channel_id m.sender_id)

-- No key stands twice; each membership and each message is of a channel and a user that exist.
pub record IsConsistent (d : Db) : Type 0 where
  pub channels : DistinctChannels d.channels
  pub members : IsKeyed d.channel_members
  pub messages : DistinctMessages d.messages
  pub members_refer : MembersRefer d.channels d.users d.channel_members
  pub messages_refer : MessagesRefer d.channels d.users d.messages

DistinctChannels-concat :
    (c : ChannelView) (cs : List ChannelView)
    → is_channel c.id cs ≡ false
    → DistinctChannels cs
    → DistinctChannels (cs ++ c ∷ [])
DistinctChannels-concat c [] new d = (refl, tt)
DistinctChannels-concat c (x ∷ xs) new d = ground (
  arith,
  any-append (λ (y : ChannelView). y.id == x.id) xs (c ∷ []),
  eq_iff x.id c.id,
  eq_iff c.id x.id,
  DistinctChannels-concat c xs,
)

DistinctMessages-concat :
    (m : Message) (ms : List Message)
    → is_message_id m.id ms ≡ false
    → DistinctMessages ms
    → DistinctMessages (ms ++ m ∷ [])
DistinctMessages-concat m [] new d = (refl, tt)
DistinctMessages-concat m (x ∷ xs) new d = ground (
  arith,
  any-append (λ (y : Message). y.id == x.id) xs (m ∷ []),
  eq_iff x.id m.id,
  eq_iff m.id x.id,
  DistinctMessages-concat m xs,
)

has_member-concat :
    (c u d v : String) (ms : List (String × String))
    → has_member c u (ms ++ (d, v) ∷ []) ≡ (has_member c u ms || (d == c && v == u))
unfolding has_member
has_member-concat c u d v [] = ground arith
has_member-concat c u d v ((x, y) ∷ ms) = ground (arith, has_member-concat c u d v ms)

IsKeyed-concat :
    (c u : String) (ms : List (String × String))
    → has_member c u ms ≡ false
    → IsKeyed ms
    → IsKeyed (ms ++ (c, u) ∷ [])
unfolding has_member
IsKeyed-concat c u [] new k = (refl, tt)
IsKeyed-concat c u ((x, y) ∷ ms) new k = ground (
  arith,
  has_member-concat x y c u ms,
  eq_iff x c,
  eq_iff c x,
  eq_iff y u,
  eq_iff u y,
  IsKeyed-concat c u ms,
)

-- A channel that does not exist has no members.
has_member-missing :
    (c u : String) (cs : List ChannelView) (us : List User) (ms : List (String × String))
    → is_channel c cs ≡ false
    → MembersRefer cs us ms
    → has_member c u ms ≡ false
unfolding has_member
has_member-missing c u cs us [] none r = refl
has_member-missing c u cs us ((x, y) ∷ ms) none r =
    ground (arith, eq_iff x c, has_member-missing c u cs us ms none r.1)

-- One more channel takes away no reference.
MembersRefer-grow :
    (c : ChannelView) (cs : List ChannelView) (us : List User) (ms : List (String × String))
    → MembersRefer cs us ms
    → MembersRefer (cs ++ c ∷ []) us ms
MembersRefer-grow c cs us [] r = tt
MembersRefer-grow c cs us ((x, y) ∷ ms) r =
    ground
      (arith, any-append (λ (z : ChannelView). z.id == x) cs (c ∷ []), MembersRefer-grow c cs us ms)

MessagesRefer-grow :
    (c : ChannelView) (cs : List ChannelView) (us : List User) (ms : List Message)
    → MessagesRefer cs us ms
    → MessagesRefer (cs ++ c ∷ []) us ms
MessagesRefer-grow c cs us [] r = tt
MessagesRefer-grow c cs us (m ∷ ms) r = ground (
  arith,
  any-append (λ (z : ChannelView). z.id == m.channel_id) cs (c ∷ []),
  MessagesRefer-grow c cs us ms,
)

two_members :
    (c u v : String) (cs : List ChannelView) (us : List User) (ms : List (String × String))
    → (u == v) ≡ false
    → is_channel c cs ≡ false
    → MembersRefer cs us ms
    → IsKeyed ms
    → IsKeyed (ms ++ ((c, u) ∷ (c, v) ∷ []))
two_members c u v cs us ms differ new r k = rw (← append_assoc ms ((c, u) ∷ []) ((c, v) ∷ [])) (
    IsKeyed-concat c v (ms ++ (c, u) ∷ [])
      (ground
        (arith, has_member-concat c v c u ms, has_member-missing c v cs us ms new r, eq_iff c c))
      (IsKeyed-concat c u ms (has_member-missing c u cs us ms new r) k))

-- A DM channel of two different users that exist.
pub dm_outcome-IsConsistent :
    (u v : String) (d : Db)
    → (u == v) ≡ false
    → is_user u d.users ≡ true
    → is_user v d.users ≡ true
    → IsConsistent d
    → IsConsistent (dm_outcome u v d)
unfolding dm_outcome with_dm has_channel
dm_outcome-IsConsistent u v d differ first second s =
    let c = dm_view (dm_id u v) in
    elim (Bool-cases (is_channel (dm_id u v) d.channels)) [
      | inl there ↦ rw there s
      | inr new ↦
          let known : is_channel (dm_id u v) (d.channels ++ c ∷ []) ≡ true = ground (
            arith,
            any-append (λ (z : ChannelView). z.id == dm_id u v) d.channels (c ∷ []),
            eq_refl (dm_id u v),
          ) in
          rw new (record {
            channels = DistinctChannels-concat c d.channels new s.channels;
            members =
                two_members (dm_id u v) u v d.channels d.users d.channel_members differ new
                  s.members_refer s.members;
            messages = s.messages;
            members_refer =
                All-append _ d.channel_members _
                  (MembersRefer-grow c d.channels d.users d.channel_members s.members_refer)
                  ((known, first), ((known, second), tt));
            messages_refer = MessagesRefer-grow c d.channels d.users d.messages s.messages_refer;
          })
    ]

-- A new message of a channel and a user that exist.
pub message-IsConsistent :
    (m : Message) (d : Db)
    → is_message_id m.id d.messages ≡ false
    → Refers d.channels d.users m.channel_id m.sender_id
    → IsConsistent d
    → IsConsistent (record d { messages = d.messages ++ m ∷ [] })
message-IsConsistent m d new refers s = record {
  channels = s.channels;
  members = s.members;
  messages = DistinctMessages-concat m d.messages new s.messages;
  members_refer = s.members_refer;
  messages_refer = All-append _ d.messages (m ∷ []) s.messages_refer (refers, tt);
}
