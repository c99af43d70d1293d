-- ===== src/Messaging/Dm/Laws.antt =====
-- What `findOrCreateDMChannel` leaves in the tables.
use ziyad_messenger.Base.{
  String, Bool, true, false, ◌≡◌, ap, ◌∙◌, inl, inr, [], ◌∷◌, ◌++◌, ◌==◌, eq_refl, arith,
  if◌then◌else◌, any-append,
}
use ziyad_messenger.Messaging.Store.{
  ChannelView, Db, Router, return, ◌>>◌, Error, Result, ok, err, M, query, exec,
}
use ziyad_messenger.Messaging.Store.Laws.{
  SameState, SameClients, and_then-eq-ok, and_then-eq-err, query-eq-ok, query-eq-err, exec-eq-ok,
  Wrote, transaction-eq-ok, transaction-eq-err,
}
use ziyad_messenger.Messaging.Dm.Names.{dm_id_comm}
use mathlib.Core.List.{append_assoc}
use ziyad_messenger.Messaging.Queries.{insert_channel, insert_member}
use ziyad_messenger.Messaging.Dm.{
  dm_id, has_channel, dm_view, create_dm_channel, find_or_create_dm_channel,
}

-- The tables with a new DM channel of two users.
unfoldable pub with_dm : String → String → Db → Db
with_dm u v d = record d {
  channels = d.channels ++ dm_view (dm_id u v) ∷ [];
  channel_members = d.channel_members ++ ((dm_id u v, u) ∷ (dm_id u v, v) ∷ []);
}

-- The three inserts, one behind the other.
created :
    (u v : String) (r q q₁ q₂ q' r' : Router)
    → SameState r q
    → Wrote (insert_channel (dm_view (dm_id u v))) q q₁
    → Wrote (insert_member (dm_id u v) u) q₁ q₂
    → Wrote (insert_member (dm_id u v) v) q₂ q'
    → SameState q' r'
    → (r'.db ≡ with_dm u v r.db) × SameClients r r'
unfolding insert_channel insert_member with_dm
created u v r q q₁ q₂ q' r' s w₁ w₂ w₃ s' =
    ground (arith, append_assoc r.db.channel_members ((dm_id u v, u) ∷ []) ((dm_id u v, v) ∷ []))

create_dm_channel-eq-ok :
    (u v : String) (r r' : Router)
    → create_dm_channel (dm_id u v) u v r ≡ (ok tt, r')
    → (r'.db ≡ with_dm u v r.db) × SameClients r r'
unfolding create_dm_channel
create_dm_channel-eq-ok u v r r' h =
    let (q, q', start, ran, stop) = transaction-eq-ok _ r h in
    let (_, q₁, first, h₁) = and_then-eq-ok (exec (insert_channel (dm_view (dm_id u v))) q) _ ran in
    let (_, q₂, second, third) = and_then-eq-ok (exec (insert_member (dm_id u v) u) q₁) _ h₁ in
    created u v r q q₁ q₂ q' r' start (exec-eq-ok _ q first) (exec-eq-ok _ q₁ second)
      (exec-eq-ok _ q₂ third) stop

unfoldable pub dm_outcome : String → String → Db → Db
dm_outcome u v d = if has_channel (dm_id u v) d then d else with_dm u v d

-- What follows the look at the channels.
unfoldable pub after_look : String → String → Bool → M Error String
after_look u v found =
    if found then return (dm_id u v) else create_dm_channel (dm_id u v) u v >> return (dm_id u v)

after_look-eq-ok :
    (u v : String) (found : Bool) (q : Router) {id : String} {r' : Router}
    → after_look u v found q ≡ (ok id, r')
    → (id ≡ dm_id u v) × (r'.db ≡ (if found then q.db else with_dm u v q.db)) × SameClients q r'
unfolding after_look
after_look-eq-ok u v true q h = ground arith
after_look-eq-ok u v false q h =
    let (_, s, made, end) = and_then-eq-ok (create_dm_channel (dm_id u v) u v q) _ h in
    let (tables, same) = create_dm_channel-eq-ok u v q s made in
    (ground arith, ground (arith, end, tables), ground (arith, end, same))

after_look-eq-err :
    (u v : String) (found : Bool) (q : Router) {e : Error} {r' : Router}
    → after_look u v found q ≡ (err e, r')
    → r'.db ≡ q.db
unfolding after_look create_dm_channel
after_look-eq-err u v true q h = ground arith
after_look-eq-err u v false q h = elim (and_then-eq-err (create_dm_channel (dm_id u v) u v q) _ h) [
  | inl e ↦ transaction-eq-err _ q e
  | inr (_, s, made, end) ↦ cc end
]

again :
    (u v id : String) (r : Router)
    → id ≡ dm_id u v
    → has_channel (dm_id u v) r.db ≡ true
    → r.faults ≡ []
    → find_or_create_dm_channel v u r ≡ (ok id, r)
unfolding find_or_create_dm_channel query
again u v id r named found calm = rw dm_id_comm (ground arith)

-- A call that succeeds returns the pair's name; it leaves the tables as they were if there is a
-- channel of that name, and else adds the channel and its two members, and nothing more.
pub find_or_create-eq-ok :
    (u v : String) (r : Router) {id : String} {r' : Router}
    → find_or_create_dm_channel u v r ≡ (ok id, r')
    → (id ≡ dm_id u v) × (r'.db ≡ dm_outcome u v r.db) × SameClients r r'
unfolding find_or_create_dm_channel dm_outcome after_look
find_or_create-eq-ok u v r h =
    let look : Db → Result Error Bool = λ d. ok (has_channel (dm_id u v) d) in
    let (found, q, looked, rest) = and_then-eq-ok (query look r) _ h in
    let (answered, same) = query-eq-ok look r looked in
    let (named, tables, clients) = after_look-eq-ok u v found q rest in
    (named, ground (arith, answered, same, tables), ground (arith, same, clients))

-- A call that fails leaves the tables as they were.
pub find_or_create-eq-err :
    (u v : String) (r : Router) {e : Error} {r' : Router}
    → find_or_create_dm_channel u v r ≡ (err e, r')
    → r'.db ≡ r.db
unfolding find_or_create_dm_channel after_look
find_or_create-eq-err u v r h =
    let look : Db → Result Error Bool = λ d. ok (has_channel (dm_id u v) d) in
    elim (and_then-eq-err (query look r) _ h) [
      | inl e ↦ (query-eq-err look r e).db
      | inr (found, q, looked, rest) ↦
          after_look-eq-err u v found q rest ∙ (query-eq-ok look r looked).1.db
    ]

has_channel-dm_outcome : (u v : String) (d : Db) → has_channel (dm_id u v) (dm_outcome u v d) ≡ true
unfolding has_channel dm_outcome with_dm
has_channel-dm_outcome u v d = ground (
  arith,
  any-append (λ (c : ChannelView). c.id == dm_id u v) d.channels (dm_view (dm_id u v) ∷ []),
  eq_refl (dm_id u v),
)

-- Asked again from the other side, with an engine that answers, the call finds the same channel and
-- changes nothing.
pub find_or_create_again :
    (u v : String) (r : Router) {id : String} {r' : Router}
    → find_or_create_dm_channel u v r ≡ (ok id, r')
    → r'.faults ≡ []
    → find_or_create_dm_channel v u r' ≡ (ok id, r')
find_or_create_again u v r {id} {r'} h calm =
    let (named, tables, same) = find_or_create-eq-ok u v r h in
    again u v id r' named (ap (has_channel (dm_id u v)) tables ∙ has_channel-dm_outcome u v r.db)
      calm
