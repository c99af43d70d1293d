-- ===== src/Messaging/Dm/Privacy.antt =====
-- Who can read a DM channel, and when one can no longer be made.
use ziyad_messenger.Base.{
  String, Bool, true, false, ◌≡◌, ◌||◌, ◌&&◌, ◌≢◌, refl, List, [], ◌∷◌, ◌++◌, some, ◌==◌, eq_refl,
  arith, any, any-append, find, inl, inr, ◌⊎◌,
}
use ziyad_messenger.Messaging.Store.{ChannelView, Db, Router, Error, Result, ok, query, exec}
use ziyad_messenger.Messaging.Store.Laws.{
  and_then-eq-ok, query-eq-ok, exec-eq-ok, Wrote, transaction-eq-ok,
}
use ziyad_messenger.Messaging.Queries.{channel_type_row, has_member, insert_channel, insert_member}
use ziyad_messenger.Messaging.Access.Laws.{may_access}
use ziyad_messenger.Messaging.Dm.{
  dm_id, has_channel, dm_view, create_dm_channel, find_or_create_dm_channel,
}
use ziyad_messenger.Messaging.Dm.Laws.{with_dm, dm_outcome, after_look, find_or_create-eq-ok}

has_member-with_dm :
    (u v c w : String) (d : Db)
    → has_member c w (with_dm u v d).channel_members
      ≡ (has_member c w d.channel_members || (dm_id u v == c && (u == w || v == w)))
unfolding has_member with_dm
has_member-with_dm u v c w d = ground (
  arith,
  any-append (λ (x, y). x == c && y == w) d.channel_members ((dm_id u v, u) ∷ (dm_id u v, v) ∷ []),
)

find-append_new :
    (cs : List ChannelView) (x : ChannelView)
    → any (λ (c : ChannelView). c.id == x.id) cs ≡ false
    → find (λ (c : ChannelView). c.id == x.id) (cs ++ x ∷ []) ≡ some x
find-append_new [] x h = ground (arith, eq_refl x.id)
find-append_new (c ∷ cs) x h = ground (arith, find-append_new cs x)

channel_type_row-with_dm :
    (u v : String) (d : Db)
    → has_channel (dm_id u v) d ≡ false
    → channel_type_row (dm_id u v) (with_dm u v d) ≡ some "dm"
unfolding channel_type_row with_dm has_channel
channel_type_row-with_dm u v d h = ground (arith, find-append_new d.channels (dm_view (dm_id u v)))

dm_not_public : ("dm" == "public") ≡ false
dm_not_public = refl

-- A DM channel that is made anew, where no membership of its name was left over, is open to its two
-- users and to nobody else.
pub find_or_create_private :
    (u v w : String) (r : Router) {id : String} {r' : Router}
    → find_or_create_dm_channel u v r ≡ (ok id, r')
    → has_channel (dm_id u v) r.db ≡ false
    → has_member (dm_id u v) w r.db.channel_members ≡ false
    → may_access w id r'.db ≡ (u == w || v == w)
unfolding may_access dm_outcome
find_or_create_private u v w r h new clean =
    let (named, tables, _) = find_or_create-eq-ok u v r h in
    rw (named, tables, new)
      (ground (
        arith,
        channel_type_row-with_dm u v r.db new,
        has_member-with_dm u v (dm_id u v) w r.db,
        clean,
        eq_refl (dm_id u v),
        dm_not_public,
      ))

refused :
    (id u : String) (q q₁ q₂ : Router)
    → has_member id u q.db.channel_members ≡ true
    → Wrote (insert_channel (dm_view id)) q q₁
    → Wrote (insert_member id u) q₁ q₂
    → ⊥
unfolding insert_channel insert_member
refused id u q q₁ q₂ stale w₁ w₂ = ground arith

refused_next :
    (id u v : String) (q q₁ q₂ q₃ : Router)
    → has_member id v q.db.channel_members ≡ true
    → Wrote (insert_channel (dm_view id)) q q₁
    → Wrote (insert_member id u) q₁ q₂
    → Wrote (insert_member id v) q₂ q₃
    → ⊥
unfolding insert_channel insert_member has_member
refused_next id u v q q₁ q₂ q₃ stale w₁ w₂ w₃ = ground (
  arith,
  any-append (λ ((c, w) : String × String). c == id && w == v) q₁.db.channel_members ((id, u) ∷ []),
)

-- One of the two users has a membership of the channel's name already.
abbrev IsStale : String → String → Router → Type 0
IsStale u v r =
    (has_member (dm_id u v) u r.db.channel_members ≡ true)
    ⊎ (has_member (dm_id u v) v r.db.channel_members ≡ true)

after_look_stale :
    (u v id : String) (q r' : Router) → IsStale u v q → after_look u v false q ≢ (ok id, r')
unfolding after_look create_dm_channel
after_look_stale u v id q r' stale h =
    let (_, s, made, _) = and_then-eq-ok (create_dm_channel (dm_id u v) u v q) _ h in
    let (q₀, q', start, ran, stop) = transaction-eq-ok _ q made in
    let (_, q₁, first, h₁) =
      and_then-eq-ok (exec (insert_channel (dm_view (dm_id u v))) q₀) _ ran in
    let (_, q₂, second, third) = and_then-eq-ok (exec (insert_member (dm_id u v) u) q₁) _ h₁ in
    let w₁ = exec-eq-ok _ q₀ first in
    let w₂ = exec-eq-ok _ q₁ second in
    elim stale [
      | inl one ↦ refused (dm_id u v) u q₀ q₁ q₂ (ground (arith, start)) w₁ w₂
      | inr two ↦
          refused_next (dm_id u v) u v q₀ q₁ q₂ q' (ground (arith, start)) w₁ w₂
            (exec-eq-ok _ q₂ third)
    ]

stale_look :
    (u v id : String) (found : Bool) (q r' : Router)
    → found ≡ false
    → IsStale u v q
    → after_look u v found q ≢ (ok id, r')
stale_look u v id true q r' new stale = cc
stale_look u v id false q r' new stale = after_look_stale u v id q r' stale

-- If a membership outlived its DM channel, the channel cannot be made again: whatever the engine
-- answers, no call succeeds.
pub find_or_create_stale :
    (u v id : String) (r r' : Router)
    → has_channel (dm_id u v) r.db ≡ false
    → IsStale u v r
    → find_or_create_dm_channel u v r ≢ (ok id, r')
unfolding find_or_create_dm_channel after_look
find_or_create_stale u v id r r' gone stale h =
    let look : Db → Result Error Bool = λ d. ok (has_channel (dm_id u v) d) in
    let (found, q, looked, rest) = and_then-eq-ok (query look r) _ h in
    let (answered, same) = query-eq-ok look r looked in
    stale_look u v id found q r' (ground (arith, answered))
      (elim stale [ inl one ↦ inl (ground (arith, same)) | inr two ↦ inr (ground (arith, same)) ])
      rest
