-- ===== src/Messaging/Clients/Delivery.antt =====
-- Who receives a broadcast.
use ziyad_messenger.Base.{
  String, ◌||◌, ◌≡◌, refl, sym, ap, ◌∙◌, inl, inr, List, [], ◌∷◌, map, Option, none, some, ◌==◌,
  eq_iff, arith, Option-cases, if◌then◌else◌, ltb, length, ◌++◌,
}
use ziyad_messenger.Base.Assoc.{lookup, lookup-insert}
use ziyad_messenger.Protocol.{Message}
use ziyad_messenger.Messaging.Store.{Client, Router, ok, query}
use ziyad_messenger.Messaging.Store.Laws.{SameState, and_then-eq-ok}
use ziyad_messenger.Messaging.Queries.{
  channel_type_row, get_channel_type, get_channel_members, has_member, members_of,
}
use ziyad_messenger.Messaging.Queries.Keys.{
  contains, AllDistinct, IsKeyed, contains-members_of, members_of-AllDistinct,
}
use ziyad_messenger.Messaging.Clients.{
  send_capacity, offer, to_all, to_conns, to_members, deliver, broadcast,
}

-- A connection after one offer: the message is the last of its buffer, unless the buffer was full.
abbrev pub after_offer : Message → Client → Client
after_offer msg c =
    if ltb (length c.send) send_capacity then record c { send = c.send ++ msg ∷ [] } else c

-- One offer of the message to each connection of a user.
abbrev pub offered : Message → Option (List Client) → Option (List Client)
offered msg none = none
offered msg (some cs) = some (map (after_offer msg) cs)

lookup-to_all :
    (u : String) (msg : Message) (m : List (String × List Client))
    → lookup u (to_all msg m) ≡ offered msg (lookup u m)
unfolding lookup to_all offer
lookup-to_all u msg [] = refl
lookup-to_all u msg ((v, cs) ∷ m) = ground (arith, lookup-to_all u msg m)

lookup-to_conns :
    (u w : String) (msg : Message) (m : List (String × List Client)) (o : Option (List Client))
    → lookup w m ≡ o
    → lookup u (to_conns w msg o m) ≡ (if w == u then offered msg (lookup u m) else lookup u m)
unfolding offer
lookup-to_conns u w msg m none e = ground (arith, eq_iff w u)
lookup-to_conns u w msg m (some cs) e =
    ground (arith, eq_iff w u, lookup-insert w u (map (offer msg) cs) m)

lookup-to_members :
    (u : String) (us : List String) (msg : Message) (m : List (String × List Client))
    → AllDistinct us
    → lookup u (to_members us msg m)
      ≡ (if contains u us then offered msg (lookup u m) else lookup u m)
unfolding to_members
lookup-to_members u [] msg m d = refl
lookup-to_members u (w ∷ us) msg m d = ground (
  arith,
  eq_iff w u,
  lookup-to_members u us msg (to_conns w msg (lookup w m) m) d.1,
  lookup-to_conns u w msg m (lookup w m) refl,
)

-- What a broadcast of `msg` does to the clients of `u`.
abbrev pub IsDelivered : Message → String → Router → Router → String → Type 0
IsDelivered msg type r r' u = lookup u r'.clients ≡ (
    if type == "public" || has_member msg.channel_id u r.db.channel_members
    then offered msg (lookup u r.clients)
    else lookup u r.clients)

pub members-eq-ok :
    (channel_id : String) (r : Router) {us : List String} {t : String} {r' : Router}
    → get_channel_members channel_id r ≡ (ok (us, t), r')
    → (channel_type_row channel_id r.db ≡ some t)
      × (us ≡ (if t == "public" then [] else members_of channel_id r.db.channel_members))
      × SameState r r'
unfolding get_channel_members get_channel_type query
members-eq-ok channel_id r h = elim (Option-cases (channel_type_row channel_id r.db)) [
  | inl missing ↦ ground arith
  | inr (t, found) ↦ ground (arith, eq_iff t "public")
]

lookup-deliver :
    (u : String) (us : List String) (t : String) (msg : Message) (m : List (String × List Client))
    (ms : List (String × String))
    → us ≡ (if t == "public" then [] else members_of msg.channel_id ms)
    → IsKeyed ms
    → lookup u (deliver us t msg m) ≡ (
        if t == "public" || has_member msg.channel_id u ms
        then offered msg (lookup u m)
        else lookup u m)
unfolding deliver
lookup-deliver u us t msg m ms listed keyed = ground (
  arith,
  lookup-to_all u msg m,
  lookup-to_members u (members_of msg.channel_id ms) msg m
      (members_of-AllDistinct msg.channel_id ms keyed),
  contains-members_of msg.channel_id u ms,
)

sent :
    (msg : Message) (t : String) (us : List String) (r q r' : Router)
    → us ≡ (if t == "public" then [] else members_of msg.channel_id r.db.channel_members)
    → SameState r q
    → IsKeyed r.db.channel_members
    → r' ≡ record q { clients = deliver us t msg q.clients }
    → (r'.db ≡ r.db) × ((u : String) → IsDelivered msg t r r' u)
sent msg t us r q r' listed same keyed e = (
  ground (arith, same),
  λ u.
      ap (λ s. lookup u s.clients) e
      ∙ lookup-deliver u us t msg q.clients r.db.channel_members listed keyed
      ∙ rw same.clients refl,
)

-- A broadcast offers the message once to each connection of those who may read the channel, to
-- everyone online if it is public, and to no other connection. The tables stay as they were.
pub broadcast-IsDelivered :
    (msg : Message) (r : Router) {r' : Router}
    → IsKeyed r.db.channel_members
    → broadcast msg r ≡ (ok tt, r')
    → (type : String) × (channel_type_row msg.channel_id r.db ≡ some type)
      × (r'.db ≡ r.db)
      × ((u : String) → IsDelivered msg type r r' u)
unfolding broadcast
broadcast-IsDelivered msg r {r'} keyed h =
    let (x, q, read, end) = and_then-eq-ok (get_channel_members msg.channel_id r) _ h in
    let (typed, listed, same) = members-eq-ok msg.channel_id r {us = x.0} {t = x.1} read in
    let (tables, delivered) = sent msg x.1 x.0 r q r' listed same keyed (sym (ap (λ p. p.1) end)) in
    (x.1, typed, tables, delivered)

pub broadcast-tables :
    (msg : Message) (r : Router) {r' : Router} → broadcast msg r ≡ (ok tt, r') → r'.db ≡ r.db
unfolding broadcast
broadcast-tables msg r {r'} h =
    let (x, q, read, end) = and_then-eq-ok (get_channel_members msg.channel_id r) _ h in
    let (_, _, same) = members-eq-ok msg.channel_id r {us = x.0} {t = x.1} read in
    ap (λ p. p.1.db) (sym end) ∙ same.db
