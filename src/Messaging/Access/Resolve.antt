-- ===== src/Messaging/Access/Resolve.antt =====
-- Which channel `resolveRequestedChannel` answers with.
use ziyad_messenger.Base.{
  String, Bool, true, false, not, ◌≡◌, ◌≢◌, refl, ap, ◌∙◌, inl, inr, none, ◌==◌, eq_iff, arith,
  Bool-cases, if◌then◌else◌,
}
use ziyad_messenger.Messaging.Store.{
  Db, Router, Error, channel_missing, forbidden, Result, ok, err, throw, query,
}
use ziyad_messenger.Messaging.Store.Laws.{
  SameState, SameClients, SameState-SameClients, SameClients-trans, and_then-eq-ok, and_then-eq-err,
  query-eq-ok, query-eq-err,
}
use ziyad_messenger.Messaging.Queries.{channel_type_row, get_channel_type, has_user, user_exists}
use ziyad_messenger.Messaging.Dm.{dm_id, find_or_create_dm_channel}
use ziyad_messenger.Messaging.Dm.Laws.{
  with_dm, dm_outcome, find_or_create-eq-ok, find_or_create-eq-err,
}
use ziyad_messenger.Messaging.Access.{dm_with, or_dm, resolve_requested_channel}

-- A request names a channel, or another user, whose DM channel is then made if need be.
pub data Resolved (sender requested channel_id : String) (d d' : Db) : Type 0 where
  named :
      channel_type_row requested d ≢ none
      → channel_id ≡ requested
      → d' ≡ d
      → Resolved sender requested channel_id d d'
  dm :
      channel_type_row requested d ≡ none
      → has_user requested d ≡ true
      → requested ≢ sender
      → channel_id ≡ dm_id sender requested
      → d' ≡ dm_outcome sender requested d
      → Resolved sender requested channel_id d d'

dm_with-eq-ok :
    (sender requested : String) (r : Router) {channel_id : String} {r' : Router}
    → dm_with sender requested r ≡ (ok channel_id, r')
    → (has_user requested r.db ≡ true)
      × (requested ≢ sender)
      × (channel_id ≡ dm_id sender requested)
      × (r'.db ≡ dm_outcome sender requested r.db)
      × SameClients r r'
unfolding dm_with user_exists
dm_with-eq-ok sender requested r h =
    let look : Db → Result Error Bool = λ d. ok (has_user requested d) in
    let (found, q, looked, rest) = and_then-eq-ok (query look r) _ h in
    let (answered, same) = query-eq-ok look r looked in
    other found q same (ground (arith, answered)) rest
  where
    other :
        (found : Bool) (q : Router) {channel_id : String} {r' : Router}
        → SameState r q
        → has_user requested r.db ≡ found
        → (if not found
              then throw channel_missing
              else (if requested == sender
                  then throw forbidden
                  else find_or_create_dm_channel sender requested))
            q
          ≡ (ok channel_id, r')
        → (has_user requested r.db ≡ true)
          × (requested ≢ sender)
          × (channel_id ≡ dm_id sender requested)
          × (r'.db ≡ dm_outcome sender requested r.db)
          × SameClients r r'
    other false q same answered h = cc
    other true q same answered h = elim (Bool-cases (requested == sender)) [
      | inl self ↦ cc (rw self at h)
      | inr another ↦
          let (name, tables, clients) = find_or_create-eq-ok sender requested q (rw another at h) in
          (
            answered,
            ground (arith, eq_iff requested sender),
            name,
            tables ∙ ap (dm_outcome sender requested) same.db,
            SameClients-trans (SameState-SameClients same) clients,
          )
    ]

or_dm-eq-ok :
    (sender requested : String) (r q : Router) (found : Result Error String) {channel_id : String}
    {r' : Router}
    → get_channel_type requested r ≡ (found, q)
    → or_dm sender requested found q ≡ (ok channel_id, r')
    → Resolved sender requested channel_id r.db r'.db × SameClients r r'
unfolding or_dm get_channel_type query
or_dm-eq-ok sender requested r q (ok t) look h =
    (named (ground arith) (ground arith) (ground arith), ground arith)
or_dm-eq-ok sender requested r q (err channel_missing) look h =
    let (exists, another, name, tables, same) = dm_with-eq-ok sender requested q h in
    (
      dm (ground arith) (ground (arith, exists)) another name (ground (arith, tables)),
      ground (arith, same),
    )
or_dm-eq-ok sender requested r q (err _) look h = cc h

-- A request that is resolved is for a channel that exists, or for the DM with an existing user who
-- is not the sender; the clients are left as they were.
pub resolve-Resolved :
    (sender requested : String) (r : Router) {channel_id : String} {r' : Router}
    → resolve_requested_channel sender requested r ≡ (ok channel_id, r')
    → Resolved sender requested channel_id r.db r'.db × SameClients r r'
unfolding resolve_requested_channel
resolve-Resolved sender requested r h = elim (Bool-cases (requested == "")) [
  | inl empty ↦ cc (rw empty at h)
  | inr given ↦ or_dm-eq-ok sender requested r _ _ refl (rw given at h)
]

dm_with-eq-err :
    (sender requested : String) (r : Router) {e : Error} {r' : Router}
    → dm_with sender requested r ≡ (err e, r')
    → r'.db ≡ r.db
unfolding dm_with user_exists
dm_with-eq-err sender requested r h =
    let look : Db → Result Error Bool = λ d. ok (has_user requested d) in
    elim (and_then-eq-err (query look r) _ h) [
      | inl failed ↦ (query-eq-err look r failed).db
      | inr (found, q, looked, rest) ↦ other found q (query-eq-ok look r looked).1 rest
    ]
  where
    other :
        (found : Bool) (q : Router) {e : Error} {r' : Router}
        → SameState r q
        → (if not found
              then throw channel_missing
              else (if requested == sender
                  then throw forbidden
                  else find_or_create_dm_channel sender requested))
            q
          ≡ (err e, r')
        → r'.db ≡ r.db
    other false q same h = ground arith
    other true q same h = elim (Bool-cases (requested == sender)) [
      | inl self ↦ let k = rw self at h in ground (arith, k)
      | inr another ↦ find_or_create-eq-err sender requested q (rw another at h) ∙ same.db
    ]

or_dm-eq-err :
    (sender requested : String) (r q : Router) (found : Result Error String) {e : Error}
    {r' : Router}
    → get_channel_type requested r ≡ (found, q)
    → or_dm sender requested found q ≡ (err e, r')
    → r'.db ≡ r.db
unfolding or_dm get_channel_type query
or_dm-eq-err sender requested r q (ok t) look h = cc h
or_dm-eq-err sender requested r q (err channel_missing) look h =
    ground (arith, dm_with-eq-err sender requested q h)
or_dm-eq-err sender requested r q (err _) look h = ground arith

-- A request that is not resolved leaves the tables as they were.
pub resolve-eq-err :
    (sender requested : String) (r : Router) {e : Error} {r' : Router}
    → resolve_requested_channel sender requested r ≡ (err e, r')
    → r'.db ≡ r.db
unfolding resolve_requested_channel
resolve-eq-err sender requested r h = elim (Bool-cases (requested == "")) [
  | inl empty ↦ let k = rw empty at h in ground (arith, k)
  | inr given ↦ or_dm-eq-err sender requested r _ _ refl (rw given at h)
]

-- No way of resolving a request touches a message.
pub Resolved-messages :
    {sender requested channel_id : String} {d d' : Db}
    → Resolved sender requested channel_id d d'
    → d'.messages ≡ d.messages
unfolding dm_outcome with_dm
Resolved-messages (named a b c) = ground arith
Resolved-messages (dm a b c e f) = ground arith
