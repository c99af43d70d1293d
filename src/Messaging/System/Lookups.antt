-- ===== src/Messaging/System/Lookups.antt =====
-- What a search in the tables says of them, and what a delivery keeps of the clients' keys.
use ziyad_messenger.Base.{
  String, true, ◌≡◌, ◌≢◌, refl, ap, ◌∙◌, List, [], ◌∷◌, map, Option, none, some, ◌==◌, eq_iff,
  arith, find, eq_refl, Option-cases, Bool-cases, inl, inr,
}
use ziyad_messenger.Base.Assoc.{lookup}
use ziyad_messenger.Base.Assoc.Keys.{AllKeys, AllKeys-insert, AllKeys-lookup}
use ziyad_messenger.Protocol.{Message}
use ziyad_messenger.Messaging.Store.{User, ChannelView, Db, Client, ok}
use ziyad_messenger.Messaging.Queries.{channel_type_row, user_row}
use ziyad_messenger.Messaging.Dm.Laws.{with_dm, dm_outcome}
use ziyad_messenger.Messaging.Access.Laws.{may_access}
use ziyad_messenger.Messaging.Access.Resolve.{Resolved, named, dm}
use ziyad_messenger.Messaging.Clients.{offer, to_all, to_conns, to_members, deliver}
use ziyad_messenger.Messaging.System.Tables.{
  is_channel, is_user, IsConsistent, dm_outcome-IsConsistent,
}

found_user :
    (name : String) (xs : List User) {u : User}
    → find (λ (x : User). x.username == name) xs ≡ some u
    → is_user u.id xs ≡ true
found_user name [] h = cc
found_user name (x ∷ xs) {u} h = ground (arith, found_user name xs {u = u}, eq_refl x.id)

pub user_row-is_user :
    (name : String) (d : Db) {id : String} → user_row name d ≡ ok id → is_user id d.users ≡ true
unfolding user_row
user_row-is_user name d h = elim (Option-cases (find (λ (x : User). x.username == name) d.users)) [
  | inl e ↦ cc (rw (e, user_row) at h)
  | inr (u, e) ↦ ground (arith, found_user name d.users {u = u} e)
]

found_channel :
    (id : String) (xs : List ChannelView)
    → find (λ (x : ChannelView). x.id == id) xs ≢ none
    → is_channel id xs ≡ true
found_channel id [] h = absurd (h refl)
found_channel id (x ∷ xs) h = elim (Bool-cases (x.id == id)) [
  | inl e ↦ rw e refl
  | inr e ↦ rw e (found_channel id xs (rw e at h))
]

typed_channel :
    (id : String) (d : Db) → channel_type_row id d ≢ none → is_channel id d.channels ≡ true
unfolding channel_type_row
typed_channel id d h = found_channel id d.channels λ e. h (rw (e, channel_type_row) refl)

pub may_access-is_channel :
    (u c : String) (d : Db) → may_access u c d ≡ true → is_channel c d.channels ≡ true
unfolding may_access
may_access-is_channel u c d h = typed_channel c d λ e. cc (rw (e, may_access) at h)

pub dm_outcome-users : (u v : String) (d : Db) → (dm_outcome u v d).users ≡ d.users
unfolding dm_outcome with_dm
dm_outcome-users u v d = ground arith

pub Resolved-IsConsistent :
    (u requested c : String) (d d' : Db)
    → is_user u d.users ≡ true
    → Resolved u requested c d d'
    → IsConsistent d
    → IsConsistent d' × (d'.users ≡ d.users)
Resolved-IsConsistent u requested c d d' who (named _ _ same) s =
    (rw same s, ap (λ x. x.users) same)
Resolved-IsConsistent u requested c d d' who (dm _ there other _ made) s = (
  rw made (
      dm_outcome-IsConsistent u requested d (ground (arith, eq_iff u requested, other)) who there
        s),
  ap (λ x. x.users) made ∙ dm_outcome-users u requested d,
)

module _ (P : String → Type 0) where
  to_all-AllKeys :
      (msg : Message) (m : List (String × List Client)) → AllKeys P m → AllKeys P (to_all msg m)
  unfolding to_all
  to_all-AllKeys msg [] h = tt
  to_all-AllKeys msg ((u, cs) ∷ m) h = (h.0, to_all-AllKeys msg m h.1)

  to_conns-AllKeys :
      (u : String) (msg : Message) (o : Option (List Client)) (m : List (String × List Client))
      → lookup u m ≡ o
      → AllKeys P m
      → AllKeys P (to_conns u msg o m)
  to_conns-AllKeys u msg none m e h = h
  to_conns-AllKeys u msg (some cs) m e h =
      AllKeys-insert P u (map (offer msg) cs) m (AllKeys-lookup P u m e h) h

  to_members-AllKeys :
      (us : List String) (msg : Message) (m : List (String × List Client))
      → AllKeys P m
      → AllKeys P (to_members us msg m)
  unfolding to_members
  to_members-AllKeys [] msg m h = h
  to_members-AllKeys (u ∷ us) msg m h =
      to_members-AllKeys us msg _ (to_conns-AllKeys u msg (lookup u m) m refl h)

  pub deliver-AllKeys :
      (us : List String) (t : String) (msg : Message) (m : List (String × List Client))
      → AllKeys P m
      → AllKeys P (deliver us t msg m)
  unfolding deliver
  deliver-AllKeys us t msg m h = elim (Bool-cases (t == "public")) [
    | inl e ↦ rw e (to_all-AllKeys msg m h)
    | inr e ↦ rw e (to_members-AllKeys us msg m h)
  ]
