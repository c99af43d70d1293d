-- ===== src/Messaging/Clients/Buffers.antt =====
-- No operation fills a buffer beyond its capacity.
use ziyad_messenger.Base.{
  ℕ, ◌≤◌, String, inl, inr, List, [], ◌∷◌, map, arith, Option-cases, length, All, length-append,
}
use ziyad_messenger.Base.Assoc.{lookup, insert, delete, get_or}
use ziyad_messenger.Protocol.{Message}
use ziyad_messenger.Messaging.Store.{Client}
use ziyad_messenger.Messaging.Clients.{
  remove_first, send_capacity, offer, to_all, to_conns, to_members, deliver, take_sent,
}

abbrev pub IsBuffered : List Client → Type 0
IsBuffered = All (λ c. length c.send ≤ send_capacity)

abbrev pub AllBuffered : List (String × List Client) → Type 0
AllBuffered [] = Unit {0}
AllBuffered ((k, cs) ∷ m) = IsBuffered cs × AllBuffered m

pub AllBuffered-insert :
    (k : String) (v : List Client) (m : List (String × List Client))
    → IsBuffered v
    → AllBuffered m
    → AllBuffered (insert k v m)
unfolding insert
AllBuffered-insert k v [] b bs = (b, tt)
AllBuffered-insert k v ((j, w) ∷ m) b bs = ground (arith, AllBuffered-insert k v m)

pub AllBuffered-delete :
    (k : String) (m : List (String × List Client)) → AllBuffered m → AllBuffered (delete k m)
unfolding delete
AllBuffered-delete k [] bs = tt
AllBuffered-delete k ((j, w) ∷ m) bs = ground (arith, AllBuffered-delete k m)

pub IsBuffered-get_or :
    (k : String) (m : List (String × List Client)) → AllBuffered m → IsBuffered (get_or k [] m)
unfolding lookup
IsBuffered-get_or k [] bs = tt
IsBuffered-get_or k ((j, w) ∷ m) bs = ground (arith, IsBuffered-get_or k m bs.1)

pub IsBuffered-remove_first :
    (conn : ℕ) (cs : List Client) → IsBuffered cs → IsBuffered (remove_first conn cs)
unfolding remove_first
IsBuffered-remove_first conn [] b = tt
IsBuffered-remove_first conn (c ∷ cs) b = ground (arith, IsBuffered-remove_first conn cs)

pub IsBuffered-offer :
    (msg : Message) (cs : List Client) → IsBuffered cs → IsBuffered (map (offer msg) cs)
unfolding offer
IsBuffered-offer msg [] b = tt
IsBuffered-offer msg (c ∷ cs) b =
    ground (arith, IsBuffered-offer msg cs, length-append c.send (msg ∷ []))

pub IsBuffered-take_sent :
    (conn : ℕ) (cs : List Client) → IsBuffered cs → IsBuffered (take_sent conn cs)
unfolding take_sent
IsBuffered-take_sent conn [] b = tt
IsBuffered-take_sent conn (c ∷ cs) b = ground (arith, IsBuffered-take_sent conn cs)

pub AllBuffered-to_all :
    (msg : Message) (m : List (String × List Client)) → AllBuffered m → AllBuffered (to_all msg m)
unfolding to_all
AllBuffered-to_all msg [] bs = tt
AllBuffered-to_all msg ((k, cs) ∷ m) (b, bs) =
    (IsBuffered-offer msg cs b, AllBuffered-to_all msg m bs)

pub AllBuffered-to_conns :
    (u : String) (msg : Message) (m : List (String × List Client))
    → AllBuffered m
    → AllBuffered (to_conns u msg (lookup u m) m)
AllBuffered-to_conns u msg m bs = elim (Option-cases (lookup u m)) [
  | inl e ↦ rw e bs
  | inr (cs, e) ↦
      let b : IsBuffered cs = rw (e, get_or) at (IsBuffered-get_or u m bs) in
      rw e (AllBuffered-insert u (map (offer msg) cs) m (IsBuffered-offer msg cs b) bs)
]

pub AllBuffered-to_members :
    (us : List String) (msg : Message) (m : List (String × List Client))
    → AllBuffered m
    → AllBuffered (to_members us msg m)
unfolding to_members
AllBuffered-to_members [] msg m bs = bs
AllBuffered-to_members (u ∷ us) msg m bs =
    AllBuffered-to_members us msg (to_conns u msg (lookup u m) m) (AllBuffered-to_conns u msg m bs)

pub AllBuffered-deliver :
    (us : List String) (t : String) (msg : Message) (m : List (String × List Client))
    → AllBuffered m
    → AllBuffered (deliver us t msg m)
unfolding deliver
AllBuffered-deliver us t msg m bs =
    ground (arith, AllBuffered-to_all msg m bs, AllBuffered-to_members us msg m bs)
