-- ===== src/Messaging/Clients/Keyed.antt =====
-- The map of clients has each user once as a key, so that a deletion takes out what the look-up finds and no more.
use ziyad_messenger.Base.{
  ℕ, ◌+◌, String, ◌≡◌, refl, List, [], ◌∷◌, map, Option, none, some, arith, eq_iff,
}
use ziyad_messenger.Base.Assoc.{lookup, insert, delete, get_or, lookup-insert, lookup-delete}
use ziyad_messenger.Protocol.{Message}
use ziyad_messenger.Messaging.Store.{Client}
use ziyad_messenger.Messaging.Clients.{offer, to_all, to_conns, to_members, deliver}
use ziyad_messenger.Messaging.Clients.Counting.{count_conn, occurs}

-- No key stands twice.
abbrev pub Keyed : List (String × List Client) → Type 0
Keyed [] = Unit {0}
Keyed ((k, cs) ∷ m) = (lookup k m ≡ none) × Keyed m

pub Keyed-insert :
    (k : String) (v : List Client) (m : List (String × List Client))
    → Keyed m
    → Keyed (insert k v m)
unfolding insert lookup
Keyed-insert k v [] h = (refl, tt)
Keyed-insert k v ((j, w) ∷ m) h =
    ground (arith, h.0, h.1, Keyed-insert k v m h.1, lookup-insert k j v m, eq_iff j k, eq_iff k j)

pub Keyed-delete : (k : String) (m : List (String × List Client)) → Keyed m → Keyed (delete k m)
unfolding delete
Keyed-delete k [] h = tt
Keyed-delete k ((j, w) ∷ m) h = ground (arith, h.0, h.1, Keyed-delete k m h.1, lookup-delete k j m)

occurs-delete-absent :
    (c : ℕ) (k : String) (m : List (String × List Client))
    → lookup k m ≡ none
    → occurs c (delete k m) ≡ occurs c m
unfolding occurs delete lookup
occurs-delete-absent c k [] h = refl
occurs-delete-absent c k ((j, w) ∷ m) h = ground (arith, occurs-delete-absent c k m)

pub occurs-delete :
    (c : ℕ) (k : String) (m : List (String × List Client))
    → Keyed m
    → occurs c (delete k m) + count_conn c (get_or k [] m) ≡ occurs c m
unfolding occurs delete lookup count_conn
occurs-delete c k [] h = refl
occurs-delete c k ((j, w) ∷ m) h =
    ground (arith, h.0, occurs-delete c k m h.1, occurs-delete-absent c k m, eq_iff j k)

lookup-to_all :
    (k : String) (msg : Message) (m : List (String × List Client))
    → lookup k m ≡ none
    → lookup k (to_all msg m) ≡ none
unfolding lookup to_all
lookup-to_all k msg [] h = refl
lookup-to_all k msg ((j, w) ∷ m) h = ground (arith, lookup-to_all k msg m)

Keyed-to_all : (msg : Message) (m : List (String × List Client)) → Keyed m → Keyed (to_all msg m)
unfolding to_all
Keyed-to_all msg [] h = tt
Keyed-to_all msg ((j, w) ∷ m) h = (lookup-to_all j msg m h.0, Keyed-to_all msg m h.1)

Keyed-to_conns :
    (u : String) (msg : Message) (o : Option (List Client)) (m : List (String × List Client))
    → Keyed m
    → Keyed (to_conns u msg o m)
Keyed-to_conns u msg none m h = h
Keyed-to_conns u msg (some cs) m h = Keyed-insert u (map (offer msg) cs) m h

Keyed-to_members :
    (us : List String) (msg : Message) (m : List (String × List Client))
    → Keyed m
    → Keyed (to_members us msg m)
unfolding to_members
Keyed-to_members [] msg m h = h
Keyed-to_members (u ∷ us) msg m h =
    Keyed-to_members us msg (to_conns u msg (lookup u m) m) (Keyed-to_conns u msg (lookup u m) m h)

pub Keyed-deliver :
    (us : List String) (t : String) (msg : Message) (m : List (String × List Client))
    → Keyed m
    → Keyed (deliver us t msg m)
unfolding deliver
Keyed-deliver us t msg m h = ground (arith, Keyed-to_all msg m h, Keyed-to_members us msg m h)
