-- ===== src/Messaging/Clients.antt =====
-- The connected clients of messaging/main.go: `Register`, `Unregister`, the write loop of `HandleWS`
-- and `Broadcast`. Locks make each of them one step. A broadcast puts the message itself into the
-- buffers, where the code puts its JSON.
pub mod Laws
pub mod Delivery
pub mod Counting
pub mod Keyed
pub mod Buffers
use ziyad_messenger.Base.{
  ℕ, suc, ◌+◌, String, Bool, true, false, List, [], ◌∷◌, ◌++◌, map, Option, none, some, ◌==◌, ltb,
  eqb, length, if◌then◌else◌,
}
use ziyad_messenger.Base.Assoc.{lookup, insert, delete, get_or}
use ziyad_messenger.Protocol.{Message}
use ziyad_messenger.Messaging.Store.{
  Client, Router, Error, Result, ok, err, M, ◌>>=◌, and_then, return,
}
use ziyad_messenger.Messaging.Queries.{get_channel_members}

unfoldable pub register : String → Router → Client × Router
register user_id r =
    let client : Client = record { user_id = user_id; conn = r.next_conn; send = [] } in
    let conns = get_or user_id [] r.clients ++ client ∷ [] in
    (client, record r { clients = insert user_id conns r.clients; next_conn = suc r.next_conn })

-- The loop of `Unregister`: the first client that is the given one goes, and is closed.
unfoldable pub remove_first : ℕ → List Client → List Client
remove_first conn [] = []
remove_first conn (c ∷ cs) = if eqb c.conn conn then cs else c ∷ remove_first conn cs

unfoldable pub holds : ℕ → List Client → Bool
holds conn [] = false
holds conn (c ∷ cs) = if eqb c.conn conn then true else holds conn cs

abbrev pub drop_empty : String → List (String × List Client) → List (String × List Client)
drop_empty user_id m = if eqb (length (get_or user_id [] m)) 0 then delete user_id m else m

unfoldable pub unregister : Client → Router → Router
unregister client r =
    let conns = get_or client.user_id [] r.clients in
    if holds client.conn conns
    then record r {
      clients =
          drop_empty client.user_id
            (insert client.user_id (remove_first client.conn conns) r.clients);
      closed = client.conn ∷ r.closed;
    }
    else record r { clients = drop_empty client.user_id r.clients }

abbrev pub send_capacity : ℕ
send_capacity = 256

-- `select { case client.Send <- data: default: }`
unfoldable pub offer : Message → Client → Client
offer msg c =
    if ltb (length c.send) send_capacity then record c { send = c.send ++ msg ∷ [] } else c

-- Everyone who is online.
unfoldable pub to_all : Message → List (String × List Client) → List (String × List Client)
to_all msg [] = []
to_all msg ((u, cs) ∷ m) = (u, map (offer msg) cs) ∷ to_all msg m

abbrev pub to_conns :
    String
    → Message
    → Option (List Client)
    → List (String × List Client)
    → List (String × List Client)
to_conns u msg none m = m
to_conns u msg (some cs) m = insert u (map (offer msg) cs) m

-- The loop over the members of a channel.
unfoldable pub to_members :
    List String → Message → List (String × List Client) → List (String × List Client)
to_members [] msg m = m
to_members (u ∷ us) msg m = to_members us msg (to_conns u msg (lookup u m) m)

unfoldable pub deliver :
    List String → String → Message → List (String × List Client) → List (String × List Client)
deliver members ch_type msg m =
    if ch_type == "public" then to_all msg m else to_members members msg m

unfoldable pub broadcast : Message → M Error (Unit {0})
broadcast msg = do
  (members, ch_type) ← get_channel_members msg.channel_id
  λ r. (ok tt, record r { clients = deliver members ch_type msg r.clients })

-- One round of `for data := range client.Send`, whose write succeeds.
unfoldable pub take_sent : ℕ → List Client → List Client
take_sent conn [] = []
take_sent conn (c ∷ cs) =
    if eqb c.conn conn
    then record c { send = elim c.send [ [] ↦ [] | m ∷ ms ↦ ms ] } ∷ cs
    else c ∷ take_sent conn cs

unfoldable pub write_next : Client → Router → Router
write_next client r = record r {
  clients = elim (lookup client.user_id r.clients) [
    | none ↦ r.clients
    | some cs ↦ insert client.user_id (take_sent client.conn cs) r.clients
  ];
}
