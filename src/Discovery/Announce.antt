-- ===== src/Discovery/Announce.antt =====
-- The announcement of one node at another.
use ziyad_messenger.Base.{ℕ, String, false, none, some, ◌==◌, ◌≡◌, arith, eq_iff, if◌then◌else◌}
use ziyad_messenger.Base.Assoc.{lookup, lookup-insert}
use ziyad_messenger.Discovery.{
  DiscoveryPacket, DiscoveryService, seen, handle_packet, Wire, dummy_key, own_packet, broadcast,
  receive,
}

-- When the announcement of a node arrives at another of its cluster, the other knows it from then: as seen now,
-- with the port that the node announced and its fixed key if it was not known before, and with what else was
-- known of it otherwise; of the other nodes it knows what it knew.
pub receive-broadcast :
    (wire : Wire) (a b : DiscoveryService) (bytes other : String) (now : ℕ)
    → ((p : DiscoveryPacket) (text : String)
        → wire.encode p ≡ some text
        → wire.decode text ≡ some p)
    → broadcast wire a ≡ some bytes
    → a.cluster_id ≡ b.cluster_id
    → (a.node_id == b.node_id) ≡ false
    → lookup other (receive wire bytes now b).peers ≡ (
        if a.node_id == other
        then some (elim (lookup other b.peers) [
          | none ↦ record {
            node_id = a.node_id;
            address = wire.port_text a.port;
            last_seen = now;
            public_key = dummy_key;
          }
          | some known ↦ record known { last_seen = now }
        ])
        else lookup other b.peers)
unfolding broadcast receive handle_packet own_packet seen
receive-broadcast wire a b bytes other now faithful sent same apart =
    let p = own_packet wire a in
    ground (
      arith,
      faithful p bytes sent,
      eq_iff a.node_id b.node_id,
      eq_iff a.cluster_id b.cluster_id,
      eq_iff a.node_id other,
      lookup-insert a.node_id other (seen p now (lookup a.node_id b.peers)) b.peers,
    )
