-- ===== src/Discovery/Peers.antt =====
-- Whom a node knows after any packets.
use ziyad_messenger.Base.{
  ℕ, String, Bool, true, false, sym, ap, not, ◌&&◌, ◌≡◌, refl, ◌∙◌, inl, inr, List, [], ◌∷◌, Option,
  none, some, ◌==◌, eq_iff, arith, Bool-cases, if◌then◌else◌,
}
use ziyad_messenger.Base.Assoc.{lookup, lookup-insert}
use ziyad_messenger.Discovery.{
  DiscoveryPacket, PeerInfo, DiscoveryService, new_discovery_service, seen, handle_packet,
  handle_all,
}

-- A packet that counts for a node: of that node, of the own cluster, and not of the node itself.
abbrev pub concerns : String → String → String → Option DiscoveryPacket → Bool
concerns own cluster node none = false
concerns own cluster node (some packet) =
    not (packet.node_id == own) && (packet.cluster_id == cluster) && (packet.node_id == node)

abbrev from_packet : Option DiscoveryPacket → ℕ → Option PeerInfo → Option PeerInfo
from_packet none now known = known
from_packet (some packet) now known = some (seen packet now known)

-- The packets that count for a node, with their times.
abbrev with_rest :
    Bool → Option DiscoveryPacket → ℕ → List (DiscoveryPacket × ℕ) → List (DiscoveryPacket × ℕ)
with_rest true (some packet) now rest = (packet, now) ∷ rest
with_rest true none now rest = rest
with_rest false packet now rest = rest

unfoldable pub counting :
    String → String → String → List (Option DiscoveryPacket × ℕ) → List (DiscoveryPacket × ℕ)
counting own cluster node [] = []
counting own cluster node ((packet, now) ∷ packets) =
    with_rest (concerns own cluster node packet) packet now (counting own cluster node packets)

-- The time of the last of some packets.
unfoldable pub last_time : ℕ → List (DiscoveryPacket × ℕ) → ℕ
last_time time [] = time
last_time time ((packet, now) ∷ packets) = last_time now packets

-- Known by the first of some packets, last seen with the last of them.
abbrev pub known_by : List (DiscoveryPacket × ℕ) → Option PeerInfo
known_by [] = none
known_by ((packet, now) ∷ packets) = some (record {
  node_id = packet.node_id;
  address = packet.address;
  last_seen = last_time now packets;
  public_key = packet.public_key;
})

-- A peer that is known, after more packets of it.
abbrev met_again : Option PeerInfo → List (DiscoveryPacket × ℕ) → Option PeerInfo
met_again none packets = known_by packets
met_again (some peer) packets = some (record peer { last_seen = last_time peer.last_seen packets })

handle_packet-peers :
    (packet : Option DiscoveryPacket) (now : ℕ) (s : DiscoveryService) (node : String)
    → lookup node (handle_packet packet now s).peers ≡ (
        if concerns s.node_id s.cluster_id node packet
        then from_packet packet now (lookup node s.peers)
        else lookup node s.peers)
unfolding handle_packet
handle_packet-peers none now s node = refl
handle_packet-peers (some packet) now s node = ground (
  arith,
  eq_iff packet.node_id node,
  lookup-insert packet.node_id node (seen packet now (lookup packet.node_id s.peers)) s.peers,
)

handle_packet-names :
    (packet : Option DiscoveryPacket) (now : ℕ) (s : DiscoveryService)
    → ((handle_packet packet now s).node_id ≡ s.node_id)
      × ((handle_packet packet now s).cluster_id ≡ s.cluster_id)
unfolding handle_packet
handle_packet-names none now s = (refl, refl)
handle_packet-names (some packet) now s = ground arith

met_again_nil : (known : Option PeerInfo) → met_again known [] ≡ known
unfolding last_time
met_again_nil none = refl
met_again_nil (some peer) = refl

met_again_one :
    (counts : Bool) (packet : Option DiscoveryPacket) (now : ℕ) (known : Option PeerInfo)
    (rest : List (DiscoveryPacket × ℕ))
    → met_again (if counts then from_packet packet now known else known) rest
      ≡ met_again known (with_rest counts packet now rest)
unfolding seen last_time
met_again_one false packet now known rest = refl
met_again_one true none now known rest = refl
met_again_one true (some packet) now none rest = refl
met_again_one true (some packet) now (some peer) rest = refl

handle_all-peers :
    (packets : List (Option DiscoveryPacket × ℕ)) (s : DiscoveryService) (node : String)
    → lookup node (handle_all packets s).peers
      ≡ met_again (lookup node s.peers) (counting s.node_id s.cluster_id node packets)
unfolding handle_all counting
handle_all-peers [] s node = sym (met_again_nil (lookup node s.peers))
handle_all-peers ((packet, now) ∷ packets) s node =
    let (own, cluster) = handle_packet-names packet now s in
    handle_all-peers packets (handle_packet packet now s) node
    ∙ rw (own, cluster, handle_packet-peers packet now s node)
        (met_again_one (concerns s.node_id s.cluster_id node packet) packet now
          (lookup node s.peers) (counting s.node_id s.cluster_id node packets))

-- After any packets a node knows of each other node the address and the key of its first packet from
-- the own cluster, and the time of the last one; it knows nothing of a node that sent none.
pub handle_all-known_by :
    (own cluster node : String) (port : ℕ) (packets : List (Option DiscoveryPacket × ℕ))
    → lookup node (handle_all packets (new_discovery_service own cluster port)).peers
      ≡ known_by (counting own cluster node packets)
unfolding new_discovery_service lookup
handle_all-known_by own cluster node port packets =
    handle_all-peers packets (new_discovery_service own cluster port) node

never_self :
    (own cluster : String) (packets : List (Option DiscoveryPacket × ℕ))
    → counting own cluster own packets ≡ []
unfolding counting
never_self own cluster [] = refl
never_self own cluster ((none, now) ∷ packets) = never_self own cluster packets
never_self own cluster ((some packet, now) ∷ packets) = elim (Bool-cases (packet.node_id == own)) [
  | inl e ↦ rw e (never_self own cluster packets)
  | inr e ↦ ground (arith, e, never_self own cluster packets)
]

-- Whatever arrives, a node is never among its own peers.
pub handle_all-no_self :
    (own cluster : String) (port : ℕ) (packets : List (Option DiscoveryPacket × ℕ))
    → lookup own (handle_all packets (new_discovery_service own cluster port)).peers ≡ none
handle_all-no_self own cluster port packets =
    handle_all-known_by own cluster own port packets ∙ ap known_by (never_self own cluster packets)
