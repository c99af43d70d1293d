-- ===== src/Discovery.antt =====
-- backend/services/discovery/main.go: the table of peers and `handlePacket`, with the packet of
-- backend/pkg/protocol/discovery.go. A packet is what the decoder makes of its bytes, `none` for an
-- error. The lock makes a packet one step. JSON and the printing of a port are parameters. The sockets are
-- left out: a packet of `broadcast` arrives at another node, or it does not.
pub mod Peers
pub mod Announce
mod Tests
use ziyad_messenger.Base.{
  ℕ, String, Bool, true, false, not, List, [], ◌∷◌, Option, none, some, ◌==◌, if◌then◌else◌,
}
use ziyad_messenger.Base.Assoc.{lookup, insert}

pub record DiscoveryPacket : Type 0 where
  pub cluster_id : String
  pub node_id : String
  pub address : String
  pub priority : ℕ
  pub public_key : List ℕ

pub record PeerInfo : Type 0 where
  pub node_id : String
  pub address : String
  pub last_seen : ℕ
  pub public_key : List ℕ

pub record DiscoveryService : Type 0 where
  pub cluster_id : String
  pub node_id : String
  pub port : ℕ
  pub peers : List (String × PeerInfo)

unfoldable pub new_discovery_service : String → String → ℕ → DiscoveryService
new_discovery_service node_id cluster_id port = record {
  cluster_id = cluster_id;
  node_id = node_id;
  port = port;
  peers = [];
}

-- A peer that is known keeps all but the time.
unfoldable pub seen : DiscoveryPacket → ℕ → Option PeerInfo → PeerInfo
seen packet now none = record {
  node_id = packet.node_id;
  address = packet.address;
  last_seen = now;
  public_key = packet.public_key;
}
seen packet now (some peer) = record peer { last_seen = now }

unfoldable pub handle_packet : Option DiscoveryPacket → ℕ → DiscoveryService → DiscoveryService
handle_packet none now s = s
handle_packet (some packet) now s =
    if packet.node_id == s.node_id
    then s
    else if not (packet.cluster_id == s.cluster_id)
    then s
    else record s {
      peers = insert packet.node_id (seen packet now (lookup packet.node_id s.peers)) s.peers;
    }

-- The packets that arrive, each with the clock's reading, one behind the other.
unfoldable pub handle_all : List (Option DiscoveryPacket × ℕ) → DiscoveryService → DiscoveryService
handle_all [] s = s
handle_all ((packet, now) ∷ packets) s = handle_all packets (handle_packet packet now s)

-- `Encode` and `DecodeDiscoveryPacket`, and `fmt.Sprintf(":%d", port)`.
pub record Wire : Type 0 where
  pub encode : DiscoveryPacket → Option String
  pub decode : String → Option DiscoveryPacket
  pub port_text : ℕ → String

-- The bytes of "dummy-key".
abbrev pub dummy_key : List ℕ
dummy_key = 100 ∷ 117 ∷ 109 ∷ 109 ∷ 121 ∷ 45 ∷ 107 ∷ 101 ∷ 121 ∷ []

unfoldable pub own_packet : Wire → DiscoveryService → DiscoveryPacket
own_packet wire s = record {
  cluster_id = s.cluster_id;
  node_id = s.node_id;
  address = wire.port_text s.port;
  priority = 1;
  public_key = dummy_key;
}

-- What is sent, where the packet can be encoded.
unfoldable pub broadcast : Wire → DiscoveryService → Option String
unfolding own_packet
broadcast wire s = wire.encode (own_packet wire s)

-- A datagram that the listen loop hands on.
unfoldable pub receive : Wire → String → ℕ → DiscoveryService → DiscoveryService
unfolding handle_packet
receive wire bytes now s = handle_packet (wire.decode bytes) now s
