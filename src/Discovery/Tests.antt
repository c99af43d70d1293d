-- ===== src/Discovery/Tests.antt =====
-- A peer that moves.
use ziyad_messenger.Base.{
  ℕ, ◌≡◌, refl, String, Bool, true, false, ◌&&◌, List, [], ◌∷◌, Option, none, some, eqb, ◌==◌,
  eq_iff, arith, if◌then◌else◌,
}
use ziyad_messenger.Base.Assoc.{lookup, insert}
use ziyad_messenger.Discovery.{
  DiscoveryPacket, new_discovery_service, seen, handle_packet, handle_all, Wire, dummy_key,
  own_packet, broadcast, receive,
}
use ziyad_messenger.Discovery.Announce.{receive-broadcast}
use ziyad_messenger.Discovery.Peers.{counting, last_time, handle_all-known_by}

discovery : Unit {0}
unfolding new_discovery_service seen handle_packet handle_all counting last_time lookup insert
discovery = tt

abbrev packet : String → String → Option DiscoveryPacket
packet node address = some (record {
  cluster_id = "local-cluster";
  node_id = node;
  address = address;
  priority = 1;
  public_key = 7 ∷ [];
})

-- The second node moves to another address; the first hears itself.
abbrev packets : List (Option DiscoveryPacket × ℕ)
packets =
    (packet "node-2" ":8080", 3)
    ∷ (packet "node-1" ":8080", 4)
    ∷ (none, 5)
    ∷ (packet "node-2" ":9090", 6)
    ∷ []

handle_all-known_by_example :
    lookup "node-2" (handle_all packets (new_discovery_service "node-1" "local-cluster" 8080)).peers
    ≡ some (record { node_id = "node-2"; address = ":8080"; last_seen = 6; public_key = 7 ∷ [] })
unfolding discovery
handle_all-known_by_example = handle_all-known_by "node-1" "local-cluster" "node-2" 8080 packets

abbrev announced : DiscoveryPacket
announced = record {
  cluster_id = "local-cluster";
  node_id = "node-2";
  address = ":8080";
  priority = 1;
  public_key = dummy_key;
}

abbrev same : List ℕ → List ℕ → Bool
same [] [] = true
same [] (y ∷ ys) = false
same (x ∷ xs) [] = false
same (x ∷ xs) (y ∷ ys) = eqb x y && same xs ys

same-eq : (xs ys : List ℕ) → same xs ys ≡ true → xs ≡ ys
same-eq [] [] h = refl
same-eq [] (y ∷ ys) h = ground arith
same-eq (x ∷ xs) [] h = ground arith
same-eq (x ∷ xs) (y ∷ ys) h = ground (arith, same-eq xs ys)

-- A wire that carries one packet and no other.
abbrev is_announced : DiscoveryPacket → Bool
is_announced p =
    p.cluster_id == announced.cluster_id
    && p.node_id == announced.node_id
    && p.address == announced.address
    && eqb p.priority 1
    && same p.public_key dummy_key

abbrev wire : Wire
wire = record {
  encode = λ p. if is_announced p then some "hello" else none;
  decode = λ text. if text == "hello" then some announced else none;
  port_text = λ port. ":8080";
}

wire_faithful :
    (p : DiscoveryPacket) (text : String) → wire.encode p ≡ some text → wire.decode text ≡ some p
wire_faithful p text h = ground (
  arith,
  same-eq p.public_key dummy_key,
  eq_iff p.cluster_id announced.cluster_id,
  eq_iff p.node_id announced.node_id,
  eq_iff p.address announced.address,
  eq_iff text "hello",
)

receive-broadcast_example :
    lookup "node-2"
      (receive wire "hello" 9 (new_discovery_service "node-1" "local-cluster" 8080)).peers
    ≡ (if "node-2" == "node-2"
        then some (record {
          node_id = "node-2";
          address = ":8080";
          last_seen = 9;
          public_key = dummy_key;
        })
        else none)
unfolding discovery own_packet broadcast
receive-broadcast_example =
    receive-broadcast wire (new_discovery_service "node-2" "local-cluster" 8080)
      (new_discovery_service "node-1" "local-cluster" 8080) "hello" "node-2" 9 wire_faithful refl
      refl refl
