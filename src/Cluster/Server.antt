-- ===== src/Cluster/Server.antt =====
-- The server of backend/services/cluster/main.go: `clusterLimiter`, the tracing behind it, and the mux of `main`.
use ziyad_messenger.Base.{String, ◌==◌, if◌then◌else◌, [], ◌∷◌, Option}
use ziyad_messenger.Base.Http.{Response}
use ziyad_messenger.RateLimiter.{IpRateLimiter, new_ip_rate_limiter}
use ziyad_messenger.Trace.{Request, Traced}
use ziyad_messenger.Services.{Call, Mux, serve_limited}
use ziyad_messenger.Cluster.{RaftNode, new_raft_node, join_handler}

unfoldable pub cluster_limiter : IpRateLimiter
cluster_limiter = new_ip_rate_limiter 120 60000000000

-- The two parameters of the query.
pub record Query : Type 0 where
  pub node_id : String
  pub addr : String

-- The node that `main` makes, by the environment's NODE_ID.
unfoldable pub configured_node : String → RaftNode
configured_node id = new_raft_node (if id == "" then "node-1" else id) "./raft-data" ":10001"

abbrev pub join_route : Query → Request → RaftNode → Response (Unit {0}) × RaftNode
join_route q req n =
    (join_handler (record { method = req.method; node_id = q.node_id; addr = q.addr }), n)

-- A request's id falls back to a fixed text.
unfoldable pub cluster_service : Mux Query (Unit {0}) RaftNode
cluster_service = record {
  name = "cluster";
  fallback = λ _. "cluster-fallback-id";
  routes = record { pattern = "/join"; name = "join"; max_body = 0; handler = join_route } ∷ [];
}

unfoldable pub serve_cluster :
    Call Query → IpRateLimiter × RaftNode → Option (Traced (Unit {0})) × (IpRateLimiter × RaftNode)
serve_cluster c s = serve_limited cluster_service c s
