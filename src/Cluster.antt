-- ===== src/Cluster.antt =====
-- backend/services/cluster/main.go: the stub of a Raft node and `JoinHandler`. Its tracing and its limiter are
-- those of Trace and RateLimiter. The heartbeat's loop does nothing.
pub mod Join
pub mod Server
use ziyad_messenger.Base.{
  ℕ, String, len, Bool, true, false, ◌&&◌, ◌||◌, not, ◌==◌, ltb, leb, if◌then◌else◌,
}
use ziyad_messenger.Base.Text.{trim_space}
use ziyad_messenger.Base.Http.{
  Response, http_error, reply, status_ok, status_bad_request, status_method_not_allowed,
}

pub record RaftNode : Type 0 where
  pub node_id : String
  pub raft_dir : String
  pub raft_bind : String
  pub state : String

unfoldable pub new_raft_node : String → String → String → RaftNode
new_raft_node node_id raft_dir raft_bind = record {
  node_id = node_id;
  raft_dir = raft_dir;
  raft_bind = raft_bind;
  state = "Follower";
}

-- `Start` at so many seconds after its call: the goroutine has slept for five, or it has not.
unfoldable pub start : ℕ → RaftNode → RaftNode
start elapsed n = if leb 5 elapsed then record n { state = "Leader" } else n

pub record JoinRequest : Type 0 where
  pub method : String
  pub node_id : String
  pub addr : String

-- The node is not changed by it.
unfoldable pub join_handler : JoinRequest → Response (Unit {0})
join_handler r =
    let node_id = trim_space r.node_id in
    let addr = trim_space r.addr in
    if not (r.method == "GET") && not (r.method == "POST")
    then http_error "Method not allowed" status_method_not_allowed
    else if node_id == "" || ltb 64 (len node_id)
    then http_error "Invalid node_id" status_bad_request
    else if addr == "" || ltb 128 (len addr)
    then http_error "Invalid addr" status_bad_request
    else reply status_ok tt
