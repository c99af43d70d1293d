-- ===== src/Admin/System.antt =====
-- backend/admin-api/internal/{system,cluster}, the routes of backend/admin-api/cmd/server/main.go outside /admin, and
-- its answer to the OPTIONS method.
use ziyad_messenger.Base.{ℕ, ◌-◌, String, Bool, true, not, List, [], ◌∷◌, ◌==◌, if◌then◌else◌}
use ziyad_messenger.Base.Http.{Response, reply, http_error}
use ziyad_messenger.Base.State.{Result, ok, err}
use ziyad_messenger.Admin.Store.{Service, Stop}
use ziyad_messenger.Admin.Users.{User, list_users}
use ziyad_messenger.Admin.Channels.{Channel, list_public}
use ziyad_messenger.Admin.Observability.{EndpointMetric, MetricsStore, snapshot_endpoint_metrics}

-- The memory is counted in bytes, where the code divides them by 1024 * 1024.
pub record HealthResponse : Type 0 where
  pub status : String
  pub version : String
  pub uptime_seconds : ℕ
  pub memory_alloc : ℕ

unfoldable pub system_health : ℕ → ℕ → ℕ → HealthResponse
system_health start_time now alloc = record {
  status = "ok";
  version = "1.0";
  uptime_seconds = now - start_time;
  memory_alloc = alloc;
}

pub record MetricsResponse : Type 0 where
  pub generated_at : ℕ
  pub endpoints : List (String × EndpointMetric)

unfoldable pub system_metrics : ℕ → MetricsStore → MetricsResponse
system_metrics now store = record {
  generated_at = now;
  endpoints = snapshot_endpoint_metrics store;
}

pub record NodeInfo : Type 0 where
  pub node_id : String
  pub address : String
  pub role : String
  pub last_seen : ℕ
  pub is_leader : Bool

pub record ClusterStatus : Type 0 where
  pub cluster_id : String
  pub leader_id : String
  pub nodes : List NodeInfo
  pub total_nodes : ℕ
  pub healthy : Bool

-- Whatever the cluster does.
unfoldable pub cluster_status : ℕ → ClusterStatus
cluster_status now = record {
  cluster_id = "local-cluster";
  leader_id = "node-1";
  nodes =
      record {
        node_id = "node-1";
        address = "localhost:8085";
        role = "leader";
        last_seen = now;
        is_leader = true;
      }
      ∷ [];
  total_nodes = 1;
  healthy = true;
}

-- What the routes outside /admin show to anyone.
pub data PublicBody : Type 0 where
  no_content : PublicBody
  channels : List Channel → PublicBody
  users : List User → PublicBody
  system : HealthResponse → PublicBody

abbrev shown :
    {A : Type 0} → (A → PublicBody) → Result Stop A × Service → Response PublicBody × Service
shown f (ok a, s) = (reply 200 (f a), s)
shown f (err (text, code), s) = (http_error text code, s)

-- By method and path, and a reading of the runtime; no header is looked at. The middleware answers OPTIONS itself.
unfoldable pub serve_public :
    String → String → HealthResponse → Service → Response PublicBody × Service
serve_public method path now s =
    if method == "OPTIONS"
    then (reply 204 no_content, s)
    else if not (method == "GET")
    then (http_error "404 page not found" 404, s)
    else if path == "/public/channels"
    then shown channels (list_public s)
    else if path == "/public/users"
    then shown users (list_users s)
    else if path == "/health"
    then (reply 200 (system now), s)
    else (http_error "404 page not found" 404, s)
