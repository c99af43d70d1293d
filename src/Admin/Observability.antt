-- ===== src/Admin/Observability.antt =====
-- backend/admin-api/internal/middleware/observability.go.
-- Latencies are whole microseconds; the code divides them by 1000. Their sum as floats, which rounds, stays the
-- sum that the code writes, `FloatSum`. A share is in hundredths: for up to 512 samples the float's ceiling is the one computed here.
-- The request ids and the log of accesses are in AccessLog.
pub mod Counters
pub mod Percentiles
pub mod AccessLog
use Prim.Native.String
use ziyad_messenger.Base.{
  ℕ, zero, suc, ◌+◌, ◌-◌, ◌*◌, ◌/◌, String, Bool, true, false, not, ◌&&◌, ◌||◌, List, [], ◌∷◌, ◌++◌,
  map, Option, none, some, ◌==◌, ltb, leb, length, drop, if◌then◌else◌,
}
use ziyad_messenger.Base.Assoc.{insert, lookup, get_or}
use ziyad_messenger.Base.Order.{order_by}

-- 0.0, and a sum with a latency added to it.
pub data FloatSum : Type 0 where
  zero_float : FloatSum
  add_latency : FloatSum → ℕ → FloatSum

pub record EndpointCounter : Type 0 where
  pub method : String
  pub route : String
  pub count : ℕ
  pub error_count : ℕ
  pub total_latency : FloatSum
  pub max_latency : ℕ
  pub last_latency : ℕ
  pub last_status : ℕ
  pub last_updated_at : ℕ
  pub latency_samples : List ℕ

-- The average is the total that is to be divided by the count.
pub record EndpointMetric : Type 0 where
  pub method : String
  pub route : String
  pub count : ℕ
  pub error_count : ℕ
  pub avg_latency : Option (FloatSum × ℕ)
  pub p95_latency : ℕ
  pub p99_latency : ℕ
  pub max_latency : ℕ
  pub last_latency : ℕ
  pub last_status_code : ℕ
  pub updated_at : ℕ

abbrev pub MetricsStore : Type 0
MetricsStore = List (String × EndpointCounter)

abbrev pub max_latency_samples : ℕ
max_latency_samples = 512

abbrev pub zero_counter : EndpointCounter
zero_counter = record {
  method = "";
  route = "";
  count = 0;
  error_count = 0;
  total_latency = zero_float;
  max_latency = 0;
  last_latency = 0;
  last_status = 0;
  last_updated_at = 0;
  latency_samples = [];
}

abbrev pub key_of : String → String → String
key_of method route = String.◌++◌ method (String.◌++◌ " " route)

-- One request, as `recordEndpointMetric` is told of it, with the second in which it was.
pub record Observed : Type 0 where
  pub method : String
  pub route : String
  pub status : ℕ
  pub latency : ℕ
  pub now : ℕ

abbrev pub key : Observed → String
key o = key_of o.method o.route

-- The last `max_latency_samples` of a list.
unfoldable pub clipped : List ℕ → List ℕ
clipped samples =
    if ltb max_latency_samples (length samples)
    then drop (length samples - max_latency_samples) samples
    else samples

unfoldable pub bump : Observed → EndpointCounter → EndpointCounter
unfolding clipped
bump o cur = record {
  method = o.method;
  route = o.route;
  count = suc cur.count;
  error_count = if leb 400 o.status then suc cur.error_count else cur.error_count;
  total_latency = add_latency cur.total_latency o.latency;
  max_latency = if ltb cur.max_latency o.latency then o.latency else cur.max_latency;
  last_latency = o.latency;
  last_status = o.status;
  last_updated_at = o.now;
  latency_samples = clipped (cur.latency_samples ++ o.latency ∷ []);
}

unfoldable pub record_endpoint_metric : Observed → MetricsStore → MetricsStore
unfolding bump
record_endpoint_metric o store = insert (key o) (bump o (get_or (key o) zero_counter store)) store

-- `cp[i]`, which is in range wherever it is read.
abbrev pub nth : ℕ → List ℕ → ℕ
nth i [] = 0
nth zero (x ∷ xs) = x
nth (suc i) (x ∷ xs) = nth i xs

-- The place of the share `p` among `n` samples.
abbrev pub index : ℕ → ℕ → ℕ
index p n = let i = (p * n + 99) / 100 - 1 in if leb n i then n - 1 else i

unfoldable pub percentile : List ℕ → ℕ → ℕ
percentile samples p =
    let share = if ltb 100 p then 100 else p in
    nth (index share (length samples)) (order_by ltb samples)

abbrev average : EndpointCounter → Option (FloatSum × ℕ)
average c = if ltb 0 c.count then some (c.total_latency, c.count) else none

unfoldable pub metric_of : EndpointCounter → EndpointMetric
unfolding percentile
metric_of c = record {
  method = c.method;
  route = c.route;
  count = c.count;
  error_count = c.error_count;
  avg_latency = average c;
  p95_latency = percentile c.latency_samples 95;
  p99_latency = percentile c.latency_samples 99;
  max_latency = c.max_latency;
  last_latency = c.last_latency;
  last_status_code = c.last_status;
  updated_at = c.last_updated_at;
}

unfoldable pub snapshot_endpoint_metrics : MetricsStore → List (String × EndpointMetric)
unfolding metric_of
snapshot_endpoint_metrics [] = []
snapshot_endpoint_metrics ((k, c) ∷ store) = (k, metric_of c) ∷ snapshot_endpoint_metrics store
