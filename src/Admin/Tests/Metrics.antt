-- ===== src/Admin/Tests/Metrics.antt =====
-- The overview and the counters of backend/admin-api on a few rows and requests.
use ziyad_messenger.Base.{◌+◌, arith, ℕ, ◌≤◌, true, false, [], ◌∷◌, none, some, ◌≡◌, arith}
use ziyad_messenger.Base.Assoc.{get_or}
use ziyad_messenger.Admin.Monitoring.{
  Tables, Host, World, empty_cache, overview, ◌>>=◌, return, network, users, messages, files,
  system, build_overview,
}
use ziyad_messenger.Admin.Monitoring.Equivalence.{build_overview_lem}
use ziyad_messenger.Admin.Monitoring.Cache.{Reached, IsFresh, overview-IsFresh}
use ziyad_messenger.Admin.Observability.{EndpointCounter, Observed, zero_counter, metric_of}
use ziyad_messenger.Admin.Observability.Counters.{
  IsSummary, of_endpoint, record_all, record_all-IsSummary,
}
use ziyad_messenger.Admin.Observability.Percentiles.{IsPercentile, metric_of-IsPercentile}

abbrev pub host : Host
host = record {
  like = λ pattern text. false;
  go_version = "go1.22";
  num_cpu = 4;
  start_time = 1000;
}

abbrev platform : Tables
platform = record {
  cluster_nodes = none;
  users = 3;
  user_presence = none;
  messages = some (record { sender_id = "u"; type = 3; timestamp = 500000000 } ∷ []);
  files = none;
  audit_logs = [];
}

build_overview_lem_example :
    build_overview host 500000100 platform 64 (false ∷ true ∷ [])
    ≡ (do
      n ← network host 500000100 platform
      u ← users host 500000100 platform
      m ← messages host 500000100 platform
      f ← files host 500000100 platform
      return (record {
        generated_at = 500000;
        network = n;
        users = u;
        messages = m;
        files = f;
        system = system host 500000100 platform 64;
      }))
        (false ∷ true ∷ [])
build_overview_lem_example = build_overview_lem host 500000100 64 platform (false ∷ true ∷ [])

abbrev world : ℕ → World
world now = record {
  now = now;
  built_at = now + 40;
  tables = platform;
  memory_alloc = 64;
  faults = [];
}

overview-IsFresh_example :
    IsFresh host
      (world 500003000 ∷ world 500000100 ∷ [])
      500003000
      (overview host (world 500003000) (overview host (world 500000100) empty_cache).1).0
overview-IsFresh_example =
    overview-IsFresh host (world 500000100 ∷ []) (overview host (world 500000100) empty_cache).1
      (world 500003000) (Reached.ask (world 500000100) Reached.start) (omega arith)

abbrev seen : ℕ → ℕ → Observed
seen status latency = record {
  method = "GET";
  route = "/admin/users";
  status = status;
  latency = latency;
  now = 7;
}

record_all-IsSummary_example :
    IsSummary
      (of_endpoint "GET /admin/users" (seen 200 30 ∷ seen 500 20 ∷ []))
      (get_or "GET /admin/users" zero_counter (record_all (seen 200 30 ∷ seen 500 20 ∷ []) []))
record_all-IsSummary_example =
    record_all-IsSummary "GET /admin/users" (seen 200 30 ∷ seen 500 20 ∷ [])

abbrev counter : EndpointCounter
counter = record zero_counter { latency_samples = 30 ∷ 20 ∷ 40 ∷ [] }

metric_of-IsPercentile_example :
    IsPercentile (30 ∷ 20 ∷ 40 ∷ []) 95 (metric_of counter).p95_latency
    × IsPercentile (30 ∷ 20 ∷ 40 ∷ []) 99 (metric_of counter).p99_latency
    × ((metric_of counter).p95_latency ≤ (metric_of counter).p99_latency)
metric_of-IsPercentile_example = metric_of-IsPercentile counter (omega arith)
