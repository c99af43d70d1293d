-- ===== src/Admin/Observability/AccessLog.antt =====
-- The request ids and the log of accesses of backend/admin-api/internal/middleware/observability.go.
-- `filepath.Join`, the JSON of an entry, the clock and the file system's answers come from outside.
pub mod Rotation
use Prim.Native.String
use ziyad_messenger.Base.{
  ℕ, String, Bool, true, false, not, ◌||◌, List, [], ◌∷◌, ◌++◌, Option, none, some, ◌==◌,
  if◌then◌else◌,
}
use ziyad_messenger.Base.Assoc.{insert, lookup, get_or}
use ziyad_messenger.Base.Text.{trim_space}
use ziyad_messenger.Admin.Store.{Claims}
use ziyad_messenger.Admin.Observability.{Observed, MetricsStore, record_endpoint_metric}

-- `RequestID`, on the header X-Request-ID.
unfoldable pub request_id : String → String → String
request_id header uuid = let rid = trim_space header in if rid == "" then uuid else rid

pub record AccessEntry : Type 0 where
  pub request_id : String
  pub method : String
  pub route : String
  pub path : String
  pub status : ℕ
  pub latency : ℕ
  pub client_ip : String
  pub user_agent : String
  pub admin_user_id : String
  pub admin_username : String
  pub admin_role : String

-- The open file of `accessLogSink` by its path, and the files by their lines.
pub record Sink : Type 0 where
  pub date : String
  pub file : Option String

pub record Files : Type 0 where
  pub sink : Sink
  pub disk : List (String × List String)

-- The directory of the environment, today's date, and whether the calls on the file system succeed.
pub record Outside : Type 0 where
  pub dir : String
  pub now_date : String
  pub mkdir : Bool
  pub open_file : Bool
  pub write : Bool
  pub join : String → String → String

abbrev pub log_name : String → String
log_name date = String.◌++◌ "access-" (String.◌++◌ date ".log")

abbrev written : Bool → String → String → List (String × List String) → List (String × List String)
written false path line disk = disk
written true path line disk = insert path (get_or path [] disk ++ line ∷ []) disk

abbrev pub write_to : Outside → Option String → String → Files → Files
write_to out none line f = f
write_to out (some path) line f = record f { disk = written out.write path line f.disk }

-- An open file is closed before another is opened; a file that is missing is made, empty.
abbrev pub opened : Outside → String → Files → Files
opened out line f =
    let path = out.join (trim_space out.dir) (log_name out.now_date) in
    if not out.mkdir || not out.open_file
    then record f { sink = record f.sink { file = none } }
    else write_to out (some path) line (record {
      sink = record { date = out.now_date; file = some path };
      disk = insert path (get_or path [] f.disk) f.disk;
    })

abbrev pub is_current : String → Sink → Bool
is_current date sink = elim sink.file [ none ↦ false | some path ↦ sink.date == date ]

unfoldable pub write_access_log_to_file : Outside → String → Files → Files
write_access_log_to_file out line f =
    if trim_space out.dir == ""
    then f
    else if is_current out.now_date f.sink
    then write_to out f.sink.file line f
    else opened out line f

-- What the middleware reads of a request, and its claims where there are any.
pub record Visited : Type 0 where
  pub method : String
  pub full_path : String
  pub path : String
  pub status : ℕ
  pub latency : ℕ
  pub request_id : String
  pub client_ip : String
  pub user_agent : String
  pub claims : Option Claims
  pub now : ℕ

abbrev pub route_of : Visited → String
route_of v = if v.full_path == "" then v.path else v.full_path

abbrev no_claims : Claims
no_claims = record { user_id = ""; username = ""; role = "" }

abbrev claims_or : Option Claims → Claims
claims_or none = no_claims
claims_or (some c) = c

unfoldable pub access_entry : Visited → AccessEntry
access_entry v =
    let who = claims_or v.claims in
    record {
      request_id = v.request_id;
      method = v.method;
      route = route_of v;
      path = v.path;
      status = v.status;
      latency = v.latency;
      client_ip = v.client_ip;
      user_agent = v.user_agent;
      admin_user_id = who.user_id;
      admin_username = who.username;
      admin_role = who.role;
    }

abbrev pub observed : Visited → Observed
observed v = record {
  method = v.method;
  route = route_of v;
  status = v.status;
  latency = v.latency;
  now = v.now;
}

-- `AccessLogAndMetrics`, behind the handler; `json` gives nothing where the entry cannot be marshalled.
unfoldable pub access_log_and_metrics :
    (AccessEntry → Option String) → Outside → Visited → MetricsStore × Files → MetricsStore × Files
unfolding record_endpoint_metric access_entry write_access_log_to_file
access_log_and_metrics json out v (store, files) = (
  record_endpoint_metric (observed v) store,
  elim (json (access_entry v)) [
    | none ↦ files
    | some line ↦ write_access_log_to_file out line files
  ],
)
