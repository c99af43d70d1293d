-- ===== src/Trace.antt =====
-- `getOrCreateRequestID`, `clientIP`, `statusRecorder` and `withRequestTrace`, which the files
-- backend/services/{messaging,presence,auth,audit,cluster,filetransfer}/main.go declare with small
-- differences: the service's name, the fallback id, a limiter and a bound on the body.
-- The log's `ts` and `latency_ms` are readings of the clock and are left out. What `rand.Read` gives
-- is an argument (in hexadecimal, `none` for an error), as is the fallback id.
pub mod Laws
mod Tests
use ziyad_messenger.Base.{ℕ, String, Bool, true, false, Option, none, some, ◌==◌, if◌then◌else◌}
use ziyad_messenger.Base.Text.{trim_space, cut, split_host_port}
use ziyad_messenger.Base.Http.{Response, http_error, reply, status, status_too_many_requests}
use ziyad_messenger.RateLimiter.{IpRateLimiter, allow}

-- What the wrappers read of a request. A missing header is the empty text; a body limit of 0 is none.
pub record Request : Type 0 where
  pub method : String
  pub path : String
  pub request_id : String
  pub forwarded_for : String
  pub remote_addr : String
  pub body_limit : ℕ

pub record Entropy : Type 0 where
  pub random : Option String
  pub fallback : String

pub record LogEntry : Type 0 where
  pub service : String
  pub handler : String
  pub request_id : String
  pub method : String
  pub path : String
  pub status : ℕ

-- What leaves the wrapper: the handler's response, the X-Request-ID header on it, and the log entry.
pub record Traced (A : Type 0) : Type 0 where
  pub response : Response A
  pub request_id : String
  pub entry : LogEntry

unfoldable pub get_or_create_request_id : Request → Entropy → String
get_or_create_request_id req e =
    let rid = trim_space req.request_id in
    if rid == "" then elim e.random [ some hex ↦ hex | none ↦ e.fallback ] else rid

unfoldable pub client_ip : Request → String
client_ip req =
    let xff = trim_space req.forwarded_for in
    if xff == ""
    then elim (split_host_port req.remote_addr) [ some host ↦ host | none ↦ req.remote_addr ]
    else trim_space (cut b',' xff).0

module _ {A S : Type 0} (service name : String) (next : Request → S → Response A × S) where
  -- The wrapper's end: the entry takes the status that the recorder saw.
  unfoldable pub traced : Request → String → Response A → Traced A
  traced req rid response = record {
    response = response;
    request_id = rid;
    entry = record {
      service = service;
      handler = name;
      request_id = rid;
      method = req.method;
      path = req.path;
      status = status response;
    };
  }

  -- messaging and presence
  unfoldable pub with_request_trace : Request → Entropy → S → Traced A × S
  with_request_trace req e s =
      let rid = get_or_create_request_id req e in
      let (response, s') = next (record req { request_id = rid }) s in (traced req rid response, s')

  -- auth, audit, filetransfer, and cluster with `max_body` 0
  unfoldable pub with_limited_request_trace :
      ℕ → ℕ → Request → Entropy → IpRateLimiter × S → Traced A × (IpRateLimiter × S)
  with_limited_request_trace max_body now req e (l, s) =
      let rid = get_or_create_request_id req e in
      let (allowed, l') = allow l now (client_ip req) in
      let (response, s') = next (record req { request_id = rid; body_limit = max_body }) s in
      if allowed
      then (traced req rid response, (l', s'))
      else (traced req rid (http_error "Too many requests" status_too_many_requests), (l', s))
