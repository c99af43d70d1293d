-- ===== src/Services.antt =====
-- The servers that backend/services/{auth,audit,cluster,filetransfer,presence}/main.go build: the handlers that
-- `main` gives to the mux, each behind `withRequestTrace`, and the requests served one behind the other. The
-- tables of each service are in its module Server. The mux of net/http finds the handler whose pattern is the
-- path; paths are clean, as it redirects others. What it does not find it answers itself, without trace.
pub mod Limits
pub mod Invariants
use ziyad_messenger.Base.{
  ℕ, String, Bool, true, false, List, [], ◌∷◌, Option, none, some, ◌==◌, find, if◌then◌else◌,
}
use ziyad_messenger.Base.Http.{Response, reply, http_error, status_ok}
use ziyad_messenger.RateLimiter.{IpRateLimiter, allow}
use ziyad_messenger.Trace.{
  Request, Entropy, Traced, client_ip, get_or_create_request_id, with_request_trace,
  with_limited_request_trace,
}

-- A handler in the mux, with its name in the log and the bound on its body, 0 for none. `P` is what the handler
-- reads of the world beside the request.
pub record Route (P A S : Type 0) : Type 0 where
  pub pattern : String
  pub name : String
  pub max_body : ℕ
  pub handler : P → Request → S → Response A × S

-- A request with the clock's reading, the random bytes for its id, a fresh text where the service takes one, and
-- what its handler reads.
pub record Call (P : Type 0) : Type 0 where
  pub now : ℕ
  pub request : Request
  pub random : Option String
  pub fresh : String
  pub payload : P

-- A server's tables: its name in the log, the id of a request when the random source fails, its handlers.
pub record Mux (P A S : Type 0) : Type 0 where
  pub name : String
  pub fallback : String → String
  pub routes : List (Route P A S)

module _ {P A S : Type 0} where
  unfoldable pub mux_route : Mux P A S → Call P → Option (Route P A S)
  mux_route v c = find (λ r. r.pattern == c.request.path) v.routes

  abbrev pub entropy : Mux P A S → Call P → Entropy
  entropy v c = record { random = c.random; fallback = v.fallback c.fresh }

  abbrev pub found_limited :
      Mux P A S
      → Call P
      → Option (Route P A S)
      → IpRateLimiter × S
      → Option (Traced A) × (IpRateLimiter × S)
  found_limited v c none s = (none, s)
  found_limited v c (some r) s =
      let (traced, s') =
        with_limited_request_trace v.name r.name (r.handler c.payload) r.max_body c.now c.request
          (entropy v c) s in
      (some traced, s')

  -- `none` is the mux's own answer, 404.
  unfoldable pub serve_limited :
      Mux P A S → Call P → IpRateLimiter × S → Option (Traced A) × (IpRateLimiter × S)
  unfolding mux_route
  serve_limited v c s = found_limited v c (mux_route v c) s

  abbrev pub found_plain : Mux P A S → Call P → Option (Route P A S) → S → Option (Traced A) × S
  found_plain v c none s = (none, s)
  found_plain v c (some r) s =
      let (traced, s') =
        with_request_trace v.name r.name (r.handler c.payload) c.request (entropy v c) s in
      (some traced, s')

  -- A service without a limiter.
  unfoldable pub serve_plain : Mux P A S → Call P → S → Option (Traced A) × S
  unfolding mux_route
  serve_plain v c s = found_plain v c (mux_route v c) s

  -- The state of such a service behind requests.
  unfoldable pub serve_plain_all : Mux P A S → List (Call P) → S → S
  unfolding serve_plain
  serve_plain_all v [] s = s
  serve_plain_all v (c ∷ cs) s = serve_plain_all v cs (serve_plain v c s).1

  -- What a limited service answers to requests, and its state behind them.
  unfoldable pub serve_all :
      Mux P A S → List (Call P) → IpRateLimiter × S → List (Option (Traced A)) × (IpRateLimiter × S)
  unfolding serve_limited
  serve_all v [] s = ([], s)
  serve_all v (c ∷ cs) s =
      let (answer, s') = serve_limited v c s in
      let (answers, s'') = serve_all v cs s' in (answer ∷ answers, s'')

  -- `fmt.Fprintln` behind `w.WriteHeader(http.StatusOK)`
  abbrev pub health : (String → A) → String → P → Request → S → Response A × S
  health body text p req s = (reply status_ok (body text), s)

-- The answer of a handler as one of its service's.
abbrev pub as_answer : {A B : Type 0} → (B → A) → Response B → Response A
as_answer f (http_error text code) = http_error text code
as_answer f (reply code b) = reply code (f b)
