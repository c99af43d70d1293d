-- ===== src/Trace/Laws.antt =====
-- What the wrappers add to a handler, and what they keep from it.
use ziyad_messenger.Base.{
  ℕ, String, some, ◌≡◌, ◌≢◌, arith, refl, eq_iff, Bool-cases, inl, inr, if◌then◌else◌,
}
use ziyad_messenger.Base.Text.{trim_space}
use ziyad_messenger.Base.Http.{Response, http_error, status, status_too_many_requests}
use ziyad_messenger.RateLimiter.{IpRateLimiter, allow}
use ziyad_messenger.Trace.{
  Request, Entropy, Traced, get_or_create_request_id, client_ip, traced, with_request_trace,
  with_limited_request_trace,
}

-- The id of a request is never empty, if neither the random source nor the fallback gives it empty.
pub get_or_create_request_id-ne-empty :
    (req : Request) (e : Entropy)
    → e.random ≢ some ""
    → e.fallback ≢ ""
    → get_or_create_request_id req e ≢ ""
unfolding get_or_create_request_id
get_or_create_request_id-ne-empty req e h k = ground (arith, eq_iff (trim_space req.request_id) "")

-- One id and one status: the handler, the response's header and the log entry agree.
abbrev pub Agrees : {A : Type 0} → Traced A → String → Request → Type 0
Agrees t rid req =
    (t.request_id ≡ rid)
    × (t.entry.request_id ≡ rid)
    × (t.entry.status ≡ status t.response)
    × (t.entry.method ≡ req.method)
    × (t.entry.path ≡ req.path)

module _ {A S : Type 0} (service name : String) (next : Request → S → Response A × S) where
  -- The plain wrapper runs the handler once, on the request with its id in place.
  pub with_request_trace_lem :
      (req : Request) (e : Entropy) (s : S)
      → let rid = get_or_create_request_id req e in
        let ran = next (record req { request_id = rid }) s in
        let out = with_request_trace service name next req e s in
        Agrees out.0 rid req × (out.0.response ≡ ran.0) × (out.1 ≡ ran.1)
  unfolding with_request_trace traced
  with_request_trace_lem req e s = ((refl, refl, refl, refl, refl), refl, refl)

  -- The limiting wrapper runs the handler just when the limiter lets the caller's address through.
  -- Otherwise it answers 429 and leaves the service's state as it was.
  pub with_limited_request_trace_lem :
      (max_body now : ℕ) (req : Request) (e : Entropy) (l : IpRateLimiter) (s : S)
      → let rid = get_or_create_request_id req e in
        let ran = next (record req { request_id = rid; body_limit = max_body }) s in
        let out = with_limited_request_trace service name next max_body now req e (l, s) in
        let allowed = (allow l now (client_ip req)).0 in
        Agrees out.0 rid req
        × (out.0.response
            ≡ (if allowed then ran.0 else http_error "Too many requests" status_too_many_requests))
        × (out.1.0 ≡ (allow l now (client_ip req)).1)
        × (out.1.1 ≡ (if allowed then ran.1 else s))
  unfolding with_limited_request_trace traced
  with_limited_request_trace_lem max_body now req e l s =
      elim (Bool-cases (allow l now (client_ip req)).0) [
        | inl h ↦ rw h ((refl, refl, refl, refl, refl), refl, refl, refl)
        | inr h ↦ rw h ((refl, refl, refl, refl, refl), refl, refl, refl)
      ]
