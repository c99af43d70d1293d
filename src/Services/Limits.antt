-- ===== src/Services/Limits.antt =====
-- A limited service against a service that admits requests by a log of all that it has accepted.
use mathlib.Core.Path.{ap₂}
use ziyad_messenger.Base.{
  ℕ, ◌≤◌, ◌≡◌, refl, sym, ap, ◌++◌, ◌∙◌, String, Bool, List, [], ◌∷◌, Option, none, some, ltb,
  Bool-cases, Option-cases, inl, inr, if◌then◌else◌,
}
use ziyad_messenger.Base.Assoc.{lookup}
use ziyad_messenger.Base.Http.{Response, http_error, status_too_many_requests}
use ziyad_messenger.RateLimiter.{IpRateLimiter, new_ip_rate_limiter, allow}
use ziyad_messenger.RateLimiter.Log.{Ascending, times, count_recent}
use ziyad_messenger.RateLimiter.Refinement.{Tracks, allow_fixed, allow-Tracks, allow_lem}
use ziyad_messenger.Trace.{
  Traced, client_ip, get_or_create_request_id, traced, with_limited_request_trace,
}
use ziyad_messenger.Services.{
  Route, Call, Mux, mux_route, entropy, found_limited, serve_limited, serve_all,
}

module _ {P A S : Type 0} (v : Mux P A S) where
  -- The time of a request and its address, as the limiter sees them.
  abbrev pub stamp : Call P → ℕ × String
  stamp c = (c.now, client_ip c.request)

  -- The stamps of the requests for which the mux has a handler.
  abbrev with_stamp : Option (Route P A S) → Call P → List (ℕ × String) → List (ℕ × String)
  with_stamp none c rest = rest
  with_stamp (some r) c rest = stamp c ∷ rest

  unfoldable pub stamps : List (Call P) → List (ℕ × String)
  stamps [] = []
  stamps (c ∷ cs) = with_stamp (mux_route v c) c (stamps cs)

  -- What leaves the tracing for an answer.
  abbrev traced_answer : Call P → Route P A S → Response A → Option (Traced A)
  traced_answer c r response = some (
      traced v.name r.name (r.handler c.payload) c.request
        (get_or_create_request_id c.request (entropy v c)) response)

  -- The handler, on the request with its id and its bound.
  abbrev run_bare : Call P → Route P A S → S → Response A × S
  run_bare c r s =
      let rid = get_or_create_request_id c.request (entropy v c) in
      r.handler c.payload (record c.request { request_id = rid; body_limit = r.max_body }) s

  module _ (limit window : ℕ) where
    -- Fewer than `limit` accepted requests of the address lie in the window up to the request.
    abbrev log_has_room : Call P → List (ℕ × String) → Bool
    log_has_room c log = ltb (count_recent window c.now (times (client_ip c.request) log)) limit

    abbrev admit_found :
        Call P
        → Option (Route P A S)
        → List (ℕ × String) × S
        → Option (Traced A) × (List (ℕ × String) × S)
    admit_found c none x = (none, x)
    admit_found c (some r) (log, s) =
        let (response, s') = run_bare c r s in
        if log_has_room c log
        then (traced_answer c r response, (log ++ stamp c ∷ [], s'))
        else (traced_answer c r (http_error "Too many requests" status_too_many_requests), (log, s))

    -- A request is answered 404 where the mux has no handler, 429 where the log has no room, and else by
    -- its handler; only then does it stand in the log and can it change the state.
    unfoldable pub admit_by_log :
        Call P → List (ℕ × String) × S → Option (Traced A) × (List (ℕ × String) × S)
    admit_by_log c x = admit_found c (mux_route v c) x

    unfoldable pub admit_all :
        List (Call P) → List (ℕ × String) × S → List (Option (Traced A)) × (List (ℕ × String) × S)
    unfolding admit_by_log
    admit_all [] x = ([], x)
    admit_all (c ∷ cs) x =
        let (answer, x') = admit_by_log c x in
        let (answers, x'') = admit_all cs x' in (answer ∷ answers, x'')

  abbrev Same :
      IpRateLimiter
      → ℕ
      → Option (Traced A) × (IpRateLimiter × S)
      → Option (Traced A) × (List (ℕ × String) × S)
      → Type 0
  Same l clock (answer, (l', s)) (answer', (log, s')) =
      (answer ≡ answer')
      × (s ≡ s')
      × Tracks l' clock log
      × (l'.limit ≡ l.limit)
      × (l'.window ≡ l.window)

  found-Same :
      (c : Call P) (r : Route P A S) (l : IpRateLimiter) (clock : ℕ) (log : List (ℕ × String))
      (s : S)
      → clock ≤ c.now
      → Tracks l clock log
      → Same l c.now
          (found_limited v c (some r) (l, s))
          (admit_found l.limit l.window c (some r) (log, s))
  unfolding with_limited_request_trace
  found-Same c r l clock log s h tracks =
      let ip = client_ip c.request in
      let next = allow-Tracks l clock c.now ip log h tracks in
      let (lim, win) = allow_fixed l c.now ip in
      let decision = allow_lem l clock c.now ip log h tracks in
      elim (Bool-cases (allow l c.now ip).0) [
        | inl free ↦ rw (free, sym decision ∙ free) (refl, refl, rw free at next, lim, win)
        | inr full ↦ rw (full, sym decision ∙ full) (refl, refl, rw full at next, lim, win)
      ]

  admit_all_cong :
      (cs : List (Call P)) (log : List (ℕ × String)) {limit limit' window window' : ℕ} {s s' : S}
      → limit ≡ limit'
      → window ≡ window'
      → s ≡ s'
      → admit_all limit window cs (log, s) ≡ admit_all limit' window' cs (log, s')
  admit_all_cong cs log e f g = cc

  -- From a limiter whose queues stand in the log both services do the same.
  abbrev Agree : List (Call P) → Type 0
  Agree cs =
      (l : IpRateLimiter) (clock : ℕ) (log : List (ℕ × String)) (s : S)
      → Ascending clock (stamps cs)
      → Tracks l clock log
      → ((serve_all v cs (l, s)).0 ≡ (admit_all l.limit l.window cs (log, s)).0)
        × ((serve_all v cs (l, s)).1.1 ≡ (admit_all l.limit l.window cs (log, s)).1.1)

  found-Agree :
      (c : Call P) (r : Route P A S) (cs : List (Call P)) (l : IpRateLimiter) (clock : ℕ)
      (log : List (ℕ × String)) (s : S)
      → Agree cs
      → Ascending clock (stamp c ∷ stamps cs)
      → Tracks l clock log
      → let x = found_limited v c (some r) (l, s) in
        let y = admit_found l.limit l.window c (some r) (log, s) in
        (x.0 ∷ (serve_all v cs x.1).0 ≡ y.0 ∷ (admit_all l.limit l.window cs y.1).0)
        × ((serve_all v cs x.1).1.1 ≡ (admit_all l.limit l.window cs y.1).1.1)
  found-Agree c r cs l clock log s agree h tracks =
      let x = found_limited v c (some r) (l, s) in
      let y = admit_found l.limit l.window c (some r) (log, s) in
      let (answer, state, tracks', lim, win) = found-Same c r l clock log s h.0 tracks in
      let (answers, last) = agree x.1.0 c.now y.1.0 x.1.1 h.1 tracks' in
      let same = admit_all_cong cs y.1.0 lim win state in
      (ap₂ ◌∷◌ answer (answers ∙ ap (λ z. z.0) same), last ∙ ap (λ z. z.1.1) same)

  serve-Agree : (cs : List (Call P)) → Agree cs
  unfolding serve_all serve_limited admit_all admit_by_log stamps
  serve-Agree [] l clock log s h tracks = (refl, refl)
  serve-Agree (c ∷ cs) l clock log s h tracks = elim (Option-cases (mux_route v c)) [
    | inl e ↦
        let (answers, state) = serve-Agree cs l clock log s (rw e at h) tracks in
        rw e (ap (◌∷◌ none) answers, state)
    | inr (r, e) ↦ rw e (found-Agree c r cs l clock log s (serve-Agree cs) (rw e at h) tracks)
  ]

  -- A limited service answers and changes its state as a service does that looks a request's address up in
  -- a log of all the requests that it has accepted, and answers 429 where as many of them as the limit lie
  -- in the window up to the request; the requests that the mux knows come in the order of their times.
  pub serve_all-eq-admit_all :
      (limit window : ℕ) (cs : List (Call P)) (s : S)
      → Ascending 0 (stamps cs)
      → let x = serve_all v cs (new_ip_rate_limiter limit window, s) in
        let y = admit_all limit window cs ([], s) in (x.0 ≡ y.0) × (x.1.1 ≡ y.1.1)
  unfolding new_ip_rate_limiter lookup times
  serve_all-eq-admit_all limit window cs s h =
      serve-Agree cs (new_ip_rate_limiter limit window) 0 [] s h
        λ ip. record { old = []; split = refl; expired = tt; ordered = tt }
