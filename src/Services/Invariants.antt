-- ===== src/Services/Invariants.antt =====
-- What each handler of a service keeps, the service keeps.
use ziyad_messenger.Base.{List, [], ◌∷◌, Option, none, some, All, Bool-cases, inl, inr, ◌==◌, find}
use ziyad_messenger.RateLimiter.{IpRateLimiter, allow}
use ziyad_messenger.Trace.{Request, client_ip, with_request_trace, with_limited_request_trace}
use ziyad_messenger.Services.{
  Route, Call, Mux, mux_route, found_limited, found_plain, serve_limited, serve_plain,
  serve_plain_all, serve_all,
}

module _ {P A S : Type 0} (Fine : P → Type 0) (I : S → Type 0) where
  -- A handler that keeps `I` where what it reads of the world is fine.
  abbrev pub KeepsRoute : Route P A S → Type 0
  KeepsRoute r = (p : P) (req : Request) (s : S) → Fine p → I s → I (r.handler p req s).1

  abbrev KeepsFound : Option (Route P A S) → Type 0
  KeepsFound none = Unit {0}
  KeepsFound (some r) = KeepsRoute r

  found-Keeps :
      (c : Call P) (rs : List (Route P A S))
      → All KeepsRoute rs
      → KeepsFound (find (λ r. r.pattern == c.request.path) rs)
  found-Keeps c [] h = tt
  found-Keeps c (r ∷ rs) h = elim (Bool-cases (r.pattern == c.request.path)) [
    | inl e ↦ rw e h.0
    | inr e ↦ rw e (found-Keeps c rs h.1)
  ]

  limited-keeps :
      (v : Mux P A S) (c : Call P) (o : Option (Route P A S)) (l : IpRateLimiter) (s : S)
      → KeepsFound o
      → Fine c.payload
      → I s
      → I (found_limited v c o (l, s)).1.1
  unfolding with_limited_request_trace
  limited-keeps v c none l s k f i = i
  limited-keeps v c (some r) l s k f i = elim (Bool-cases (allow l c.now (client_ip c.request)).0) [
    | inl free ↦ rw free (k c.payload _ s f i)
    | inr full ↦ rw full i
  ]

  plain-keeps :
      (v : Mux P A S) (c : Call P) (o : Option (Route P A S)) (s : S)
      → KeepsFound o
      → Fine c.payload
      → I s
      → I (found_plain v c o s).1
  unfolding with_request_trace
  plain-keeps v c none s k f i = i
  plain-keeps v c (some r) s k f i = k c.payload _ s f i

  pub serve_all-keeps :
      (v : Mux P A S) (cs : List (Call P)) (l : IpRateLimiter) (s : S)
      → All KeepsRoute v.routes
      → All (λ c. Fine c.payload) cs
      → I s
      → I (serve_all v cs (l, s)).1.1
  unfolding serve_all serve_limited mux_route
  serve_all-keeps v [] l s k f i = i
  serve_all-keeps v (c ∷ cs) l s k f i =
      serve_all-keeps v cs (serve_limited v c (l, s)).1.0 (serve_limited v c (l, s)).1.1 k f.1
        (limited-keeps v c (mux_route v c) l s (found-Keeps c v.routes k) f.0 i)

  serve_plain-keeps :
      (v : Mux P A S) (c : Call P) (s : S)
      → All KeepsRoute v.routes
      → Fine c.payload
      → I s
      → I (serve_plain v c s).1
  unfolding serve_plain mux_route
  serve_plain-keeps v c s k f i = plain-keeps v c (mux_route v c) s (found-Keeps c v.routes k) f i

  pub serve_plain_all-keeps :
      (v : Mux P A S) (cs : List (Call P)) (s : S)
      → All KeepsRoute v.routes
      → All (λ c. Fine c.payload) cs
      → I s
      → I (serve_plain_all v cs s)
  unfolding serve_plain_all
  serve_plain_all-keeps v [] s k f i = i
  serve_plain_all-keeps v (c ∷ cs) s k f i =
      serve_plain_all-keeps v cs (serve_plain v c s).1 k f.1 (serve_plain-keeps v c s k f.0 i)
