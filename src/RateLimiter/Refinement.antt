-- ===== src/RateLimiter/Refinement.antt =====
-- The limiter against a specification that keeps every accepted request.
use mathlib.Core.List.{append-nil}
use ziyad_messenger.Base.{
  ℕ, ◌≤◌, ◌≡◌, refl, ◌++◌, String, Bool, true, false, List, [], ◌∷◌, arith, ltb, if◌then◌else◌,
  ◌==◌, eq_iff, Bool-cases, inl, inr,
}
use ziyad_messenger.Base.Assoc.{get_or, lookup, insert, lookup-insert}
use ziyad_messenger.RateLimiter.{IpRateLimiter, new_ip_rate_limiter, drop_before, allow, serve}
use ziyad_messenger.RateLimiter.Log.{Ascending, times, count_recent}
use ziyad_messenger.RateLimiter.Window.{
  IsTail, IsTail-later, IsTail-drop, IsTail-push, IsTail-count_recent,
}

-- Accept when fewer than `limit` accepted requests of the address lie in the last window.
unfoldable pub sliding_log : ℕ → ℕ → List (ℕ × String) → List (ℕ × String) → List (ℕ × String)
sliding_log limit window log [] = []
sliding_log limit window log ((now, ip) ∷ calls) =
    let accepted = sliding_log limit window (log ++ (now, ip) ∷ []) calls in
    let refused = sliding_log limit window log calls in
    if ltb (count_recent window now (times ip log)) limit then (now, ip) ∷ accepted else refused

times-append :
    (ip : String) (xs ys : List (ℕ × String)) → times ip (xs ++ ys) ≡ times ip xs ++ times ip ys
unfolding times
times-append ip [] ys = refl
times-append ip ((t, i) ∷ xs) ys = ground (arith, times-append ip xs ys)

-- The limiter's queues are the tails of the log, for every address.
abbrev pub Tracks : IpRateLimiter → ℕ → List (ℕ × String) → Type 0
Tracks l clock log = (ip : String) → IsTail l.window clock (times ip log) (get_or ip [] l.hits)

-- The log after one call.
abbrev pub record_call : Bool → ℕ → String → List (ℕ × String) → List (ℕ × String)
record_call accepted now ip log = if accepted then log ++ (now, ip) ∷ [] else log

allow_decision :
    (l : IpRateLimiter) (now : ℕ) (ip : String) (log : List (ℕ × String))
    → IsTail l.window now (times ip log) (get_or ip [] l.hits)
    → (allow l now ip).0 ≡ ltb (count_recent l.window now (times ip log)) l.limit
unfolding allow
allow_decision l now ip log i = ground (arith, IsTail-count_recent l.window i)

pub allow_fixed :
    (l : IpRateLimiter) (now : ℕ) (ip : String)
    → ((allow l now ip).1.limit ≡ l.limit) × ((allow l now ip).1.window ≡ l.window)
unfolding allow
allow_fixed l now ip = ground arith

get_or-insert :
    (k j : String) (v d : List ℕ) (m : List (String × List ℕ))
    → get_or j d (insert k v m) ≡ (if k == j then v else get_or j d m)
get_or-insert k j v d m = ground (arith, lookup-insert k j v m)

pub times_concat :
    (ip : String) (now : ℕ) (i : String) (log : List (ℕ × String))
    → times ip (log ++ (now, i) ∷ []) ≡ (if i == ip then times ip log ++ now ∷ [] else times ip log)
unfolding times
times_concat ip now i log = rw times-append (ground (arith, append-nil (times ip log)))

-- What one call does to the queue of the address `j`.
allow_queue :
    (l : IpRateLimiter) (now : ℕ) (ip j : String)
    → get_or j [] (allow l now ip).1.hits ≡ (
        if ip == j
        then (let list = drop_before l.window now (get_or j [] l.hits) in
            if (allow l now ip).0 then list ++ now ∷ [] else list)
        else get_or j [] l.hits)
unfolding allow
allow_queue l now ip j = ground (
  arith,
  eq_iff ip j,
  get_or-insert ip j (drop_before l.window now (get_or ip [] l.hits)) [] l.hits,
  get_or-insert ip j (drop_before l.window now (get_or ip [] l.hits) ++ now ∷ []) [] l.hits,
)

queue-IsTail :
    (w now : ℕ) (ip j : String) (accepted : Bool) (log : List (ℕ × String)) (hits : List ℕ)
    → IsTail w now (times j log) hits
    → IsTail w now (times j (record_call accepted now ip log)) (
        if ip == j
        then (let list = drop_before w now hits in if accepted then list ++ now ∷ [] else list)
        else hits)
queue-IsTail w now ip j false log hits i = elim (Bool-cases (ip == j)) [
  | inl e ↦ rw e (IsTail-drop w i)
  | inr e ↦ rw e i
]
queue-IsTail w now ip j true log hits i =
    rw (times_concat j now ip log) (elim (Bool-cases (ip == j)) [
      | inl e ↦ rw e (IsTail-push w (IsTail-drop w i))
      | inr e ↦ rw e i
    ])

module _ (l : IpRateLimiter) (clock now : ℕ) (ip : String) (log : List (ℕ × String)) where
  pub allow-Tracks :
      clock ≤ now
      → Tracks l clock log
      → Tracks (allow l now ip).1 now (record_call (allow l now ip).0 now ip log)
  allow-Tracks h tracks j =
      rw ((allow_fixed l now ip).1, allow_queue l now ip j)
        (queue-IsTail l.window now ip j (allow l now ip).0 log (get_or j [] l.hits)
          (IsTail-later l.window h (tracks j)))

  pub allow_lem :
      clock ≤ now
      → Tracks l clock log
      → (allow l now ip).0 ≡ ltb (count_recent l.window now (times ip log)) l.limit
  allow_lem h tracks = allow_decision l now ip log (IsTail-later l.window h (tracks ip))

serve-sliding_log :
    (l : IpRateLimiter) (clock : ℕ) (log calls : List (ℕ × String))
    → Ascending clock calls
    → Tracks l clock log
    → serve l calls ≡ sliding_log l.limit l.window log calls
unfolding serve sliding_log
serve-sliding_log l clock log [] h tracks = refl
serve-sliding_log l clock log ((now, ip) ∷ calls) (h, later) tracks =
    let l' = (allow l now ip).1 in
    let next = allow-Tracks l clock now ip log h tracks in
    let fixed = allow_fixed l now ip in
    let decision = allow_lem l clock now ip log h tracks in
    let ih =
      serve-sliding_log l' now (record_call (allow l now ip).0 now ip log) calls later next in
    elim (Bool-cases (allow l now ip).0) [
      | inl e ↦ ground (arith, ih, fixed, decision)
      | inr e ↦ ground (arith, ih, fixed, decision)
    ]

-- Served in the order of their times, the calls that the limiter accepts are those that a log of all
-- accepted requests accepts: each with fewer than `limit` of its address in the window up to it.
pub serve-eq-sliding_log :
    (limit window : ℕ) (calls : List (ℕ × String))
    → Ascending 0 calls
    → serve (new_ip_rate_limiter limit window) calls ≡ sliding_log limit window [] calls
unfolding new_ip_rate_limiter lookup times
serve-eq-sliding_log limit window calls h =
    serve-sliding_log (new_ip_rate_limiter limit window) 0 [] calls h
      λ ip. record { old = []; split = refl; expired = tt; ordered = tt }
