-- ===== src/RateLimiter/Bound.antt =====
-- No address gets more than `limit` requests through in any window; and what happens when calls
-- reach the lock out of the order of their times.
use mathlib.Core.List.{append-nil, append_assoc}
use ziyad_messenger.Base.{
  ℕ, ◌+◌, ◌≤◌, ◌<◌, ◌++◌, String, List, [], ◌∷◌, arith, ltb, ◌==◌, eq_iff, eq_refl, Bool-cases, inl,
  inr, ltb→lt,
}
use ziyad_messenger.Base.Assoc.{lookup, insert}
use ziyad_messenger.RateLimiter.{new_ip_rate_limiter, allow, serve}
use ziyad_messenger.RateLimiter.Log.{Ascending, times, count_in, count_recent}
use ziyad_messenger.RateLimiter.Window.{
  count_in-append, count_in-le-count_recent, count_in_one, count_in_later,
}
use ziyad_messenger.RateLimiter.Refinement.{sliding_log, times_concat, serve-eq-sliding_log}

abbrev IsWithin : ℕ → ℕ → List (ℕ × String) → Type 0
IsWithin limit window log = (ip : String) (a : ℕ) → count_in window a (times ip log) ≤ limit

IsWithin-concat :
    (limit window now : ℕ) (ip : String) (log : List (ℕ × String))
    → count_recent window now (times ip log) < limit
    → IsWithin limit window log
    → IsWithin limit window (log ++ (now, ip) ∷ [])
IsWithin-concat limit window now ip log room h j a =
    rw (times_concat j now ip log) (elim (Bool-cases (ip == j)) [
      | inr other ↦ rw other (h j a)
      | inl same ↦ rw same (
          rw (← (eq_iff ip j).0 same, count_in-append window a (times ip log) (now ∷ []))
            (grind (
              arith,
              h ip a,
              count_in-le-count_recent window a now (times ip log),
              count_in_one window a now,
              count_in_later window a now,
            )))
    ])

sliding_log-IsWithin :
    (limit window : ℕ) (log calls : List (ℕ × String))
    → IsWithin limit window log
    → IsWithin limit window (log ++ sliding_log limit window log calls)
unfolding sliding_log
sliding_log-IsWithin limit window log [] h = rw (append-nil log) h
sliding_log-IsWithin limit window log ((now, ip) ∷ calls) h =
    elim (Bool-cases (ltb (count_recent window now (times ip log)) limit)) [
      | inl room ↦
          let next = log ++ (now, ip) ∷ [] in
          let more =
            sliding_log-IsWithin limit window next calls
              (IsWithin-concat limit window now ip log (ltb→lt _ _ room) h) in
          rw room (rw append_assoc at more)
      | inr full ↦ rw full (sliding_log-IsWithin limit window log calls h)
    ]

-- Served in the order of their times, at most `limit` calls of one address are accepted within any
-- window, both of its ends counted.
pub serve-IsWithin :
    (limit window : ℕ) (calls : List (ℕ × String)) (ip : String) (a : ℕ)
    → Ascending 0 calls
    → count_in window a (times ip (serve (new_ip_rate_limiter limit window) calls)) ≤ limit
unfolding count_in times
serve-IsWithin limit window calls ip a h =
    rw (serve-eq-sliding_log limit window calls h)
      (sliding_log-IsWithin limit window [] calls (λ _ _. omega arith) ip a)

-- The services that read the clock before they take the lock can serve calls out of order. Then the
-- bound fails at every window: a call one tick past the window makes the queue forget, and a late
-- call at the window's end gets through as its third.
pub out_of_order_exceeds :
    (window : ℕ) (ip : String)
    → 2
      < count_in window 0 (
          times ip (
            serve
              (new_ip_rate_limiter 2 window)
              ((0, ip) ∷ (0, ip) ∷ (window + 1, ip) ∷ (window, ip) ∷ [])))
unfolding serve allow lookup insert times count_in new_ip_rate_limiter
out_of_order_exceeds window ip = ground (arith, eq_refl ip)
