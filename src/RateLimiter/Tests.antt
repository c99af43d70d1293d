-- ===== src/RateLimiter/Tests.antt =====
-- Runs of the limiter, and its theorems at them.
use ziyad_messenger.Base.{ℕ, ◌≡◌, ◌≤◌, refl, String, List, [], ◌∷◌, arith}
use ziyad_messenger.Base.Assoc.{lookup, insert}
use ziyad_messenger.RateLimiter.{new_ip_rate_limiter, allow, serve}
use ziyad_messenger.RateLimiter.Log.{times, count_in}
use ziyad_messenger.RateLimiter.Refinement.{sliding_log, serve-eq-sliding_log}
use ziyad_messenger.RateLimiter.Bound.{serve-IsWithin}

-- Two requests a minute; the third of address "a" comes too soon, the fourth does not.
abbrev calls : List (ℕ × String)
calls = (0, "a") ∷ (10, "a") ∷ (20, "b") ∷ (30, "a") ∷ (61, "a") ∷ []

serve-calls :
    serve (new_ip_rate_limiter 2 60) calls ≡ (0, "a") ∷ (10, "a") ∷ (20, "b") ∷ (61, "a") ∷ []
unfolding serve allow lookup insert new_ip_rate_limiter
serve-calls = refl

serve-eq-sliding_log_example : serve (new_ip_rate_limiter 2 60) calls ≡ sliding_log 2 60 [] calls
serve-eq-sliding_log_example = serve-eq-sliding_log 2 60 calls (omega arith)

serve-IsWithin_example : count_in 60 0 (times "a" (serve (new_ip_rate_limiter 2 60) calls)) ≤ 2
serve-IsWithin_example = serve-IsWithin 2 60 calls "a" 0 (omega arith)
