-- ===== src/RateLimiter.antt =====
-- `ipRateLimiter`, which backend/services/{auth,audit,cluster,filetransfer}/main.go declare alike:
-- the times of the accepted requests of each address, oldest first. A time is a number of
-- nanoseconds, read by the caller. `list[i].Before(now - window)` is written without subtraction.
pub mod Log
pub mod Window
pub mod Refinement
pub mod Bound
mod Tests
use ziyad_messenger.Base.{
  ℕ, ◌+◌, ◌++◌, String, Bool, true, false, List, [], ◌∷◌, ltb, leb, length, if◌then◌else◌,
}
use ziyad_messenger.Base.Assoc.{get_or, insert}

pub record IpRateLimiter : Type 0 where
  pub limit : ℕ
  pub window : ℕ
  pub hits : List (String × List ℕ)

unfoldable pub new_ip_rate_limiter : ℕ → ℕ → IpRateLimiter
new_ip_rate_limiter limit window = record { limit = limit; window = window; hits = [] }

-- The loop of `Allow` and the slice behind it.
unfoldable pub drop_before : ℕ → ℕ → List ℕ → List ℕ
drop_before window now [] = []
drop_before window now (t ∷ ts) = if ltb (t + window) now then drop_before window now ts else t ∷ ts

unfoldable pub allow : IpRateLimiter → ℕ → String → Bool × IpRateLimiter
unfolding drop_before
allow l now ip =
    let list = drop_before l.window now (get_or ip [] l.hits) in
    if leb l.limit (length list)
    then (false, record l { hits = insert ip list l.hits })
    else (true, record l { hits = insert ip (list ++ now ∷ []) l.hits })

-- The calls that are accepted when the limiter serves a sequence of (time, address).
unfoldable pub serve : IpRateLimiter → List (ℕ × String) → List (ℕ × String)
serve l [] = []
serve l ((now, ip) ∷ calls) =
    let rest = serve (allow l now ip).1 calls in
    if (allow l now ip).0 then (now, ip) ∷ rest else rest
