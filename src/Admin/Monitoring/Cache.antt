-- ===== src/Admin/Monitoring/Cache.antt =====
-- The age of what the cache answers.
use ziyad_messenger.Base.{
  ℕ, ◌+◌, ◌<◌, ◌≤◌, List, [], ◌∷◌, Option, some, ◌≡◌, ◌⊎◌, inl, inr, refl, arith, ltb, Bool-cases,
  ltb→lt,
}
use ziyad_messenger.Admin.Monitoring.{
  OverviewResponse, Host, Cached, World, ttl, empty_cache, overview, build_overview,
}

-- What `buildOverview` makes of a world.
abbrev pub built : Host → World → OverviewResponse
built host w = (build_overview host w.now w.tables w.memory_alloc w.faults).0

-- `w` is one of the requests.
pub data IsAmong : World → List World → Type 0 where
  here : {w : World} {ws : List World} → IsAmong w (w ∷ ws)
  there : {w x : World} {ws : List World} → IsAmong w ws → IsAmong w (x ∷ ws)

-- Built for one of the requests, and finished less than five seconds ago.
abbrev pub IsFresh : Host → List World → ℕ → Option OverviewResponse → Type 0
IsFresh host seen now answer =
    (w : World) × IsAmong w seen × (answer ≡ some (built host w)) × (now < w.built_at + ttl)

-- The cache is empty, or was filled for one of the requests and holds for five seconds from then.
abbrev pub IsCache : Host → List World → Cached → Type 0
IsCache host seen c =
    (c.expires_at ≡ 0)
    ⊎ ((w : World) × IsAmong w seen
        × (c.value ≡ some (built host w))
        × (c.expires_at ≡ w.built_at + ttl))

-- A cache that the requests, the latest first, have left.
pub data Reached (host : Host) : List World → Cached → Type 0 where
  start : Reached host [] empty_cache
  ask :
      {ws : List World} {c : Cached} (w : World)
      → Reached host ws c
      → Reached host (w ∷ ws) (overview host w c).1

answered :
    (host : Host) (w : World) (ws : List World) (c : Cached)
    → IsCache host ws c
    → (w.now ≤ w.built_at → IsFresh host (w ∷ ws) w.now (overview host w c).0)
      × IsCache host (w ∷ ws) (overview host w c).1
unfolding overview
answered host w ws c k = elim (Bool-cases (ltb w.now c.expires_at)) [
  | inr e ↦ rw e (λ later. (w, IsAmong.here, refl, omega arith), inr (w, IsAmong.here, refl, refl))
  | inl e ↦ rw e (from_cache k (ltb→lt w.now c.expires_at e))
]
  where
    from_cache :
        (k : IsCache host ws c) (early : w.now < c.expires_at)
        → (w.now ≤ w.built_at → IsFresh host (w ∷ ws) w.now c.value) × IsCache host (w ∷ ws) c
    from_cache (inl h) early = ground arith
    from_cache (inr (x, among, value, expires)) early = (
      λ later. (x, IsAmong.there among, value, omega arith),
      inr (x, IsAmong.there among, value, expires),
    )

Reached-IsCache :
    (host : Host) {ws : List World} {c : Cached} → Reached host ws c → IsCache host ws c
Reached-IsCache host Reached.start = inl refl
Reached-IsCache host (Reached.ask {ws} {c} w r) = (answered host w ws c (Reached-IsCache host r)).1

-- After any requests the next one is answered with an overview built from the tables as one of them or it itself
-- found them, which was finished less than five seconds before. No request's second reading of the clock is before
-- its first.
pub overview-IsFresh :
    (host : Host) (ws : List World) (c : Cached) (w : World)
    → Reached host ws c
    → w.now ≤ w.built_at
    → IsFresh host (w ∷ ws) w.now (overview host w c).0
overview-IsFresh host ws c w r later = (answered host w ws c (Reached-IsCache host r)).0 later
