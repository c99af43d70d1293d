-- ===== src/RateLimiter/Log.antt =====
-- The words of the limiter's specification, and what one round does to the times of one address.
use ziyad_messenger.Base.{
  ℕ, ◌+◌, ◌≤◌, ◌<◌, ◌≡◌, refl, ◌++◌, String, not, ◌&&◌, List, [], ◌∷◌, arith, ltb, leb, length,
  select, All, if◌then◌else◌, ◌==◌, Bool-cases, inl, inr,
}
use ziyad_messenger.RateLimiter.{drop_before}

-- Calls in the order of their times, none before `clock`.
abbrev pub Ascending : ℕ → List (ℕ × String) → Type 0
Ascending clock [] = Unit {0}
Ascending clock ((t, ip) ∷ calls) = (clock ≤ t) × Ascending t calls

-- The times of one address in a log.
unfoldable pub times : String → List (ℕ × String) → List ℕ
times ip [] = []
times ip ((t, i) ∷ log) = if i == ip then t ∷ times ip log else times ip log

-- How many times lie between `a` and `a + window`, both ends counted.
unfoldable pub count_in : ℕ → ℕ → List ℕ → ℕ
count_in window a ts = length (select (λ t. leb a t && leb t (a + window)) ts)

-- How many times are at most `window` before `now`.
unfoldable pub count_recent : ℕ → ℕ → List ℕ → ℕ
count_recent window now ts = length (select (λ t. not (ltb (t + window) now)) ts)

abbrev pub Expired : ℕ → ℕ → List ℕ → Type 0
Expired window now = All (λ t. t + window < now)

-- Times in their order, none before `low` and none after `high`.
abbrev pub Between : ℕ → ℕ → List ℕ → Type 0
Between low high [] = Unit {0}
Between low high (t ∷ ts) = (low ≤ t) × (t ≤ high) × Between t high ts

pub Expired-mono :
    (window now later : ℕ) (ts : List ℕ)
    → now ≤ later
    → Expired window now ts
    → Expired window later ts
Expired-mono window now later [] h e = tt
Expired-mono window now later (t ∷ ts) h e = (omega arith, Expired-mono window now later ts h e.1)

pub Between-mono :
    (low high higher : ℕ) (ts : List ℕ)
    → high ≤ higher
    → Between low high ts
    → Between low higher ts
Between-mono low high higher [] h b = tt
Between-mono low high higher (t ∷ ts) h b = (b.0, omega arith, Between-mono t high higher ts h b.2)

pub Between-concat :
    (low high : ℕ) (ts : List ℕ)
    → low ≤ high
    → Between low high ts
    → Between low high (ts ++ high ∷ [])
Between-concat low high [] h b = (h, omega arith, tt)
Between-concat low high (t ∷ ts) h b = (b.0, b.1, Between-concat t high ts b.1 b.2)

-- The loop drops expired times only.
pub drop_before_split :
    (window now : ℕ) (ts : List ℕ)
    → (old : List ℕ) × (ts ≡ old ++ drop_before window now ts) × Expired window now old
unfolding drop_before
drop_before_split window now [] = ([], refl, tt)
drop_before_split window now (t ∷ ts) = elim (Bool-cases (ltb (t + window) now)) [
  | inl e ↦
      let (old, split, expired) = drop_before_split window now ts in
      (t ∷ old, rw (e, drop_before) (ground (arith, split)), (ground arith, expired))
  | inr e ↦ ([], rw (e, drop_before), tt)
]

pub Between-weaken :
    (low lower high : ℕ) (ts : List ℕ) → lower ≤ low → Between low high ts → Between lower high ts
Between-weaken low lower high [] h b = tt
Between-weaken low lower high (t ∷ ts) h b = (omega arith, b.1, b.2)

pub drop_before-Between :
    (window now low high : ℕ) (ts : List ℕ)
    → Between low high ts
    → Between low high (drop_before window now ts)
unfolding drop_before
drop_before-Between window now low high [] b = tt
drop_before-Between window now low high (t ∷ ts) b =
    ground (arith, drop_before-Between window now low high ts, Between-weaken t low high ts b.0 b.2)
