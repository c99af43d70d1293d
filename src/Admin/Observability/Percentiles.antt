-- ===== src/Admin/Observability/Percentiles.antt =====
-- The percentiles of a snapshot.
use ziyad_messenger.Base.{
  ℕ, zero, suc, ◌*◌, ◌≤◌, ◌<◌, true, List, [], ◌∷◌, ◌≡◌, sym, ◌∙◌, arith, ltb, leb, eqb, any,
  length, select, All,
}
use ziyad_messenger.Base.Order.{order_by}
use ziyad_messenger.Base.Order.Laws.{
  InOrder, order_by-InOrder, length-order_by, any-order_by, length-select-order_by,
}
use ziyad_messenger.Admin.Observability.{EndpointCounter, nth, index, percentile, metric_of}

abbrev Sorted : List ℕ → Type 0
Sorted = InOrder (λ n. n)

All-nth : (P : ℕ → Type 0) (i : ℕ) (xs : List ℕ) → All P xs → i < length xs → P (nth i xs)
All-nth P i [] h k = absurd (omega arith)
All-nth P zero (x ∷ xs) h k = h.0
All-nth P (suc i) (x ∷ xs) h k = All-nth P i xs h.1 (omega arith)

nth_mono : (i j : ℕ) (xs : List ℕ) → Sorted xs → i ≤ j → j < length xs → nth i xs ≤ nth j xs
nth_mono i j [] o h k = omega arith
nth_mono zero zero (x ∷ xs) o h k = omega arith
nth_mono zero (suc j) (x ∷ xs) o h k = All-nth (λ y. x ≤ y) j xs o.0 (omega arith)
nth_mono (suc i) zero (x ∷ xs) o h k = omega arith
nth_mono (suc i) (suc j) (x ∷ xs) o h k = nth_mono i j xs o.1 (omega arith) (omega arith)

count_nth :
    (i : ℕ) (xs : List ℕ)
    → Sorted xs
    → i < length xs
    → i < length (select (λ x. leb x (nth i xs)) xs)
count_nth i [] o k = omega arith
count_nth zero (x ∷ xs) o k = ground arith
count_nth (suc i) (x ∷ xs) o k = ground (arith, count_nth i xs o.1, All-nth (λ y. x ≤ y) i xs o.0)

any-nth : (i : ℕ) (xs : List ℕ) → i < length xs → any (eqb (nth i xs)) xs ≡ true
any-nth i [] k = ground arith
any-nth zero (x ∷ xs) k = ground arith
any-nth (suc i) (x ∷ xs) k = ground (arith, any-nth i xs)

-- Where a percentile is read, for either share and any number of samples but none.
record IsPlace (p n i : ℕ) : Type 0 where
  in_range : i < n
  enough : p * n ≤ 100 * suc i

index_95-IsPlace : (n : ℕ) → 0 < n → IsPlace 95 n (index 95 n)
index_95-IsPlace n h = record { in_range = ground arith; enough = ground arith }

index_99-IsPlace : (n : ℕ) → 0 < n → IsPlace 99 n (index 99 n)
index_99-IsPlace n h = record { in_range = ground arith; enough = ground arith }

index_mono : (n : ℕ) → 0 < n → index 95 n ≤ index 99 n
index_mono n h = ground arith

-- The value `v` is a sample, and the share `p` of the samples is not above it.
pub record IsPercentile (samples : List ℕ) (p v : ℕ) : Type 0 where
  pub is_sample : any (eqb v) samples ≡ true
  pub covers : p * length samples ≤ 100 * length (select (λ x. leb x v) samples)

nth-IsPercentile :
    (samples : List ℕ) (p i : ℕ)
    → IsPlace p (length samples) i
    → IsPercentile samples p (nth i (order_by ltb samples))
nth-IsPercentile samples p i h =
    let xs = order_by ltb samples in
    let o : Sorted xs = order_by-InOrder (λ n. n) samples in
    let inside : i < length xs = omega (arith, length-order_by ltb samples, h.in_range) in
    record {
      is_sample = sym (any-order_by ltb (eqb (nth i xs)) samples) ∙ any-nth i xs inside;
      covers = omega (
        arith,
        h.enough,
        count_nth i xs o inside,
        length-select-order_by ltb (λ x. leb x (nth i xs)) samples,
      );
    }

-- An endpoint that was called shows as its 95th and 99th percentile two of its samples; at least 95 and 99 in a
-- hundred of the samples are not above them, and the first is not above the second.
pub metric_of-IsPercentile :
    (c : EndpointCounter)
    → 0 < length c.latency_samples
    → IsPercentile c.latency_samples 95 (metric_of c).p95_latency
      × IsPercentile c.latency_samples 99 (metric_of c).p99_latency
      × ((metric_of c).p95_latency ≤ (metric_of c).p99_latency)
unfolding metric_of percentile
metric_of-IsPercentile c h =
    let samples = c.latency_samples in
    let n = length samples in
    let p₉₉ = index_99-IsPlace n h in
    (
      nth-IsPercentile samples 95 (index 95 n) (index_95-IsPlace n h),
      nth-IsPercentile samples 99 (index 99 n) p₉₉,
      nth_mono (index 95 n) (index 99 n) (order_by ltb samples) (order_by-InOrder (λ n. n) samples)
          (index_mono n h) (omega (arith, length-order_by ltb samples, p₉₉.in_range)),
    )
