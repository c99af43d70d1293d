-- ===== src/Admin/Observability/Counters.antt =====
-- The counters of an endpoint against the list of its requests.
use ziyad_messenger.Base.{
  ℕ, zero, suc, ◌+◌, ◌-◌, ◌≤◌, ◌<◌, max, String, Bool, true, false, List, [], ◌∷◌, ◌++◌, map, ◌==◌,
  ◌≡◌, refl, sym, ◌∙◌, arith, leb, length, length-append, select, select-append, drop, Bool-cases,
  inl, inr, if◌then◌else◌, eq_iff,
}
use mathlib.Core.List.{append_assoc, append-nil}
use ziyad_messenger.Base.Assoc.{lookup, get_or, lookup-insert}
use ziyad_messenger.Admin.Observability.{
  FloatSum, zero_float, add_latency, EndpointCounter, MetricsStore, max_latency_samples,
  zero_counter, Observed, key, clipped, bump, record_endpoint_metric,
}

module _ {A : Type 0} where
  length-drop : (n : ℕ) (xs : List A) → length (drop n xs) ≡ length xs - n
  length-drop zero xs = omega arith
  length-drop (suc n) [] = omega arith
  length-drop (suc n) (x ∷ xs) = omega (arith, length-drop n xs)

  drop-append : (n : ℕ) (xs ys : List A) → n ≤ length xs → drop n (xs ++ ys) ≡ drop n xs ++ ys
  drop-append zero xs ys h = refl
  drop-append (suc n) [] ys h = ground arith
  drop-append (suc n) (x ∷ xs) ys h = drop-append n xs ys (omega arith)

  drop_one-drop : (n : ℕ) (xs : List A) → drop 1 (drop n xs) ≡ drop (suc n) xs
  drop_one-drop zero xs = refl
  drop_one-drop (suc n) [] = refl
  drop_one-drop (suc n) (x ∷ xs) = drop_one-drop n xs

  -- The last `n` members.
  abbrev pub latest : ℕ → List A → List A
  latest n xs = drop (length xs - n) xs

-- The sum of latencies as floats, from the first on.
abbrev pub total : FloatSum → List ℕ → FloatSum
total sum [] = sum
total sum (n ∷ ns) = total (add_latency sum n) ns

abbrev pub greatest : List ℕ → ℕ
greatest [] = 0
greatest (n ∷ ns) = max n (greatest ns)

abbrev pub latencies : List Observed → List ℕ
latencies os = map (λ (o : Observed). o.latency) os

abbrev pub failed : Observed → Bool
failed o = leb 400 o.status

-- What a counter says of the requests of its endpoint, the first first.
pub record IsSummary (os : List Observed) (c : EndpointCounter) : Type 0 where
  pub count : c.count ≡ length os
  pub error_count : c.error_count ≡ length (select failed os)
  pub total_latency : c.total_latency ≡ total zero_float (latencies os)
  pub max_latency : c.max_latency ≡ greatest (latencies os)
  pub samples : c.latency_samples ≡ latest max_latency_samples (latencies os)

clipped_one : (xs : List ℕ) → length xs ≡ suc max_latency_samples → clipped xs ≡ drop 1 xs
unfolding clipped
clipped_one xs h = rw h refl

clipped_none : (xs : List ℕ) → length xs ≤ max_latency_samples → clipped xs ≡ xs
unfolding clipped
clipped_none xs h = ground arith

clipped-latest :
    (a : ℕ) (xs : List ℕ)
    → clipped (latest max_latency_samples xs ++ a ∷ []) ≡ latest max_latency_samples (xs ++ a ∷ [])
clipped-latest a xs = elim (Bool-cases (leb max_latency_samples (length xs))) [
  | inl e ↦
      let k = length xs - max_latency_samples in
      let moved = drop-append k xs (a ∷ []) (omega arith) in
      let size : length (xs ++ a ∷ []) ≡ length xs + 1 = length-append xs (a ∷ []) in
      let over : length (drop k xs ++ a ∷ []) ≡ suc max_latency_samples =
        omega (arith, length-append (drop k xs) (a ∷ []), length-drop k xs, most e) in
      let less : length (xs ++ a ∷ []) - max_latency_samples ≡ suc k = omega (arith, most e) in
      clipped_one (drop k xs ++ a ∷ []) over
      ∙ rw (sym moved, drop_one-drop k (xs ++ a ∷ []), less) refl
  | inr e ↦
      let none_over : length xs - max_latency_samples ≡ 0 = omega (arith, few e) in
      let size : length (xs ++ a ∷ []) ≡ length xs + 1 = length-append xs (a ∷ []) in
      let still : length (xs ++ a ∷ []) - max_latency_samples ≡ 0 = omega (arith, few e) in
      rw (none_over, still) (clipped_none (xs ++ a ∷ []) (omega (arith, few e)))
]
  where
    most : (e : leb max_latency_samples (length xs) ≡ true) → max_latency_samples ≤ length xs
    most e = ground arith

    few : (e : leb max_latency_samples (length xs) ≡ false) → length xs < max_latency_samples
    few e = ground arith

total-append :
    (sum : FloatSum) (xs : List ℕ) (a : ℕ) → total sum (xs ++ a ∷ []) ≡ add_latency (total sum xs) a
total-append sum [] a = refl
total-append sum (x ∷ xs) a = total-append (add_latency sum x) xs a

greatest-append : (xs : List ℕ) (a : ℕ) → greatest (xs ++ a ∷ []) ≡ max (greatest xs) a
greatest-append [] a = omega arith
greatest-append (x ∷ xs) a = omega (arith, greatest-append xs a)

latencies-append :
    (os : List Observed) (o : Observed) → latencies (os ++ o ∷ []) ≡ latencies os ++ o.latency ∷ []
latencies-append [] o = refl
latencies-append (x ∷ os) o = ground (arith, latencies-append os o)

bump-IsSummary :
    (o : Observed) (os : List Observed) (c : EndpointCounter)
    → IsSummary os c
    → IsSummary (os ++ o ∷ []) (bump o c)
unfolding bump
bump-IsSummary o os c h = record {
  count = omega (arith, h.count, length-append os (o ∷ []));
  error_count = ground (
    arith,
    h.error_count,
    select-append failed os (o ∷ []),
    length-append (select failed os) (select failed (o ∷ [])),
  );
  total_latency =
      rw (latencies-append os o, total-append zero_float (latencies os) o.latency, h.total_latency)
        refl;
  max_latency =
      ground
        (arith, h.max_latency, latencies-append os o, greatest-append (latencies os) o.latency);
  samples = rw (h.samples, latencies-append os o) (clipped-latest o.latency (latencies os));
}

-- The requests of an endpoint.
abbrev pub of_endpoint : String → List Observed → List Observed
of_endpoint k os = select (λ o. key o == k) os

unfoldable pub record_all : List Observed → MetricsStore → MetricsStore
record_all [] store = store
record_all (o ∷ os) store = record_all os (record_endpoint_metric o store)

of_endpoint-append :
    (k : String) (o : Observed) (past : List Observed)
    → of_endpoint k (past ++ o ∷ [])
      ≡ (if key o == k then of_endpoint k past ++ o ∷ [] else of_endpoint k past)
of_endpoint-append k o past =
    ground (arith, select-append (λ x. key x == k) past (o ∷ []), append-nil (of_endpoint k past))

get_or-record_endpoint_metric :
    (k : String) (o : Observed) (store : MetricsStore)
    → get_or k zero_counter (record_endpoint_metric o store)
      ≡ (if key o == k then bump o (get_or k zero_counter store) else get_or k zero_counter store)
unfolding record_endpoint_metric
get_or-record_endpoint_metric k o store = ground (
  arith,
  lookup-insert (key o) k (bump o (get_or (key o) zero_counter store)) store,
  eq_iff (key o) k,
)

record_one :
    (k : String) (o : Observed) (past : List Observed) (store : MetricsStore)
    → IsSummary (of_endpoint k past) (get_or k zero_counter store)
    → IsSummary
        (of_endpoint k (past ++ o ∷ []))
        (get_or k zero_counter (record_endpoint_metric o store))
record_one k o past store h = elim (Bool-cases (key o == k)) [
  | inl e ↦
      rw (of_endpoint-append k o past, get_or-record_endpoint_metric k o store, e)
        (bump-IsSummary o (of_endpoint k past) (get_or k zero_counter store) h)
  | inr e ↦ rw (of_endpoint-append k o past, get_or-record_endpoint_metric k o store, e) h
]

record_more :
    (k : String) (os past : List Observed) (store : MetricsStore)
    → IsSummary (of_endpoint k past) (get_or k zero_counter store)
    → IsSummary (of_endpoint k (past ++ os)) (get_or k zero_counter (record_all os store))
unfolding record_all
record_more k [] past store h = rw (append-nil past) h
record_more k (o ∷ os) past store h = rw (sym (append_assoc past (o ∷ []) os)) (
    record_more k os (past ++ o ∷ []) (record_endpoint_metric o store)
      (record_one k o past store h))

-- After any requests the counter of each endpoint says of the endpoint's requests how many there were, how many
-- failed, the float sum of their latencies from the first on, with its roundings, the greatest of them, and the
-- last 512 in their order.
pub record_all-IsSummary :
    (k : String) (os : List Observed)
    → IsSummary (of_endpoint k os) (get_or k zero_counter (record_all os []))
unfolding lookup
record_all-IsSummary k os = record_more k os [] [] (record {
  count = refl;
  error_count = refl;
  total_latency = refl;
  max_latency = refl;
  samples = refl;
})
