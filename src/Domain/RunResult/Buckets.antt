-- ===== src/Domain/RunResult/Buckets.antt =====
-- Which latency histograms `validate_latency_buckets` accepts.
use pulse.Prelude.{
  ℕ, ◌+◌, ◌≤◌, ◌<◌, List, [], ◌∷◌, map, ◌≡◌, ◌≢◌, Option, none, some, false, arith, All, length,
  sum, u64_max, ok,
}
use pulse.Domain.Contracts.{LatencyBucket}
use pulse.Domain.RunResult.{not_above, count_buckets, validate_latency_buckets}

abbrev pub bounds : List LatencyBucket → List ℕ
bounds = map λ b. b.upper_bound_ms

abbrev pub bucket_counts : List LatencyBucket → List ℕ
bucket_counts = map λ b. b.count

-- Strictly increasing.
abbrev pub Ascending : List ℕ → Type 0
Ascending [] = Unit
Ascending (x ∷ xs) = All (λ y. x < y) xs × Ascending xs

-- What the loop asks of the buckets that are left.
record Accepted (previous : Option ℕ) (acc : ℕ) (buckets : List LatencyBucket) (t : ℕ)
    : Type 0 where
  ascending : Ascending (bounds buckets)
  above : All (λ b. not_above previous b ≡ false) (bounds buckets)
  exact : t ≡ acc + sum (bucket_counts buckets)
  fits : t ≤ u64_max

All-above : (b : ℕ) (xs : List ℕ) → All (λ y. not_above (some b) y ≡ false) xs → All (λ y. b < y) xs
All-above b [] h = tt
All-above b (x ∷ xs) h = (ground arith, All-above b xs h.1)

All-not_above :
    (b : ℕ) (xs : List ℕ) → All (λ y. b < y) xs → All (λ y. not_above (some b) y ≡ false) xs
All-not_above b [] h = tt
All-not_above b (x ∷ xs) h = (ground arith, All-not_above b xs h.1)

All-below :
    (previous : Option ℕ) (b : ℕ) (xs : List ℕ)
    → not_above previous b ≡ false
    → All (λ y. b < y) xs
    → All (λ y. not_above previous y ≡ false) xs
All-below previous b [] p h = tt
All-below previous b (x ∷ xs) p h = (ground arith, All-below previous b xs p h.1)

count_buckets_sound :
    (previous : Option ℕ) (acc : ℕ) (buckets : List LatencyBucket) (t : ℕ)
    → acc ≤ u64_max
    → count_buckets previous acc buckets ≡ ok t
    → Accepted previous acc buckets t
unfolding count_buckets
count_buckets_sound previous acc [] t b h = record {
  ascending = tt;
  above = tt;
  exact = ground arith;
  fits = ground arith;
}
count_buckets_sound previous acc (x ∷ xs) t b h =
    let rest =
      count_buckets_sound (some x.upper_bound_ms) (acc + x.count) xs t (ground arith)
        (ground arith) in
    let higher = All-above x.upper_bound_ms (bounds xs) rest.above in
    record {
      ascending = (higher, rest.ascending);
      above = (ground arith, All-below previous x.upper_bound_ms (bounds xs) (ground arith) higher);
      exact = omega (arith, rest.exact);
      fits = rest.fits;
    }

count_buckets_complete :
    (previous : Option ℕ) (acc : ℕ) (buckets : List LatencyBucket) (t : ℕ)
    → Accepted previous acc buckets t
    → count_buckets previous acc buckets ≡ ok t
unfolding count_buckets
count_buckets_complete previous acc [] t a = ground arith
count_buckets_complete previous acc (x ∷ xs) t a =
    let rest : Accepted (some x.upper_bound_ms) (acc + x.count) xs t = record {
      ascending = a.ascending.1;
      above = All-not_above x.upper_bound_ms (bounds xs) a.ascending.0;
      exact = omega (arith, a.exact);
      fits = a.fits;
    } in
    ground (arith, count_buckets_complete (some x.upper_bound_ms) (acc + x.count) xs t rest)

All-any : (xs : List ℕ) → All (λ b. not_above none b ≡ false) xs
All-any [] = tt
All-any (x ∷ xs) = (ground arith, All-any xs)

-- A histogram that can be merged: at most 128 buckets, strictly increasing bounds, and counts that
-- add up to the observations; or none at all, as in version 1.
pub record ValidHistogram (buckets : List LatencyBucket) (total : ℕ) : Type 0 where
  pub short : length buckets ≤ 128
  pub ascending : Ascending (bounds buckets)
  pub counted : buckets ≢ [] → sum (bucket_counts buckets) ≡ total

pub validate_latency_buckets_sound :
    (buckets : List LatencyBucket) (total : ℕ)
    → validate_latency_buckets buckets total ≡ ok tt
    → ValidHistogram buckets total
unfolding validate_latency_buckets
validate_latency_buckets_sound [] total h = record {
  short = omega arith;
  ascending = tt;
  counted = λ n. absurd (n (ground arith));
}
validate_latency_buckets_sound (x ∷ xs) total h =
    let a = count_buckets_sound none 0 (x ∷ xs) total (omega arith) (ground arith) in
    record { short = ground arith; ascending = a.ascending; counted = λ _. omega (arith, a.exact) }

pub validate_latency_buckets_complete :
    (buckets : List LatencyBucket) (total : ℕ)
    → total ≤ u64_max
    → ValidHistogram buckets total
    → validate_latency_buckets buckets total ≡ ok tt
unfolding validate_latency_buckets
validate_latency_buckets_complete [] total b v = ground arith
validate_latency_buckets_complete (x ∷ xs) total b v =
    let e : sum (bucket_counts (x ∷ xs)) ≡ total = v.counted (λ p. cc p) in
    let a : Accepted none 0 (x ∷ xs) total = record {
      ascending = v.ascending;
      above = All-any (bounds (x ∷ xs));
      exact = omega (arith, e);
      fits = b;
    } in
    ground (arith, count_buckets_complete none 0 (x ∷ xs) total a, v.short)
