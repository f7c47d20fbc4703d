-- ===== src/Coordination/Dispatch/Slices.antt =====
-- The acknowledgements of a window, as the scripts of `RedisDueStateStore` in
-- src/infrastructure/redis/mod.rs count and list them.
use pulse.Prelude.{
  ℕ, zero, suc, ◌+◌, ◌≤◌, ◌<◌, String, Bool, true, not, ◌≡◌, refl, arith, eq_refl, length, has,
  Option, none, some, ok, leb, ◌==◌, ◌&&◌, ◌⊎◌, inl, if◌then◌else◌,
}
use pulse.Coordination.Redis.{ack, num, Redis, RedisLaws}
use pulse.Coordination.Dispatch.Store.{
  missing_in, acked_in, acked, indexes, parse_after, parse_missing_slices,
}

-- The indexes that a script lists pass the client's check.
abbrev below : ℕ → Option ℕ → Bool
below i none = true
below i (some p) = not (leb i p)

module _ {S : Type 0} (r : Redis S) where
  parse_after-missing_in :
      (operation : String) (total : ℕ) (k : String) (s : S) (i n : ℕ) (previous : Option ℕ)
      → i + n ≤ total
      → below i previous ≡ true
      → parse_after operation total previous (missing_in r k s i n) ≡ ok (missing_in r k s i n)
  unfolding parse_after missing_in
  parse_after-missing_in operation total k s i zero previous l b = refl
  parse_after-missing_in operation total k s i (suc n) none l b = ground (
    arith,
    parse_after-missing_in operation total k s (suc i) n none (omega (arith, l)) refl,
    parse_after-missing_in operation total k s (suc i) n (some i) (omega (arith, l)) (ground arith),
  )
  parse_after-missing_in operation total k s i (suc n) (some p) l b = ground (
    arith,
    parse_after-missing_in operation total k s (suc i) n (some p) (omega (arith, l)) (ground arith),
    parse_after-missing_in operation total k s (suc i) n (some i) (omega (arith, l)) (ground arith),
  )

  pub parse_missing_slices-missing_in :
      (operation : String) (total : ℕ) (k : String) (s : S)
      → parse_missing_slices operation (missing_in r k s 0 total) total
        ≡ ok (missing_in r k s 0 total)
  unfolding parse_missing_slices
  parse_missing_slices-missing_in operation total k s =
      parse_after-missing_in operation total k s 0 total none (omega arith) refl

  -- The list and the count make up the window.
  pub length-missing_in :
      (k : String) (s : S) (i n : ℕ) → length (missing_in r k s i n) + acked_in r k s i n ≡ n
  unfolding missing_in acked_in
  length-missing_in k s i zero = refl
  length-missing_in k s i (suc n) = ground (arith, length-missing_in k s (suc i) n)

  -- The list holds the indexes without an acknowledgement.
  pub has-missing_in :
      (k : String) (s : S) (i n j : ℕ)
      → has j (missing_in r k s i n) ≡ (leb i j && not (leb (i + n) j) && not (acked r k j s))
  unfolding missing_in
  has-missing_in k s i zero j = ground arith
  has-missing_in k s i (suc n) j = ground (arith, has-missing_in k s (suc i) n j)

  -- Nothing acknowledged leaves every index.
  pub missing_in-none :
      (k : String) (s : S) (i n : ℕ)
      → ((j : ℕ) → r.hget k (ack j) s ≡ none)
      → (missing_in r k s i n ≡ indexes i n) × (acked_in r k s i n ≡ 0)
  unfolding missing_in acked_in
  missing_in-none k s i zero h = (refl, refl)
  missing_in-none k s i (suc n) h =
      let p = missing_in-none k s (suc i) n h in
      (ground (arith, h i, p.0), ground (arith, h i, p.1))

  -- The count and the list read the acknowledgements only.
  pub acked_in-same :
      (k : String) (s t : S) (i n : ℕ)
      → ((j : ℕ) → r.hget k (ack j) t ≡ r.hget k (ack j) s)
      → acked_in r k t i n ≡ acked_in r k s i n
  unfolding acked_in
  acked_in-same k s t i zero h = refl
  acked_in-same k s t i (suc n) h = ground (arith, h i, acked_in-same k s t (suc i) n h)

module _ {S : Type 0} (r : Redis S) (laws : RedisLaws r) where
  open laws use {hget_hset, hget_hdel}

  pub hget-ack :
      (k : String) (j i : ℕ) (s : S)
      → r.hget k (ack i) (r.hset k (ack j) (num 1) s)
        ≡ (if j == i then some (num 1) else r.hget k (ack i) s)
  hget-ack k j i s = simp (hget_hset, eq_refl)

  acked_in-outside :
      (k : String) (j : ℕ) (s : S) (i n : ℕ)
      → (j < i) ⊎ (i + n ≤ j)
      → acked_in r k (r.hset k (ack j) (num 1) s) i n ≡ acked_in r k s i n
  unfolding acked_in
  acked_in-outside k j s i zero l = refl
  acked_in-outside k j s i (suc n) l =
      ground (arith, hget-ack k j i s, acked_in-outside k j s (suc i) n (ground arith))

  -- A first acknowledgement adds one.
  pub acked_in-ack :
      (k : String) (j : ℕ) (s : S) (i n : ℕ)
      → i ≤ j
      → j < i + n
      → r.hget k (ack j) s ≡ none
      → acked_in r k (r.hset k (ack j) (num 1) s) i n ≡ suc (acked_in r k s i n)
  unfolding acked_in
  acked_in-ack k j s i zero l u h = ground arith
  acked_in-ack k j s i (suc n) l u h = ground (
    arith,
    hget-ack k j i s,
    h,
    λ (p : i < j). acked_in-ack k j s (suc i) n (omega (arith, p)) (omega (arith, u)) h,
    λ (p : i ≡ j). acked_in-outside k j s (suc i) n (inl (omega (arith, p))),
  )
