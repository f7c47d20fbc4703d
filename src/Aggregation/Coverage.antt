-- ===== src/Aggregation/Coverage.antt =====
-- The slices that a summary reports as missing, against the set of received slices.
use pulse.Prelude.{
  ℕ, zero, suc, ◌+◌, ◌≤◌, ◌<◌, List, [], ◌∷◌, ◌≡◌, ◌↔◌, inl, inr, refl, true, false, arith, All,
  Distinct, has, length, ◌==◌, if◌then◌else◌, Bool-cases,
}
use pulse.Aggregation.Summary.{missing_from}

-- How many of the `n` numbers from `from` on are received.
count_from : ℕ → ℕ → List ℕ → ℕ
count_from zero from xs = 0
count_from (suc n) from xs = (if has from xs then 1 else 0) + count_from n (suc from) xs

length-missing :
    (n from : ℕ) (xs : List ℕ) → length (missing_from n from xs) + count_from n from xs ≡ n
unfolding missing_from count_from
length-missing zero from xs = refl
length-missing (suc n) from xs = ground (arith, length-missing n (suc from) xs)

count_from-above :
    (n from x : ℕ) (xs : List ℕ) → x < from → count_from n from (x ∷ xs) ≡ count_from n from xs
unfolding count_from
count_from-above zero from x xs h = refl
count_from-above (suc n) from x xs h = ground (arith, count_from-above n (suc from) x xs)

-- A new number in the range counts once.
count_from-cons :
    (n from x : ℕ) (xs : List ℕ)
    → has x xs ≡ false
    → from ≤ x
    → x < from + n
    → count_from n from (x ∷ xs) ≡ suc (count_from n from xs)
unfolding count_from
count_from-cons zero from x xs d l h = absurd (omega arith)
count_from-cons (suc n) from x xs d l h = elim (Bool-cases (x == from)) [
  | inl same ↦ ground (arith, count_from-above n (suc from) x xs)
  | inr other ↦ ground (arith, count_from-cons n (suc from) x xs)
]

count_from-nil : (n from : ℕ) → count_from n from [] ≡ 0
unfolding count_from
count_from-nil zero from = refl
count_from-nil (suc n) from = ground (arith, count_from-nil n (suc from))

-- Distinct numbers below `n` are counted by their length.
count_from-length :
    (n : ℕ) (xs : List ℕ) → Distinct xs → All (λ x. x < n) xs → count_from n 0 xs ≡ length xs
count_from-length n [] d b = count_from-nil n 0
count_from-length n (x ∷ xs) d b =
    omega (arith, count_from-cons n 0 x xs d.0, count_from-length n xs d.1 b.1, b.0)

-- Of distinct slices below `n`, received and missing ones are `n` together.
pub length-missing_from :
    (n : ℕ) (xs : List ℕ)
    → Distinct xs
    → All (λ x. x < n) xs
    → length (missing_from n 0 xs) + length xs ≡ n
length-missing_from n xs d b = omega (arith, length-missing n 0 xs, count_from-length n xs d b)

missing_from_sound :
    (n from i : ℕ) (xs : List ℕ)
    → has i (missing_from n from xs) ≡ true
    → (from ≤ i) × (i < from + n) × (has i xs ≡ false)
unfolding missing_from
missing_from_sound zero from i xs h = absurd (ground arith)
missing_from_sound (suc n) from i xs h = ground (arith, missing_from_sound n (suc from) i xs)

missing_from_complete :
    (n from i : ℕ) (xs : List ℕ)
    → from ≤ i
    → i < from + n
    → has i xs ≡ false
    → has i (missing_from n from xs) ≡ true
unfolding missing_from
missing_from_complete zero from i xs l u h = absurd (omega arith)
missing_from_complete (suc n) from i xs l u h = elim (Bool-cases (from == i)) [
  | inl same ↦ ground arith
  | inr other ↦ ground (arith, missing_from_complete n (suc from) i xs)
]

-- A slice is reported as missing exactly if it is in the range and was not received.
pub has-missing_from :
    (n i : ℕ) (xs : List ℕ) → (has i (missing_from n 0 xs) ≡ true) ↔ ((i < n) × (has i xs ≡ false))
has-missing_from n i xs = (
  λ h. let m = missing_from_sound n 0 i xs h in (omega (arith, m.1), m.2),
  λ m. missing_from_complete n 0 i xs (omega arith) (omega (arith, m.0)) m.1,
)
