-- ===== src/Domain/RunResult/Errors.antt =====
-- Which error breakdowns the loop of `ScenarioRunResult::validate` accepts.
use pulse.Prelude.{
  ℕ, ◌+◌, ◌≤◌, String, List, [], ◌∷◌, map, ◌≡◌, refl, false, arith, byte_len, is_blank, str_eq,
  eq_iff, has_text, All, DistinctTexts, sum, u64_max, ok,
}
use pulse.Domain.Contracts.{ErrorCount}
use pulse.Domain.Checks.{require_non_empty}
use pulse.Domain.RunResult.{sum_errors}

abbrev pub kinds : List ErrorCount → List String
kinds = map λ e. e.kind

abbrev pub counts : List ErrorCount → List ℕ
counts = map λ e. e.count

-- A kind that is given and bounded.
abbrev pub GoodKind : String → Type 0
GoodKind k = (is_blank k ≡ false) × (byte_len k ≤ 256)

-- `k` is not among the texts.
has_text-false :
    (k : String) (ks : List String) → All (λ j. str_eq k j ≡ false) ks → has_text k ks ≡ false
has_text-false k [] h = refl
has_text-false k (j ∷ ks) h = ground (arith, has_text-false k ks, eq_iff k j, eq_iff j k)

has_text-All :
    (k : String) (ks : List String) → has_text k ks ≡ false → All (λ j. str_eq k j ≡ false) ks
has_text-All k [] h = tt
has_text-All k (j ∷ ks) h =
    (ground (arith, eq_iff k j, eq_iff j k), has_text-All k ks (ground arith))

All-head :
    (k : String) (seen ks : List String)
    → All (λ j. has_text j (k ∷ seen) ≡ false) ks
    → All (λ j. str_eq k j ≡ false) ks × All (λ j. has_text j seen ≡ false) ks
All-head k seen [] h = (tt, tt)
All-head k seen (j ∷ ks) h =
    let rest = All-head k seen ks h.1 in ((ground arith, rest.0), (ground arith, rest.1))

All-cons :
    (k : String) (seen ks : List String)
    → All (λ j. str_eq k j ≡ false) ks
    → All (λ j. has_text j seen ≡ false) ks
    → All (λ j. has_text j (k ∷ seen) ≡ false) ks
All-cons k seen [] g h = tt
All-cons k seen (j ∷ ks) g h = (ground arith, All-cons k seen ks g.1 h.1)

-- What the loop asks of the entries that are left.
pub record Accepted (seen : List String) (acc : ℕ) (errors : List ErrorCount) (t : ℕ) : Type 0 where
  pub good : All GoodKind (kinds errors)
  pub distinct : DistinctTexts (kinds errors)
  pub unseen : All (λ j. has_text j seen ≡ false) (kinds errors)
  pub exact : t ≡ acc + sum (counts errors)
  pub fits : t ≤ u64_max

pub sum_errors_sound :
    (seen : List String) (acc : ℕ) (errors : List ErrorCount) (t : ℕ)
    → acc ≤ u64_max
    → sum_errors seen acc errors ≡ ok t
    → Accepted seen acc errors t
unfolding sum_errors require_non_empty
sum_errors_sound seen acc [] t b h = record {
  good = tt;
  distinct = tt;
  unseen = tt;
  exact = ground arith;
  fits = ground arith;
}
sum_errors_sound seen acc (e ∷ es) t b h =
    let rest =
      sum_errors_sound (e.kind ∷ seen) (acc + e.count) es t (ground arith) (ground arith) in
    let heads = All-head e.kind seen (kinds es) rest.unseen in
    record {
      good = ((ground arith, ground arith), rest.good);
      distinct = (has_text-false e.kind (kinds es) heads.0, rest.distinct);
      unseen = (ground arith, heads.1);
      exact = omega (arith, rest.exact);
      fits = rest.fits;
    }

pub sum_errors_complete :
    (seen : List String) (acc : ℕ) (errors : List ErrorCount) (t : ℕ)
    → Accepted seen acc errors t
    → sum_errors seen acc errors ≡ ok t
unfolding sum_errors require_non_empty
sum_errors_complete seen acc [] t a = ground arith
sum_errors_complete seen acc (e ∷ es) t a =
    ground (arith, sum_errors_complete (e.kind ∷ seen) (acc + e.count) es t rest)
  where
    rest : Accepted (e.kind ∷ seen) (acc + e.count) es t
    rest = record {
      good = a.good.1;
      distinct = a.distinct.1;
      unseen =
          All-cons e.kind seen (kinds es) (has_text-All e.kind (kinds es) a.distinct.0) a.unseen.1;
      exact = omega (arith, a.exact);
      fits = a.fits;
    }
