-- ===== src/Domain/Rate.antt =====
-- What the program uses of `f64` and of the Debug form of a `Duration`: a type of rates with its
-- tests and conversions, taken as a parameter.
use pulse.Prelude.{ℕ, Bool, String}

pub record RateOps (R : Type 0) : Type 0 where
  pub zero_rate : R
  -- f64::is_finite
  pub is_finite : R → Bool
  -- a <= b, which is false where one of them is NaN
  pub rate_le : R → R → Bool
  -- a > b, which is false where one of them is NaN
  pub rate_gt : R → R → Bool
  -- Display of an f64
  pub show_rate : R → String
  -- Debug of a Duration of so many nanoseconds
  pub show_duration : ℕ → String
