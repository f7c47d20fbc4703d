-- ===== src/Prelude/Maps.antt =====
-- A `HashMap` with text keys, as an association list: each key stands once.
use mathlib.Core.Path.{◌≡◌, refl}
use mathlib.Core.Bool.{Bool, true, false, ◌||◌}
use mathlib.Core.Option.{Option, none, some}
use mathlib.Core.List.{List, [], ◌∷◌, map}
use Prim.Native.Nat.{suc, ◌≤◌}
use Prim.Native.String.{String}
use native.Mathlib.Omega.{arith}
use text.Mathlib.TextEquality.{eq_iff}
use pulse.Prelude.Tests.{str_eq, if◌then◌else◌}
use pulse.Prelude.Lists.{length, All, has_text, DistinctTexts}

module _ {V : Type 0} where
  -- HashMap::get
  unfoldable pub lookup : String → List (String × V) → Option V
  lookup k [] = none
  lookup k ((j, v) ∷ m) = if str_eq j k then some v else lookup k m

  -- HashMap::insert
  unfoldable pub put : String → V → List (String × V) → List (String × V)
  put k v [] = (k, v) ∷ []
  put k v ((j, w) ∷ m) = if str_eq j k then (j, v) ∷ m else (j, w) ∷ put k v m

  -- HashMap::remove
  unfoldable pub without : String → List (String × V) → List (String × V)
  without k [] = []
  without k ((j, w) ∷ m) = if str_eq j k then m else (j, w) ∷ without k m

  abbrev pub is_some : Option V → Bool
  is_some none = false
  is_some (some v) = true

  abbrev pub keys_of : List (String × V) → List String
  keys_of = map λ e. e.0

  pub lookup-put :
      (k j : String) (v : V) (m : List (String × V))
      → lookup j (put k v m) ≡ (if str_eq k j then some v else lookup j m)
  unfolding lookup put
  lookup-put k j v [] = refl
  lookup-put k j v ((i, w) ∷ m) =
      ground (arith, eq_iff k j, eq_iff i k, eq_iff i j, lookup-put k j v m)

  -- Writing back what a key holds changes nothing.
  pub put-lookup :
      (k : String) (v : V) (m : List (String × V)) → lookup k m ≡ some v → put k v m ≡ m
  unfolding lookup put
  put-lookup k v [] h = ground arith
  put-lookup k v ((j, w) ∷ m) h = ground (arith, put-lookup k v m)

  pub length-put :
      (k : String) (v : V) (m : List (String × V))
      → length (put k v m) ≡ (if is_some (lookup k m) then length m else suc (length m))
  unfolding lookup put
  length-put k v [] = refl
  length-put k v ((j, w) ∷ m) = ground (arith, length-put k v m)

  pub length-without : (k : String) (m : List (String × V)) → length (without k m) ≤ length m
  unfolding without
  length-without k [] = omega arith
  length-without k ((j, w) ∷ m) = ground (arith, length-without k m)

  -- A predicate of the entries survives a write that meets it.
  pub All-put {ℓ} :
      (P : String × V → Type ℓ) (k : String) (v : V) (m : List (String × V))
      → P (k, v)
      → All P m
      → All P (put k v m)
  unfolding put
  All-put P k v [] p a = (p, tt)
  All-put P k v ((j, w) ∷ m) p a = ground (arith, eq_iff j k, All-put P k v m p)

  pub All-without {ℓ} :
      (P : String × V → Type ℓ) (k : String) (m : List (String × V)) → All P m → All P (without k m)
  unfolding without
  All-without P k [] a = tt
  All-without P k ((j, w) ∷ m) a = ground (arith, All-without P k m)

  pub All-lookup {ℓ} :
      (P : String × V → Type ℓ) (k : String) (v : V) (m : List (String × V))
      → All P m
      → lookup k m ≡ some v
      → P (k, v)
  unfolding lookup
  All-lookup P k v [] a h = absurd (ground arith)
  All-lookup P k v ((j, w) ∷ m) a h = ground (arith, eq_iff j k, All-lookup P k v m)

  has_text-put :
      (i k : String) (v : V) (m : List (String × V))
      → has_text i (keys_of (put k v m)) ≡ (str_eq k i || has_text i (keys_of m))
  unfolding put
  has_text-put i k v [] = refl
  has_text-put i k v ((j, w) ∷ m) =
      ground (arith, eq_iff j k, eq_iff j i, eq_iff k i, has_text-put i k v m)

  pub keys_of-put :
      (k : String) (v : V) (m : List (String × V))
      → DistinctTexts (keys_of m)
      → DistinctTexts (keys_of (put k v m))
  unfolding put
  keys_of-put k v [] d = (refl, tt)
  keys_of-put k v ((j, w) ∷ m) d =
      ground (arith, eq_iff j k, eq_iff k j, keys_of-put k v m d.1, has_text-put j k v m)

  has_text-without :
      (i k : String) (m : List (String × V))
      → has_text i (keys_of m) ≡ false
      → has_text i (keys_of (without k m)) ≡ false
  unfolding without
  has_text-without i k [] h = refl
  has_text-without i k ((j, w) ∷ m) h = ground (arith, has_text-without i k m)

  pub keys_of-without :
      (k : String) (m : List (String × V))
      → DistinctTexts (keys_of m)
      → DistinctTexts (keys_of (without k m))
  unfolding without
  keys_of-without k [] d = tt
  keys_of-without k ((j, w) ∷ m) d = ground (arith, keys_of-without k m d.1, has_text-without j k m)
