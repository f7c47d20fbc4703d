-- ===== src/Planning/Reasons.antt =====
-- `bounded_failure_reason` of src/application/service.rs keeps within the bound of the contracts.
use Prim.Native.Char.{Char, len_utf8}
use Prim.Native.String.len
use pulse.Prelude.{
  ℕ, zero, suc, ◌-◌, ◌≤◌, String, ◌≡◌, refl, arith, byte_len, inl, inr, ltb, Bool-cases,
  if◌then◌else◌,
}
use text.Mathlib.TextPositions.{len-append}
use pulse.Domain.Contracts.{max_contract_id_bytes}
use pulse.Planning.Text.{floor_boundary, truncate, truncation_marker, bounded_failure_reason}

cut_or_keep :
    (c : Char) (s : String) (n m : ℕ)
    → m ≤ n - len_utf8 c
    → byte_len s ≡ m
    → byte_len (if ltb n (len_utf8 c) then "" else String.◌∷◌ c s) ≤ n
cut_or_keep c s n m l e = elim (Bool-cases (ltb n (len_utf8 c))) [
  | inl short ↦ rw short (omega arith)
  | inr long ↦ rw (long, len.cons c s) (ground (arith, e, l, long))
]

truncate-len : (s : String) (n : ℕ) → byte_len (truncate s n) ≤ n
unfolding truncate
truncate-len String.[] n = omega arith
truncate-len (String.◌∷◌ c s) n =
    cut_or_keep c (truncate s (n - len_utf8 c)) n _ (truncate-len s (n - len_utf8 c)) refl

floor_boundary-le : (s : String) (n : ℕ) → floor_boundary s n ≤ n
unfolding floor_boundary
floor_boundary-le s zero = omega arith
floor_boundary-le s (suc n) = ground (arith, floor_boundary-le s n)

-- The reason of a failed job has at most 1024 bytes, however long the given one is, and one that is
-- short enough is kept.
pub bounded_failure_reason_bounds :
    (reason : String)
    → (byte_len (bounded_failure_reason reason) ≤ max_contract_id_bytes)
      × (byte_len reason ≤ max_contract_id_bytes → bounded_failure_reason reason ≡ reason)
unfolding bounded_failure_reason
bounded_failure_reason_bounds reason =
    let cut = floor_boundary reason 1010 in
    (
      ground (
        arith,
        len-append (truncate reason cut) truncation_marker,
        truncate-len reason cut,
        floor_boundary-le reason 1010,
      ),
      λ h. ground arith,
    )
