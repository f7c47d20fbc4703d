-- ===== src/Domain/Checks.antt =====
-- The checks that the messages of src/domain/contracts.rs share.
use pulse.Prelude.{
  ℕ, String, List, [], ◌∷◌, ltb, leb, ◌==◌, ◌<>◌, decimal, byte_len, is_blank, Result, ok, ◌>>◌,
  fail_if,
}
use pulse.Domain.Error.{
  ContractError, unsupported_version, future_version, missing_field, invalid_slice, malformed,
}
use pulse.Domain.Contracts.{
  current_contract_version, min_supported_contract_version, max_contract_id_bytes,
  max_contract_slices, JobSlice,
}

-- Result<(), ContractError>
abbrev pub Check : Type 0
Check = Result ContractError (Unit {0})

unfoldable pub validate_contract_version : ℕ → Check
validate_contract_version version = do
  fail_if (ltb version min_supported_contract_version)
      (unsupported_version version min_supported_contract_version current_contract_version)
  fail_if (ltb current_contract_version version) (future_version version current_contract_version)

unfoldable pub validate_slice : JobSlice → Check
validate_slice slice = do
  fail_if (slice.total == 0) (invalid_slice "slice total must be greater than zero")
  fail_if (ltb max_contract_slices slice.total) (
      invalid_slice (
        "slice total "
        <> decimal slice.total
        <> " exceeds maximum "
        <> decimal max_contract_slices))
  fail_if (leb slice.total slice.index) (
      invalid_slice (
        "slice index "
        <> decimal slice.index
        <> " must be less than total "
        <> decimal slice.total))

unfoldable pub require_non_empty : String → String → Check
require_non_empty field value = fail_if (is_blank value) (missing_field field)

unfoldable pub validate_identity_lengths : List (String × String) → Check
validate_identity_lengths [] = ok tt
validate_identity_lengths ((field, value) ∷ fields) = do
  fail_if (ltb max_contract_id_bytes (byte_len value))
      (malformed (field <> " exceeds " <> decimal max_contract_id_bytes <> " bytes"))
  validate_identity_lengths fields
