-- ===== src/Domain/Error.antt =====
-- The contract errors of src/domain/error.rs.
use pulse.Prelude.{ℕ, String, ◌<>◌, decimal}

-- The fields of the first two are `found`, `min_supported`, `max_supported`; those of
-- `invalid_attempt` are `attempt` and `max_retries`.
pub data ContractError : Type 0 where
  unsupported_version : ℕ → ℕ → ℕ → ContractError
  future_version : ℕ → ℕ → ContractError
  missing_field : String → ContractError
  invalid_load : String → ContractError
  invalid_slice : String → ContractError
  invalid_attempt : ℕ → ℕ → ContractError
  invalid_result : String → ContractError
  safety_limit : String → ContractError
  malformed : String → ContractError

-- Display
unfoldable pub contract_message : ContractError → String
contract_message (unsupported_version found low high) =
    "unsupported contract version "
    <> decimal found
    <> "; supported range is "
    <> decimal low
    <> "..="
    <> decimal high
contract_message (future_version found high) =
    "future contract version " <> decimal found <> "; maximum supported is " <> decimal high
contract_message (missing_field field) = "required field '" <> field <> "' is empty"
contract_message (invalid_load message) = "invalid load configuration: " <> message
contract_message (invalid_slice message) = "invalid slice metadata: " <> message
contract_message (invalid_attempt attempt max_retries) =
    "invalid attempt " <> decimal attempt <> "; maximum retry attempt is " <> decimal max_retries
contract_message (invalid_result message) = "invalid result: " <> message
contract_message (safety_limit message) = "safety limit exceeded: " <> message
contract_message (malformed message) = "malformed contract: " <> message
