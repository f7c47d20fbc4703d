-- ===== src/Planning/Text.antt =====
-- The texts that src/application/service.rs builds: bounded reasons, FNV-1a hashes and the
-- fingerprints of plans.
use Prim.Native.Nat.{bit_xor}
use Prim.Native.Char.{code, len_utf8}
use pulse.Prelude.{
  ℕ, zero, suc, ◌+◌, ◌-◌, ◌*◌, ◌/◌, ◌%◌, String, List, [], ◌∷◌, ◌++◌, Bool, ltb, leb, ◌==◌, ◌<>◌,
  decimal, byte_len, if◌then◌else◌, Duration, as_millis, Option, none, some,
}
use pulse.Domain.Contracts.{
  current_contract_version, max_contract_id_bytes, PartitionKeyStrategy, by_scenario_id,
  by_execution_key,
}
use pulse.Domain.Scenario.{RepeatPolicy, once, every, Scenario}
use pulse.Planning.Slices.{PlanOps}

-- str::is_char_boundary
unfoldable pub is_char_boundary : String → ℕ → Bool
is_char_boundary String.[] n = n == 0
is_char_boundary (String.◌∷◌ c s) n =
    let rest = is_char_boundary s (n - len_utf8 c) in if ltb n (len_utf8 c) then n == 0 else rest

-- `while boundary > 0 && !reason.is_char_boundary(boundary) { boundary -= 1; }`
unfoldable pub floor_boundary : String → ℕ → ℕ
floor_boundary reason zero = zero
floor_boundary reason (suc n) =
    let rest = floor_boundary reason n in if is_char_boundary reason (suc n) then suc n else rest

-- String::truncate, at a boundary of a character.
unfoldable pub truncate : String → ℕ → String
truncate String.[] n = ""
truncate (String.◌∷◌ c s) n =
    let rest = truncate s (n - len_utf8 c) in if ltb n (len_utf8 c) then "" else String.◌∷◌ c rest

abbrev pub truncation_marker : String
truncation_marker = "...[truncated]"

unfoldable pub bounded_failure_reason : String → String
bounded_failure_reason reason =
    if leb (byte_len reason) max_contract_id_bytes
    then reason
    else truncate reason
        (floor_boundary reason (max_contract_id_bytes - byte_len truncation_marker))
      <> truncation_marker

-- The UTF-8 of a character's number.
unfoldable pub utf8 : ℕ → List ℕ
utf8 n =
    if ltb n 128
    then n ∷ []
    else if ltb n 2048
    then (192 + n / 64) ∷ (128 + n % 64) ∷ []
    else if ltb n 65536
    then (224 + n / 4096) ∷ (128 + n / 64 % 64) ∷ (128 + n % 64) ∷ []
    else (240 + n / 262144) ∷ (128 + n / 4096 % 64) ∷ (128 + n / 64 % 64) ∷ (128 + n % 64) ∷ []

-- str::as_bytes
unfoldable pub as_bytes : String → List ℕ
as_bytes String.[] = []
as_bytes (String.◌∷◌ c s) = utf8 (code c) ++ as_bytes s

abbrev pub fnv_offset : ℕ
fnv_offset = 0x6c62272e07bb014262b821756295c58d

abbrev pub fnv_prime : ℕ
fnv_prime = 0x0000000001000000000000000000013b

unfoldable pub fnv_fold : ℕ → List ℕ → ℕ
fnv_fold hash [] = hash
fnv_fold hash (byte ∷ bytes) =
    fnv_fold (bit_xor hash byte * fnv_prime % 340282366920938463463374607431768211456) bytes

unfoldable pub fnv1a_128 : List ℕ → ℕ
fnv1a_128 bytes = fnv_fold fnv_offset bytes

unfoldable pub hex_digit : ℕ → String
hex_digit d =
    if ltb d 10
    then decimal d
    else if d == 10
    then "a"
    else if d == 11
    then "b"
    else if d == 12
    then "c"
    else if d == 13
    then "d"
    else if d == 14
    then "e"
    else "f"

-- `{:0width$x}` of a number below 16^width.
unfoldable pub hex : ℕ → ℕ → String
hex zero n = ""
hex (suc width) n = hex width (n / 16) <> hex_digit (n % 16)

abbrev pub fingerprint : List ℕ → String
fingerprint bytes = "fnv128:" <> hex 32 (fnv1a_128 bytes)

-- `{:?}` of the strategy
abbrev pub strategy_debug : PartitionKeyStrategy → String
strategy_debug by_scenario_id = "ScenarioId"
strategy_debug by_execution_key = "ExecutionKey"

abbrev pub repeat_text : RepeatPolicy → String
repeat_text once = "once"
repeat_text (every interval) = "every:" <> decimal (as_millis interval)

abbrev pub millis_or_none : Option Duration → String
millis_or_none none = "none"
millis_or_none (some d) = decimal (as_millis d)

abbrev pub descriptor_text : Option (List ℕ) → String
descriptor_text none = "none"
descriptor_text (some bytes) = fingerprint bytes

-- `package_version` is the version of the package, which the build sets.
unfoldable pub execution_semantics_fingerprint :
    String → Duration → Option Duration → Option (List ℕ) → String
execution_semantics_fingerprint package_version request_timeout scenario_timeout descriptor_bytes =
    fingerprint (
      as_bytes (
        "engine="
        <> package_version
        <> "|request_timeout_ms="
        <> decimal (as_millis request_timeout)
        <> "|scenario_timeout_ms="
        <> millis_or_none scenario_timeout
        <> "|descriptor="
        <> descriptor_text descriptor_bytes))

module _ {R Step : Type 0} (ops : PlanOps R Step) where
  unfoldable pub steps_material : List Step → String
  steps_material [] = ""
  steps_material (step ∷ steps) = "|step=" <> ops.fingerprint_material step <> steps_material steps

  unfoldable pub scenario_plan_fingerprint : Scenario R Step → ℕ → ℕ → ℕ → String → String
  scenario_plan_fingerprint scenario slices global_startup_burst worker_max_retries semantics =
      fingerprint (
        as_bytes (
          "v"
          <> decimal current_contract_version
          <> "|endpoint="
          <> scenario.config.endpoint
          <> "|rate="
          <> hex 16 (ops.to_bits scenario.config.scenarios_per_sec)
          <> "|duration_ms="
          <> decimal (as_millis scenario.config.duration)
          <> "|concurrency="
          <> decimal scenario.config.max_concurrency
          <> "|slices="
          <> decimal slices
          <> "|startup_burst="
          <> decimal global_startup_burst
          <> "|max_retries="
          <> decimal worker_max_retries
          <> "|repeat="
          <> repeat_text scenario.config.repeat
          <> "|partition="
          <> strategy_debug scenario.config.partition_key_strategy
          <> "|execution_semantics="
          <> semantics
          <> steps_material scenario.steps))
