-- ===== src/Coordination/Dispatch/Store.antt =====
-- The configuration of `RedisDueStateStore` of src/infrastructure/redis/mod.rs, the check of the
-- leader that its scripts share, and the slices of a window.
use pulse.Prelude.{
  ℕ, zero, suc, String, List, [], ◌∷◌, Bool, false, ◌&&◌, ◌||◌, Option, none, some, ltb, leb, ◌<>◌,
  if◌then◌else◌, Duration, Result, ok, err,
}
use pulse.Coordination.Types.{CoordinationError, invalid_state}
use pulse.Coordination.Redis.{ack, num, Ttl, absent, persistent, left, is_value, Redis}
use pulse.Coordination.Leader.{owned}

-- The registration of aggregation runs at dispatch.
pub record AggregationRegistrationConfig : Type 0 where
  pub key_prefix : String
  pub partial_timeout : Duration
  pub retention : Duration
  pub max_active_runs : ℕ

pub record DueStateStore : Type 0 where
  pub schedule_prefix : String
  pub operation_timeout : Duration
  pub aggregation_registration : Option AggregationRegistrationConfig

-- Duration::from_secs(2)
abbrev default_operation_timeout : Duration
default_operation_timeout = 2000000000

unfoldable pub new : String → DueStateStore
new schedule_prefix = record {
  schedule_prefix = schedule_prefix;
  operation_timeout = default_operation_timeout;
  aggregation_registration = none;
}

unfoldable pub with_operation_timeout : DueStateStore → Duration → DueStateStore
with_operation_timeout store operation_timeout = record store {
  operation_timeout = operation_timeout;
}

unfoldable pub with_aggregation_registration :
    DueStateStore → String → Duration → Duration → ℕ → DueStateStore
with_aggregation_registration store key_prefix partial_timeout retention max_active_runs =
    record store {
      aggregation_registration = some (record {
        key_prefix = key_prefix;
        partial_timeout = partial_timeout;
        retention = retention;
        max_active_runs = max_active_runs;
      });
    }

abbrev pub key_for : DueStateStore → String → String
key_for store scenario_id = store.schedule_prefix <> ":" <> scenario_id

-- `PTTL > 0`
abbrev pub expires_later : Ttl → Bool
expires_later absent = false
expires_later persistent = false
expires_later (left n) = ltb 0 n

-- The loop of `parse_missing_slices` after the index `previous`; the texts of the indexes are
-- kept as the numbers that they parse to.
unfoldable pub parse_after : String → ℕ → Option ℕ → List ℕ → Result CoordinationError (List ℕ)
parse_after operation total_slices previous [] = ok []
parse_after operation total_slices previous (index ∷ rest) =
    let parsed = parse_after operation total_slices (some index) rest in
    if leb total_slices index || elim previous [ none ↦ false | some p ↦ leb index p ]
    then err
        (invalid_state operation "missing-slice indexes are out of range or not strictly ordered")
    else elim parsed [ ok slices ↦ ok (index ∷ slices) | err e ↦ err e ]

unfoldable pub parse_missing_slices : String → List ℕ → ℕ → Result CoordinationError (List ℕ)
unfolding parse_after
parse_missing_slices operation raw total_slices = parse_after operation total_slices none raw

-- The indexes from `i` on, `n` of them.
abbrev pub indexes : ℕ → ℕ → List ℕ
indexes i zero = []
indexes i (suc n) = i ∷ indexes (suc i) n

module _ {S : Type 0} (r : Redis S) where
  -- The Lua function that `prepare_window` and `ack_slice` share.
  unfoldable pub leader_is_current : String → String → ℕ → S → Bool
  leader_is_current k owner fence s =
      r.exists k s && expires_later (r.pttl k s) && owned r k owner fence s

  -- `HGET ack:<i> == '1'`
  abbrev pub acked : String → ℕ → S → Bool
  acked k i s = is_value (r.hget k (ack i) s) (num 1)

  -- The indexes from `i` on, `n` of them, that have no acknowledgement, and the number of the others.
  unfoldable pub missing_in : String → S → ℕ → ℕ → List ℕ
  missing_in k s i zero = []
  missing_in k s i (suc n) =
      let rest = missing_in k s (suc i) n in if acked k i s then rest else i ∷ rest

  unfoldable pub acked_in : String → S → ℕ → ℕ → ℕ
  acked_in k s i zero = 0
  acked_in k s i (suc n) =
      let rest = acked_in k s (suc i) n in if acked k i s then suc rest else rest
