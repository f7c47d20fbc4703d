-- ===== src/Coordination/Execution/Store.antt =====
-- `RedisIdempotencyStore` of src/infrastructure/redis/mod.rs: its configuration, and the reading of
-- an execution's hash that the scripts share.
use pulse.Prelude.{
  ℕ, ◌*◌, String, Bool, ◌&&◌, ◌||◌, Option, none, some, ◌<>◌, decimal, max, min, Duration,
}
use pulse.Coordination.Redis.{named, Value, text, num, is_value, Redis}
use pulse.Coordination.Client.{duration_max}

-- The store's configuration.
pub record ExecutionStore : Type 0 where
  pub key_prefix : String
  pub lease_ttl : Duration
  pub terminal_ttl : Duration

-- RedisIdempotencyStore::new: running leases are capped at 30 seconds.
unfoldable pub new : String → Duration → ExecutionStore
new key_prefix ttl = record {
  key_prefix = key_prefix;
  lease_ttl = min ttl 30000000000;
  terminal_ttl = ttl;
}

unfoldable pub key_for : ExecutionStore → String → ℕ → String
key_for store execution_key attempt =
    store.key_prefix <> ":" <> execution_key <> ":attempt-" <> decimal attempt

unfoldable pub running_retention : ExecutionStore → Duration
running_retention store = max store.terminal_ttl (min (store.lease_ttl * 4) duration_max)

abbrev pub is_terminal : Option Value → Bool
is_terminal state =
    is_value state (text "completed")
    || is_value state (text "retry_published")
    || is_value state (text "dlq_published")

-- The text of a field that holds one.
abbrev pub text_of : Option Value → String
text_of none = ""
text_of (some (text t)) = t
text_of (some (num n)) = decimal n

-- ARGV[2] and ARGV[3] against the record.
abbrev pub same_identity : {S : Type 0} → Redis S → String → String → ℕ → S → Bool
same_identity r k execution_key attempt s =
    is_value (r.hget k (named "execution_key") s) (text execution_key)
    && is_value (r.hget k (named "attempt") s) (num attempt)
