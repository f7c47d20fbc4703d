-- ===== src/Coordination/Client.antt =====
-- The client side that every operation of src/infrastructure/redis/mod.rs shares.
use pulse.Prelude.{
  ℕ, String, Bool, true, false, ltb, ◌==◌, if◌then◌else◌, Duration, as_millis, from_millis, Option,
  none, some, Result, ok, err, map_err,
}
use pulse.Coordination.Types.{CoordinationError, unavailable, timeout, invalid_state}

abbrev pub i64_max : ℕ
i64_max = 9223372036854775807

-- Duration::MAX, in nanoseconds
abbrev pub duration_max : ℕ
duration_max = 18446744073709551615999999999

-- A script that raises an error where a field is no number.
abbrev pub with_number :
    {S A : Type 0} → S → Option ℕ → (ℕ → S × Result String A) → S × Result String A
with_number s (some n) f = f n
with_number s none f = (s, err "attempt to compare nil with number")

abbrev pub max_dispatch_slices : ℕ
max_dispatch_slices = 4096

-- How a call over the network may fail: with an error, or by running out of its time.
pub data Failure : Type 0 where
  refused : String → Failure
  elapsed : Failure

-- What the network does with one operation: the script runs and its reply arrives, no connection
-- is made, or the reply is lost after the script did or did not run.
pub data Link : Type 0 where
  up : Link
  no_connection : Failure → Link
  no_reply : Bool → Failure → Link

unfoldable pub failed : String → Failure → CoordinationError
failed operation (refused message) = unavailable operation message
failed operation elapsed = timeout operation

-- A script changes the state, and replies or raises an error.
abbrev pub Script : Type 0 → Type 0 → Type 0
Script S A = S → S × Result String A

-- The connection and the invocation of a script, both under `redis_operation`.
unfoldable pub invoke :
    {S A : Type 0} → String → Link → Script S A → S → S × Result CoordinationError A
unfolding failed
invoke operation up script s =
    ((script s).0, map_err (λ message. unavailable operation message) (script s).1)
invoke operation (no_connection f) script s = (s, err (failed operation f))
invoke operation (no_reply true f) script s = ((script s).0, err (failed operation f))
invoke operation (no_reply false f) script s = (s, err (failed operation f))

unfoldable pub duration_ms : String → Duration → Result CoordinationError ℕ
duration_ms operation duration =
    if as_millis duration == 0
    then err (invalid_state operation "duration must be at least one millisecond")
    else if ltb i64_max (as_millis duration)
    then err (invalid_state operation "duration exceeds Redis integer range")
    else ok (as_millis duration)

-- i64::try_from(fencing_token)
unfoldable pub fence_arg : String → ℕ → Result CoordinationError ℕ
fence_arg operation fencing_token =
    if ltb i64_max fencing_token
    then err (invalid_state operation "fencing token exceeds Redis integer range")
    else ok fencing_token

-- The replies are not negative here, so `as_u64` and the clamp of this conversion keep them.
abbrev pub duration_from_nonnegative_ms : ℕ → Duration
duration_from_nonnegative_ms = from_millis

-- An operation that stops before it reaches the server.
abbrev pub after_args :
    {S A B : Type 0}
    → S
    → Result CoordinationError A
    → (A → S × Result CoordinationError B)
    → S × Result CoordinationError B
after_args s (ok a) f = f a
after_args s (err e) f = (s, err e)

-- `.await?` on an operation's reply.
abbrev pub with_reply :
    {S A B : Type 0}
    → S × Result CoordinationError A
    → (A → Result CoordinationError B)
    → S × Result CoordinationError B
with_reply (s, ok a) f = (s, f a)
with_reply (s, err e) f = (s, err e)
