-- ===== src/Tests/Server.antt =====
-- A server that obeys the laws which the scripts rely on: a clock in milliseconds, and the fields,
-- the expiry and the counter of each key.
use pulse.Prelude.{
  ℕ, suc, ◌+◌, ◌*◌, ◌/◌, ◌%◌, String, Bool, true, false, ◌&&◌, ◌≡◌, refl, arith, Option, none, some,
  str_eq, eq_iff, ◌≢◌, if◌then◌else◌,
}
use pulse.Coordination.Redis.{
  Field, field_eq, Value, Ttl, absent, persistent, left, survives, shrink, Redis, RedisLaws,
}

pub record Server : Type 0 where
  pub clock : ℕ
  pub fields : String → Field → Option Value
  pub expiry : String → Ttl
  pub counts : String → ℕ

abbrev pub is_there : Ttl → Bool
is_there absent = false
is_there persistent = true
is_there (left n) = true

abbrev pub kept_or_persistent : Ttl → Ttl
kept_or_persistent absent = persistent
kept_or_persistent persistent = persistent
kept_or_persistent (left n) = left n

abbrev pub expires_in : ℕ → Ttl → Ttl
expires_in n absent = absent
expires_in n persistent = left n
expires_in n (left m) = left n

abbrev pub server : Redis Server
server = record {
  time_parts = λ s. (s.clock / 1000, s.clock % 1000 * 1000);
  exists = λ k s. is_there (s.expiry k);
  hget = λ k f s. s.fields k f;
  pttl = λ k s. s.expiry k;
  counter = λ k s. s.counts k;
  hset = λ k f v s. record s {
    fields = λ j g. if str_eq k j && field_eq f g then some v else s.fields j g;
    expiry = λ j. if str_eq k j then kept_or_persistent (s.expiry j) else s.expiry j;
  };
  hdel = λ k f s. record s {
    fields = λ j g. if str_eq k j && field_eq f g then none else s.fields j g;
  };
  pexpire = λ k n s. record s {
    expiry = λ j. if str_eq k j then expires_in n (s.expiry j) else s.expiry j;
  };
  incr = λ k s. record s { counts = λ j. if str_eq k j then suc (s.counts j) else s.counts j };
  del = λ k s. record s {
    fields = λ j g. if str_eq k j then none else s.fields j g;
    expiry = λ j. if str_eq k j then absent else s.expiry j;
  };
  elapse = λ d s. record s {
    clock = s.clock + d;
    fields = λ j g. if survives d (s.expiry j) then s.fields j g else none;
    expiry = λ j. shrink d (s.expiry j);
  };
}

clock_ms : (n : ℕ) → n / 1000 * 1000 + n % 1000 * 1000 / 1000 ≡ n
clock_ms n = omega arith

pub server_laws : RedisLaws server
server_laws = record {
  now_hset = λ k f v s. refl;
  now_hdel = λ k f s. refl;
  now_pexpire = λ k n s. refl;
  now_incr = λ k s. refl;
  now_del = λ k s. refl;
  now_elapse = λ d s. omega (arith, clock_ms s.clock, clock_ms (s.clock + d));
  hget_hset = λ j k f g v s. refl;
  hget_hdel = λ j k f g s. refl;
  hget_pexpire = λ j k g n s p. refl;
  hget_del = λ j k g s. refl;
  hget_elapse = λ j g d s. refl;
  exists_hset = λ j k f v s. ground arith;
  exists_hdel = λ j k f g v s h n. refl;
  exists_pexpire = λ j k n s p. ground arith;
  exists_del = λ j k s. ground arith;
  exists_elapse = λ j d s. ground arith;
  pttl_hset = λ j k f v s. ground arith;
  pttl_hdel = λ j k f g v s h n. refl;
  pttl_pexpire = λ j k n s p. ground arith;
  pttl_del = λ j k s. refl;
  pttl_elapse = λ j d s. refl;
  exists_incr = λ j k s n. refl;
  hget_incr = λ j k g s n. refl;
  pttl_incr = λ j k s n. refl;
  counter_incr = λ j k s. refl;
  counter_hset = λ j k f v s n. refl;
  counter_pexpire = λ j k n s p. refl;
  counter_del = λ j k s n. refl;
  counter_elapse = λ j d s. refl;
}

-- Nothing is stored.
abbrev pub empty_server : Server
empty_server = record {
  clock = 1700000000123;
  fields = λ k f. none;
  expiry = λ k. absent;
  counts = λ k. 0;
}

pub texts_differ : (a b : String) → str_eq a b ≡ false → a ≢ b
texts_differ a b n = λ e. ground (arith, eq_iff a b)
