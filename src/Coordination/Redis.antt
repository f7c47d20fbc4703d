-- ===== src/Coordination/Redis.antt =====
-- What the scripts of src/infrastructure/redis use of a Redis server, as a parameter: the commands
-- on a state `S`, and their documented laws. A text that is a decimal number is kept as a number,
-- so `tostring` and `tonumber` are the constructor `num` and its match; the field `ack:<i>` is kept
-- as `ack i`.
use pulse.Prelude.{
  ℕ, suc, ◌+◌, ◌-◌, ◌*◌, ◌/◌, ◌<◌, String, List, [], ◌∷◌, Bool, true, false, not, ◌&&◌, ◌||◌,
  Option, none, some, ◌≡◌, ltb, ◌==◌, str_eq, if◌then◌else◌,
}

pub data Field : Type 0 where
  named : String → Field
  ack : ℕ → Field

abbrev pub field_eq : Field → Field → Bool
field_eq (named a) (named b) = str_eq a b
field_eq (ack i) (ack j) = i == j
field_eq (named a) (ack j) = false
field_eq (ack i) (named b) = false

pub data Value : Type 0 where
  text : String → Value
  num : ℕ → Value

-- The answer of PTTL: -2 for no key, -1 for a key without expiry, or the milliseconds left.
pub data Ttl : Type 0 where
  absent persistent : Ttl
  left : ℕ → Ttl

-- Lua's `==` on two texts.
abbrev pub value_eq : Value → Value → Bool
value_eq (text a) (text b) = str_eq a b
value_eq (num m) (num n) = m == n
value_eq (text a) (num n) = false
value_eq (num m) (text b) = false

-- redis.call('HGET', ...) == ARGV[i]; a missing field is `false` in Lua.
abbrev pub is_value : Option Value → Value → Bool
is_value none v = false
is_value (some w) v = value_eq w v

-- tonumber(redis.call('HGET', ...) or default). A text that is no number gives `nil`, at which the
-- script's next comparison raises an error: `none`.
abbrev pub number_or : ℕ → Option Value → Option ℕ
number_or default none = some default
number_or default (some (num n)) = some n
number_or default (some (text t)) = none

-- tonumber(redis.call('HGET', ...)), which is `nil` for a missing field too.
abbrev pub number_of : Option Value → Option ℕ
number_of none = none
number_of (some (num n)) = some n
number_of (some (text t)) = none

-- Whether a key with such an expiry is there `d` milliseconds later.
abbrev pub survives : ℕ → Ttl → Bool
survives d absent = true
survives d persistent = true
survives d (left n) = ltb d n

abbrev pub shrink : ℕ → Ttl → Ttl
shrink d absent = absent
shrink d persistent = persistent
shrink d (left n) = if ltb d n then left (n - d) else absent

pub record Redis (S : Type 0) : Type 0 where
  -- TIME: seconds and microseconds
  pub time_parts : S → ℕ × ℕ
  pub exists : String → S → Bool
  pub hget : String → Field → S → Option Value
  pub pttl : String → S → Ttl
  -- the number that INCR counts
  pub counter : String → S → ℕ
  pub hset : String → Field → Value → S → S
  pub hdel : String → Field → S → S
  pub pexpire : String → ℕ → S → S
  pub incr : String → S → S
  pub del : String → S → S
  -- the passing of so many milliseconds between two scripts
  pub elapse : ℕ → S → S

-- tonumber(TIME[1]) * 1000 + math.floor(tonumber(TIME[2]) / 1000)
abbrev pub now_ms : {S : Type 0} → Redis S → S → ℕ
now_ms r s = (r.time_parts s).0 * 1000 + (r.time_parts s).1 / 1000

-- HSET with several fields.
abbrev pub hset_all : {S : Type 0} → Redis S → String → List (Field × Value) → S → S
hset_all r k [] s = s
hset_all r k ((f, v) ∷ fs) s = hset_all r k fs (r.hset k f v s)

-- HDEL with several fields.
abbrev pub hdel_all : {S : Type 0} → Redis S → String → List Field → S → S
hdel_all r k [] s = s
hdel_all r k (f ∷ fs) s = hdel_all r k fs (r.hdel k f s)

pub record RedisLaws {S : Type 0} (r : Redis S) : Type 0 where
  -- a script sees one time
  pub now_hset :
      (k : String) (f : Field) (v : Value) (s : S) → now_ms r (r.hset k f v s) ≡ now_ms r s
  pub now_hdel : (k : String) (f : Field) (s : S) → now_ms r (r.hdel k f s) ≡ now_ms r s
  pub now_pexpire : (k : String) (n : ℕ) (s : S) → now_ms r (r.pexpire k n s) ≡ now_ms r s
  pub now_incr : (k : String) (s : S) → now_ms r (r.incr k s) ≡ now_ms r s
  pub now_del : (k : String) (s : S) → now_ms r (r.del k s) ≡ now_ms r s
  pub now_elapse : (d : ℕ) (s : S) → now_ms r (r.elapse d s) ≡ now_ms r s + d
  -- fields
  pub hget_hset :
      (j k : String) (f g : Field) (v : Value) (s : S)
      → r.hget j g (r.hset k f v s) ≡ (if str_eq k j && field_eq f g then some v else r.hget j g s)
  pub hget_hdel :
      (j k : String) (f g : Field) (s : S)
      → r.hget j g (r.hdel k f s) ≡ (if str_eq k j && field_eq f g then none else r.hget j g s)
  pub hget_pexpire :
      (j k : String) (g : Field) (n : ℕ) (s : S)
      → 0 < n
      → r.hget j g (r.pexpire k n s) ≡ r.hget j g s
  pub hget_del :
      (j k : String) (g : Field) (s : S)
      → r.hget j g (r.del k s) ≡ (if str_eq k j then none else r.hget j g s)
  pub hget_elapse :
      (j : String) (g : Field) (d : ℕ) (s : S)
      → r.hget j g (r.elapse d s) ≡ (if survives d (r.pttl j s) then r.hget j g s else none)
  -- keys
  pub exists_hset :
      (j k : String) (f : Field) (v : Value) (s : S)
      → r.exists j (r.hset k f v s) ≡ (str_eq k j || r.exists j s)
  -- a hash stays as long as a field is left
  pub exists_hdel :
      (j k : String) (f g : Field) (v : Value) (s : S)
      → r.hget k g s ≡ some v
      → field_eq f g ≡ false
      → r.exists j (r.hdel k f s) ≡ r.exists j s
  pub exists_pexpire :
      (j k : String) (n : ℕ) (s : S) → 0 < n → r.exists j (r.pexpire k n s) ≡ r.exists j s
  pub exists_del :
      (j k : String) (s : S) → r.exists j (r.del k s) ≡ (if str_eq k j then false else r.exists j s)
  pub exists_elapse :
      (j : String) (d : ℕ) (s : S)
      → r.exists j (r.elapse d s) ≡ (survives d (r.pttl j s) && r.exists j s)
  -- expiries
  pub pttl_hset :
      (j k : String) (f : Field) (v : Value) (s : S)
      → r.pttl j (r.hset k f v s)
        ≡ (if str_eq k j && not (r.exists j s) then persistent else r.pttl j s)
  pub pttl_hdel :
      (j k : String) (f g : Field) (v : Value) (s : S)
      → r.hget k g s ≡ some v
      → field_eq f g ≡ false
      → r.pttl j (r.hdel k f s) ≡ r.pttl j s
  pub pttl_pexpire :
      (j k : String) (n : ℕ) (s : S)
      → 0 < n
      → r.pttl j (r.pexpire k n s) ≡ (if str_eq k j && r.exists j s then left n else r.pttl j s)
  pub pttl_del :
      (j k : String) (s : S) → r.pttl j (r.del k s) ≡ (if str_eq k j then absent else r.pttl j s)
  pub pttl_elapse : (j : String) (d : ℕ) (s : S) → r.pttl j (r.elapse d s) ≡ shrink d (r.pttl j s)
  -- INCR, on a key that holds no hash and has no expiry
  pub exists_incr :
      (j k : String) (s : S) → str_eq k j ≡ false → r.exists j (r.incr k s) ≡ r.exists j s
  pub hget_incr :
      (j k : String) (g : Field) (s : S)
      → str_eq k j ≡ false
      → r.hget j g (r.incr k s) ≡ r.hget j g s
  pub pttl_incr : (j k : String) (s : S) → str_eq k j ≡ false → r.pttl j (r.incr k s) ≡ r.pttl j s
  pub counter_incr :
      (j k : String) (s : S)
      → r.counter j (r.incr k s) ≡ (if str_eq k j then suc (r.counter j s) else r.counter j s)
  pub counter_hset :
      (j k : String) (f : Field) (v : Value) (s : S)
      → str_eq k j ≡ false
      → r.counter j (r.hset k f v s) ≡ r.counter j s
  pub counter_pexpire :
      (j k : String) (n : ℕ) (s : S)
      → str_eq k j ≡ false
      → r.counter j (r.pexpire k n s) ≡ r.counter j s
  pub counter_del :
      (j k : String) (s : S) → str_eq k j ≡ false → r.counter j (r.del k s) ≡ r.counter j s
  pub counter_elapse : (j : String) (d : ℕ) (s : S) → r.counter j (r.elapse d s) ≡ r.counter j s
