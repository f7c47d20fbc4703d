-- ===== src/Coordination/Dispatch/Settled.antt =====
-- The acknowledgement of one slice of an active window, in src/infrastructure/redis/mod.rs: it
-- repeats one that is there, adds one while others are missing, or is the last.
use pulse.Prelude.{
  ℕ, suc, ◌-◌, ◌<◌, String, true, false, ◌≡◌, refl, arith, none, some, ok, ltb, ◌==◌, if◌then◌else◌,
}
use pulse.Coordination.Redis.{ack, text, num, Redis, RedisLaws}
use pulse.Coordination.Dispatch.Store.{acked_in}
use pulse.Coordination.Dispatch.Ack.{record_ack, complete_window, settle_ack}
use pulse.Coordination.Dispatch.Windows.{
  Active, Completed, marked, marked-Active, acked_in-marked, hget-marked, record_ack-new,
  count-marked, complete_window-Completed,
}

module _ {S : Type 0} (r : Redis S) (laws : RedisLaws r) where
  -- A slice that is acknowledged already.
  pub settle_ack-again :
      (k id kind : String) (ms at total : ℕ) (plan : String) (s : S) (j : ℕ)
      → Active r laws k id kind ms at total plan s
      → r.hget k (ack j) s ≡ some (num 1)
      → settle_ack r k (text id) (some (text kind)) at ms total j s
        ≡ (s, ok (1, total - acked_in r k s 0 total, ""))
  unfolding settle_ack record_ack
  settle_ack-again k id kind ms at total plan s j a h = ground (arith, h, a.count_is, a.missing)

  -- What an acknowledgement that is new, and not the last, has done.
  pub record Advanced (k id kind : String) (ms at total : ℕ) (plan : String) (j : ℕ) (s s' : S)
      : Type 0 where
    pub active : Active r laws k id kind ms at total plan s'
    pub one_more : acked_in r k s' 0 total ≡ suc (acked_in r k s 0 total)
    pub only : (i : ℕ) → r.hget k (ack i) s' ≡ (if j == i then some (num 1) else r.hget k (ack i) s)

  settle_ack-new :
      (k id kind : String) (ms at total : ℕ) (plan : String) (s : S) (j : ℕ)
      → Active r laws k id kind ms at total plan s
      → r.hget k (ack j) s ≡ none
      → settle_ack r k (text id) (some (text kind)) at ms total j s ≡ (
          let done = marked r laws k j (acked_in r k s 0 total) s in
          if ltb (suc (acked_in r k s 0 total)) total
          then (done, ok (1, total - suc (acked_in r k s 0 total), ""))
          else (complete_window r k (text id) (some (text kind)) at ms total done, ok (2, 0, "")))
  unfolding settle_ack
  settle_ack-new k id kind ms at total plan s j a h = ground (
    arith,
    record_ack-new r laws k j (acked_in r k s 0 total) s h a.count_is,
    count-marked r laws k j (acked_in r k s 0 total) s,
    a.missing,
  )

  pub settle_ack-next :
      (k id kind : String) (ms at total : ℕ) (plan : String) (s : S) (j : ℕ)
      → Active r laws k id kind ms at total plan s
      → j < total
      → r.hget k (ack j) s ≡ none
      → suc (acked_in r k s 0 total) < total
      → let after = settle_ack r k (text id) (some (text kind)) at ms total j s in
        (after.1 ≡ ok (1, total - suc (acked_in r k s 0 total), ""))
        × Advanced k id kind ms at total plan j s after.0
  settle_ack-next k id kind ms at total plan s j a l h more =
      let test : ltb (suc (acked_in r k s 0 total)) total ≡ true = ground arith in
      rw (settle_ack-new k id kind ms at total plan s j a h, test)
        (
          refl,
          record {
            active = marked-Active r laws k id kind ms at total plan s j a l h more;
            one_more = acked_in-marked r laws k j (acked_in r k s 0 total) s total l h;
            only = hget-marked r laws k j (acked_in r k s 0 total) s;
          },
        )

  pub settle_ack-last :
      (k id kind : String) (ms at total : ℕ) (plan : String) (s : S) (j : ℕ)
      → Active r laws k id kind ms at total plan s
      → j < total
      → r.hget k (ack j) s ≡ none
      → suc (acked_in r k s 0 total) ≡ total
      → let after = settle_ack r k (text id) (some (text kind)) at ms total j s in
        (after.1 ≡ ok (2, 0, "")) × Completed r laws k id kind ms at after.0
  settle_ack-last k id kind ms at total plan s j a l h last =
      let test : ltb (suc (acked_in r k s 0 total)) total ≡ false = ground arith in
      rw (settle_ack-new k id kind ms at total plan s j a h, test)
        (
          refl,
          complete_window-Completed r laws k id kind ms at total _ a.policy (λ i p.
              ground (arith, hget-marked r laws k j (acked_in r k s 0 total) s i, a.marks i)),
        )
