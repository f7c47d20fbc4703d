-- ===== src/Coordination/Dispatch/Windows.antt =====
-- The hash of a scenario's schedule in src/infrastructure/redis/mod.rs: with a window that is
-- active or without one, and how an acknowledgement changes it.
use pulse.Prelude.{
  ℕ, zero, suc, ◌+◌, ◌≤◌, ◌<◌, String, ◌≡◌, ◌∙◌, refl, arith, eq_refl, map, Option, none, some, leb,
  ltb, ◌==◌, ◌&&◌, ◌⊎◌, if◌then◌else◌,
}
use pulse.Coordination.Redis.{named, ack, Value, text, num, Redis, RedisLaws, hdel_all}
use pulse.Coordination.Dispatch.Store.{acked_in, indexes}
use pulse.Coordination.Dispatch.Ack.{record_ack, schedule_next, complete_window}
use pulse.Coordination.Dispatch.Slices.{acked_in-same, acked_in-ack}

-- What a window repeats: nothing, or after a positive number of milliseconds.
abbrev pub Policy : String → ℕ → Type 0
Policy kind ms = ((kind ≡ "once") × (ms ≡ 0)) ⊎ ((kind ≡ "every") × (0 < ms))

module _ {S : Type 0} (r : Redis S) (laws : RedisLaws r) where
  open laws use {hget_hset, hget_hdel}

  -- A window that is active: its count is the number of its acknowledgements, and one is missing.
  pub record Active (k id kind : String) (ms at total : ℕ) (plan : String) (s : S) : Type 0 where
    pub id_is : r.hget k (named "active_window_id") s ≡ some (text id)
    pub at_is : r.hget k (named "active_scheduled_at") s ≡ some (num at)
    pub total_is : r.hget k (named "active_total_slices") s ≡ some (num total)
    pub kind_is : r.hget k (named "active_repeat_kind") s ≡ some (text kind)
    pub ms_is : r.hget k (named "active_repeat_ms") s ≡ some (num ms)
    pub plan_is : r.hget k (named "active_plan_fingerprint") s ≡ some (text plan)
    pub policy : Policy kind ms
    pub count_is : r.hget k (named "active_ack_count") s ≡ some (num (acked_in r k s 0 total))
    pub missing : acked_in r k s 0 total < total
    pub marks :
        (i : ℕ) → (r.hget k (ack i) s ≡ none) ⊎ ((r.hget k (ack i) s ≡ some (num 1)) × (i < total))

  -- No window, and no acknowledgement.
  pub record Inactive (k : String) (s : S) : Type 0 where
    pub no_window : r.hget k (named "active_window_id") s ≡ none
    pub no_marks : (i : ℕ) → r.hget k (ack i) s ≡ none

  -- The hash after the last acknowledgement: the window is the last one completed, and the next
  -- one is scheduled.
  pub record Completed (k id kind : String) (ms at : ℕ) (s : S) : Type 0 where
    pub inactive : Inactive k s
    pub last_is : r.hget k (named "last_completed_window") s ≡ some (text id)
    pub done : kind ≡ "once" → r.hget k (named "once_done") s ≡ some (num 1)
    pub next : kind ≡ "every" → r.hget k (named "next_at") s ≡ some (num (at + ms))

  -- The mark of one slice, and the count with it.
  pub marked : String → ℕ → ℕ → S → S
  marked k j count s =
      r.hset k (named "active_ack_count") (num (count + 1)) (r.hset k (ack j) (num 1) s)

  pub hget-marked :
      (k : String) (j count : ℕ) (s : S) (i : ℕ)
      → r.hget k (ack i) (marked k j count s)
        ≡ (if j == i then some (num 1) else r.hget k (ack i) s)
  unfolding marked
  hget-marked k j count s i = simp (hget_hset, eq_refl)

  pub acked_in-marked :
      (k : String) (j count : ℕ) (s : S) (total : ℕ)
      → j < total
      → r.hget k (ack j) s ≡ none
      → acked_in r k (marked k j count s) 0 total ≡ suc (acked_in r k s 0 total)
  unfolding marked
  acked_in-marked k j count s total l h =
      acked_in-same r k (r.hset k (ack j) (num 1) s) _ 0 total (λ i. simp (hget_hset, eq_refl))
      ∙ acked_in-ack r laws k j s 0 total (omega arith) (omega (arith, l)) h

  pub marked-Active :
      (k id kind : String) (ms at total : ℕ) (plan : String) (s : S) (j : ℕ)
      → Active k id kind ms at total plan s
      → j < total
      → r.hget k (ack j) s ≡ none
      → suc (acked_in r k s 0 total) < total
      → Active k id kind ms at total plan (marked k j (acked_in r k s 0 total) s)
  unfolding marked
  marked-Active k id kind ms at total plan s j a l h more = record {
    id_is = simp (hget_hset, eq_refl) a.id_is;
    at_is = simp (hget_hset, eq_refl) a.at_is;
    total_is = simp (hget_hset, eq_refl) a.total_is;
    kind_is = simp (hget_hset, eq_refl) a.kind_is;
    ms_is = simp (hget_hset, eq_refl) a.ms_is;
    plan_is = simp (hget_hset, eq_refl) a.plan_is;
    policy = a.policy;
    count_is = ground (
      arith,
      hget_hset k k (named "active_ack_count") (named "active_ack_count")
          (num (acked_in r k s 0 total + 1)) (r.hset k (ack j) (num 1) s),
      eq_refl k,
      acked_in-marked k j (acked_in r k s 0 total) s total l h,
    );
    missing = ground (arith, acked_in-marked k j (acked_in r k s 0 total) s total l h);
    marks = λ i. ground (arith, hget-marked k j (acked_in r k s 0 total) s i, a.marks i);
  }

  hget-hdel_acks :
      (k g : String) (i n : ℕ) (s : S)
      → r.hget k (named g) (hdel_all r k (map ack (indexes i n)) s) ≡ r.hget k (named g) s
  hget-hdel_acks k g i zero s = refl
  hget-hdel_acks k g i (suc n) s =
      hget-hdel_acks k g (suc i) n (r.hdel k (ack i) s) ∙ simp (hget_hdel, eq_refl)

  ack-hdel_acks :
      (k : String) (j i n : ℕ) (s : S)
      → r.hget k (ack j) (hdel_all r k (map ack (indexes i n)) s)
        ≡ (if leb i j && ltb j (i + n) then none else r.hget k (ack j) s)
  ack-hdel_acks k j i zero s = ground arith
  ack-hdel_acks k j i (suc n) s = ground (
    arith,
    ack-hdel_acks k j (suc i) n (r.hdel k (ack i) s),
    hget_hdel k k (ack i) (ack j) s,
    eq_refl k,
  )

  ack-schedule_next :
      (k : String) (kind : Option Value) (at ms j : ℕ) (s : S)
      → r.hget k (ack j) (schedule_next r k kind at ms s) ≡ r.hget k (ack j) s
  unfolding schedule_next
  ack-schedule_next k kind at ms j s = ground (
    arith,
    hget_hdel k k (named "next_at") (ack j) (r.hset k (named "once_done") (num 1) s),
    hget_hset k k (named "once_done") (ack j) (num 1) s,
    hget_hset k k (named "next_at") (ack j) (num (at + ms)) s,
    eq_refl k,
  )

  once-schedule_next :
      (k : String) (at ms : ℕ) (s : S)
      → r.hget k (named "once_done") (schedule_next r k (some (text "once")) at ms s) ≡ some (num 1)
  unfolding schedule_next
  once-schedule_next k at ms s = simp (hget_hdel, hget_hset, eq_refl)

  every-schedule_next :
      (k : String) (at ms : ℕ) (s : S)
      → r.hget k (named "next_at") (schedule_next r k (some (text "every")) at ms s)
        ≡ some (num (at + ms))
  unfolding schedule_next
  every-schedule_next k at ms s = simp (hget_hset, eq_refl)

  -- What a completion leaves of the acknowledgements, and of the fields that it does not touch.
  ack-complete_window :
      (k : String) (w : Value) (kind : Option Value) (at ms total j : ℕ) (s : S)
      → r.hget k (ack j) (complete_window r k w kind at ms total s)
        ≡ (if ltb j total then none else r.hget k (ack j) s)
  unfolding complete_window
  ack-complete_window k w kind at ms total j s =
      simp (hget_hdel, ack-hdel_acks, hget_hset, ack-schedule_next, eq_refl) (ground arith)

  pub complete_window-Completed :
      (k id kind : String) (ms at total : ℕ) (s : S)
      → Policy kind ms
      → ((i : ℕ) → total ≤ i → r.hget k (ack i) s ≡ none)
      → Completed k id kind ms at (complete_window r k (text id) (some (text kind)) at ms total s)
  unfolding complete_window
  complete_window-Completed k id kind ms at total s p h = record {
    inactive = record {
      no_window = simp (hget_hdel, eq_refl);
      no_marks = λ i.
          ground (arith, h i, ack-complete_window k (text id) (some (text kind)) at ms total i s);
    };
    last_is = simp (hget_hdel, hget-hdel_acks, hget_hset, eq_refl);
    done = λ e.
        simp (hget_hdel, hget-hdel_acks, hget_hset, eq_refl) (rw e (once-schedule_next k at ms s));
    next = λ e.
        simp (hget_hdel, hget-hdel_acks, hget_hset, eq_refl) (rw e (every-schedule_next k at ms s));
  }

  pub record_ack-new :
      (k : String) (j count : ℕ) (s : S)
      → r.hget k (ack j) s ≡ none
      → r.hget k (named "active_ack_count") s ≡ some (num count)
      → record_ack r k j s ≡ marked k j count s
  unfolding record_ack marked
  record_ack-new k j count s n c =
      let read : r.hget k (named "active_ack_count") (r.hset k (ack j) (num 1) s)
          ≡ some (num count) =
        simp (hget_hset, eq_refl) c in
      rw (n, read) refl

  pub count-marked :
      (k : String) (j count : ℕ) (s : S)
      → r.hget k (named "active_ack_count") (marked k j count s) ≡ some (num (suc count))
  unfolding marked
  count-marked k j count s = ground (
    arith,
    hget_hset k k (named "active_ack_count") (named "active_ack_count") (num (count + 1))
        (r.hset k (ack j) (num 1) s),
    eq_refl k,
  )
