-- ===== src/Worker/Retries.antt =====
-- The retry loops of the worker end: each publication and completion is acknowledged or gives up.
use pulse.Prelude.{
  ℕ, zero, suc, ◌+◌, ◌≤◌, ◌<◌, ◌≡◌, arith, String, List, ◌∷◌, Bool, true, leb, Bool-cases, inl, inr,
  Result, ok, err,
}
use pulse.Coordination.Types.{CoordinationError, ExecutionLease}
use pulse.Planning.Delays.{retry_delay}
use pulse.Worker.Types.{NodeRuntimeConfig}
use pulse.Worker.Ports.{Event, checked, Ports, State, Run, ◌>>=◌, call, noted, return}
use pulse.Worker.Publish.{
  back_off, after_round, after_renewal, publish_if_checked, Round, acknowledged, refused, given_up,
  round_of, rounds, with_retry, local_settlement_attempt_limit, lease_response_has_safe_budget,
  verify_publication_lease, checked_round,
}
use pulse.Worker.Log.{Ends, Last, last, Replied, Acknowledged, RoundEnds}
use pulse.Worker.Rules.{Ends-and_then, Ends-mono, Ends-call, Ends-wait, Ends-acknowledged}

module _ {R Step W : Type 0} (ports : Ports R Step W) (config : NodeRuntimeConfig R) where
  -- After a round the loop ends, or goes on with a log that is as good.
  Ends-after_round :
      {E : Type 0} (K P : List (Event R) → Type 0) (leased : Bool) (limit attempt : ℕ)
      (entropy : String) (rest : Run R W (Result E (Unit {0}))) (round : Round E) (s : State R W)
      → RoundEnds K P round s.log
      → (attempt + 1 < limit → (t : State R W) → K t.log → Ends K (Acknowledged K P) (rest t))
      → Ends K
          (Acknowledged K P)
          (after_round ports config leased limit attempt entropy rest round s)
  unfolding after_round
  Ends-after_round K P leased limit attempt entropy rest acknowledged s p go = p
  Ends-after_round K P leased limit attempt entropy rest (given_up e) s p go = p
  Ends-after_round K P leased limit attempt entropy rest (refused e) s p go =
      elim (Bool-cases (leb limit (attempt + 1))) [
        | inl over ↦ rw over p
        | inr more ↦ rw more (
            Ends-and_then K (λ _. K) (Acknowledged K P) (λ _. rest)
              (back_off ports config leased attempt entropy s)
              (Ends-wait ports K leased
                (retry_delay config.worker_retry_base_delay config.worker_retry_max_delay attempt
                  entropy)
                s p)
              (λ _ t q. go (ground (arith, more)) t q))
      ]

  -- A loop of rounds ends with an acknowledgement or an error, and never runs past its limit.
  pub Ends-rounds :
      {E : Type 0} (K P : List (Event R) → Type 0) (leased : Bool) (limit n attempt : ℕ)
      (entropy : String) (action : Run R W (Round E))
      → attempt + n ≡ limit
      → 1 ≤ n
      → ((s : State R W) → K s.log → Ends K (RoundEnds K P) (action s))
      → (s : State R W) → K s.log
      → Ends K (Acknowledged K P) (rounds ports config leased limit n attempt entropy action s)
  unfolding rounds
  Ends-rounds K P leased limit zero attempt entropy action e pos step s k = absurd (omega arith)
  Ends-rounds K P leased limit (suc n) attempt entropy action e pos step s k =
      Ends-and_then K (RoundEnds K P) (Acknowledged K P)
        (after_round ports config leased limit attempt entropy
          (rounds ports config leased limit n (attempt + 1) entropy action))
        (action s) (step s k)
        (λ round t p.
          Ends-after_round K P leased limit attempt entropy
            (rounds ports config leased limit n (attempt + 1) entropy action) round t p
            (λ more.
              Ends-rounds K P leased limit n (attempt + 1) entropy action (omega arith)
                (omega arith) step))

  pub Ends-with_retry :
      {E : Type 0} (K P : List (Event R) → Type 0) (leased : Bool) (entropy : String)
      (action : Run R W (Round E))
      → ((s : State R W) → K s.log → Ends K (RoundEnds K P) (action s))
      → (s : State R W) → K s.log
      → Ends K (Acknowledged K P) (with_retry ports config leased entropy action s)
  unfolding with_retry local_settlement_attempt_limit
  Ends-with_retry K P leased entropy action step s k =
      let limit = local_settlement_attempt_limit config in
      Ends-rounds K P leased limit limit 0 entropy action (omega arith) (omega arith) step s k

  Ends-after_renewal :
      (K : List (Event R) → Type 0) (lease : ExecutionLease) (started : ℕ)
      (reply : Result CoordinationError ExecutionLease) (s : State R W)
      → K s.log
      → Ends K
          (Acknowledged K (Last (checked lease) K))
          (after_renewal ports config lease started reply s)
  unfolding after_renewal
  Ends-after_renewal K lease started (err e) s k = k
  Ends-after_renewal K lease started (ok renewed) s k =
      elim (Bool-cases (
        lease_response_has_safe_budget started renewed.ttl config.execution_renew_interval
          (ports.instant s.world))) [ inl safe ↦ rw safe (last k) | inr late ↦ rw late k ]

  Ends-verify_publication_lease :
      (K : List (Event R) → Type 0) (lease : ExecutionLease) (s : State R W)
      → K s.log
      → Ends K
          (Acknowledged K (Last (checked lease) K))
          (verify_publication_lease ports config lease s)
  unfolding verify_publication_lease
  Ends-verify_publication_lease K lease s k =
      Ends-and_then K (λ _. K) (Acknowledged K (Last (checked lease) K))
        (after_renewal ports config lease (ports.instant s.world))
        (call ports true (ports.renew lease) s) (Ends-call ports K true (ports.renew lease) s k)
        (λ reply t p. Ends-after_renewal K lease (ports.instant s.world) reply t p)

  round_of-Ends :
      {E A : Type 0} (K : List (Event R) → Type 0) (e : Event R) (reply : Result E A)
      (s : State R W)
      → Replied e K reply s.log
      → RoundEnds K (Last e K) (round_of reply) s.log
  round_of-Ends K e (ok a) s p = p
  round_of-Ends K e (err x) s p = p

  -- One operation whose success is logged, as a round.
  pub Ends-round_of :
      {E A : Type 0} (K : List (Event R) → Type 0) (e : Event R) (leased : Bool)
      (operation : W → W × Result E A) (s : State R W)
      → K s.log
      → Ends K
          (RoundEnds K (Last e K))
          ((call ports leased operation >>= noted e >>= λ reply. return (round_of reply)) s)
  Ends-round_of {E} {A} K e leased operation s k =
      Ends-and_then K (Replied e K) (RoundEnds K (Last e K)) (λ reply. return (round_of reply))
        ((call ports leased operation >>= noted e) s)
        (Ends-acknowledged ports K e leased operation s k) (λ reply t. round_of-Ends K e reply t)

  Last-weaken :
      (K : List (Event R) → Type 0) (e : Event R) (lease : ExecutionLease)
      → ((log : List (Event R)) → K log → K (checked lease ∷ log))
      → (log : List (Event R)) → Last (checked lease) K log
      → K log
  Last-weaken K e lease keep log (last {log = before} k) = keep before k

  weaken_round :
      {E : Type 0} (K : List (Event R) → Type 0) (e : Event R) (lease : ExecutionLease)
      → ((log : List (Event R)) → K log → K (checked lease ∷ log))
      → (round : Round E) (log : List (Event R))
      → RoundEnds (Last (checked lease) K) (Last e (Last (checked lease) K)) round log
      → RoundEnds K (Last e (Last (checked lease) K)) round log
  weaken_round K e lease keep acknowledged log p = p
  weaken_round K e lease keep (refused x) log p = Last-weaken K e lease keep log p
  weaken_round K e lease keep (given_up x) log p = Last-weaken K e lease keep log p

  Ends-publish_if_checked :
      (K : List (Event R) → Type 0) (e : Event R) (lease : ExecutionLease)
      (operation : W → W × Result String (Unit {0}))
      → ((log : List (Event R)) → K log → K (checked lease ∷ log))
      → (check : Result String (Unit {0})) (s : State R W)
      → Acknowledged K (Last (checked lease) K) check s.log
      → Ends K
          (RoundEnds K (Last e (Last (checked lease) K)))
          (publish_if_checked ports config (call ports true operation >>= noted e) check s)
  Ends-publish_if_checked K e lease operation keep (err x) s p = p
  Ends-publish_if_checked K e lease operation keep (ok _) s p =
      let C = Last (checked lease) K in
      Ends-mono C K (RoundEnds C (Last e C)) (RoundEnds K (Last e C))
        ((call ports true operation >>= noted e >>= λ reply. return (round_of reply)) s)
        (Ends-round_of C e true operation s p) (λ log. Last-weaken K e lease keep log)
        (λ round log. weaken_round K e lease keep round log)

  -- A publication right after the owner check of its lease.
  pub Ends-checked_round :
      (K : List (Event R) → Type 0) (e : Event R) (lease : ExecutionLease)
      (operation : W → W × Result String (Unit {0}))
      → ((log : List (Event R)) → K log → K (checked lease ∷ log))
      → (s : State R W) → K s.log
      → Ends K
          (RoundEnds K (Last e (Last (checked lease) K)))
          (checked_round ports config lease (call ports true operation >>= noted e) s)
  unfolding checked_round
  Ends-checked_round K e lease operation keep s k =
      let publication = call ports true operation >>= noted e in
      Ends-and_then K (Acknowledged K (Last (checked lease) K))
        (RoundEnds K (Last e (Last (checked lease) K)))
        (publish_if_checked ports config publication)
        (verify_publication_lease ports config lease s) (Ends-verify_publication_lease K lease s k)
        (λ check t p. Ends-publish_if_checked K e lease operation keep check t p)
