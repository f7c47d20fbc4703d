-- ===== src/Worker/Rules.antt =====
-- How the computations of the worker end, put together from how their parts end.
use pulse.Prelude.{List, Bool, true, false, Result, ok, err, Duration}
use pulse.Worker.Ports.{
  Event, Interruption, running, stopped, lease_lost, Outcome, done, halted, dropped, lease_gone,
  panicked, Ports, State, Run, ◌>>=◌, and_then, call, wait, noted, survive,
}
use pulse.Worker.Log.{Ends, last, Replied}

module _ {R W : Type 0} where
  pub Ends-and_then :
      {A B : Type 0} (K : List (Event R) → Type 0) (P : A → List (Event R) → Type 0)
      (Q : B → List (Event R) → Type 0) (f : A → Run R W B) (x : State R W × Outcome A)
      → Ends K P x
      → ((a : A) (t : State R W) → P a t.log → Ends K Q (f a t))
      → Ends K Q (and_then f x)
  Ends-and_then K P Q f (s, done a) p h = h a s p
  Ends-and_then K P Q f (s, halted dropped) p h = p
  Ends-and_then K P Q f (s, halted lease_gone) p h = p
  Ends-and_then K P Q f (s, halted panicked) p h = p

  pub Ends-mono :
      {A : Type 0} (J K : List (Event R) → Type 0) (P Q : A → List (Event R) → Type 0)
      (x : State R W × Outcome A)
      → Ends J P x
      → ((log : List (Event R)) → J log → K log)
      → ((a : A) (log : List (Event R)) → P a log → Q a log)
      → Ends K Q x
  Ends-mono J K P Q (s, done a) p j q = q a s.log p
  Ends-mono J K P Q (s, halted dropped) p j q = j s.log p
  Ends-mono J K P Q (s, halted lease_gone) p j q = j s.log p
  Ends-mono J K P Q (s, halted panicked) p j q = p

  pub Ends-survive :
      {A : Type 0} (K : List (Event R) → Type 0) (P : A → List (Event R) → Type 0) (leased : Bool)
      (i : Interruption) (a : A) (s : State R W)
      → K s.log
      → P a s.log
      → Ends K P (survive {R = R} {W = W} leased i a s)
  Ends-survive K P leased running a s k p = p
  Ends-survive K P leased stopped a s k p = k
  Ends-survive K P true lease_lost a s k p = k
  Ends-survive K P false lease_lost a s k p = p

  pub Ends-noted :
      {E A : Type 0} (K : List (Event R) → Type 0) (e : Event R) (r : Result E A) (s : State R W)
      → K s.log
      → Ends K (Replied e K) (noted {R = R} {W = W} e r s)
  Ends-noted K e (ok a) s k = last k
  Ends-noted K e (err x) s k = k

module _ {R Step W : Type 0} (ports : Ports R Step W) where
  pub Ends-call :
      {A : Type 0} (K : List (Event R) → Type 0) (leased : Bool) (operation : W → W × A)
      (s : State R W)
      → K s.log
      → Ends K (λ _. K) (call ports leased operation s)
  Ends-call K leased operation s k =
      let (w, a) = operation s.world in
      Ends-survive K (λ _. K) leased (ports.interrupted w) a (record s { world = w }) k k

  pub Ends-wait :
      (K : List (Event R) → Type 0) (leased : Bool) (duration : Duration) (s : State R W)
      → K s.log
      → Ends K (λ _. K) (wait ports leased duration s)
  Ends-wait K leased duration s k = Ends-call K leased (λ w. (ports.sleep duration w, tt)) s k

  -- One operation whose success is logged.
  pub Ends-acknowledged :
      {E A : Type 0} (K : List (Event R) → Type 0) (e : Event R) (leased : Bool)
      (operation : W → W × Result E A) (s : State R W)
      → K s.log
      → Ends K (Replied e K) ((call ports leased operation >>= noted e) s)
  Ends-acknowledged K e leased operation s k =
      Ends-and_then K (λ _. K) (Replied e K) (noted e) (call ports leased operation s)
        (Ends-call K leased operation s k) (λ r t p. Ends-noted K e r t p)
