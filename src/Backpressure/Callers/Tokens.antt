-- ===== src/Backpressure/Callers/Tokens.antt =====
-- backpressure/: the tokens of the semaphore and of its callers, after any steps from the start.
use catfish.Prelude.{ℕ, ◌+◌, ◌*◌, ◌≤◌, ◌<◌, ◌≡◌, ◌≢◌, refl, subst, ap, ◌∙◌, none, some, List, arith}
use catfish.Prelude.Int.{pos}
use catfish.Backpressure.Waiter.{new_waiter, admitted}
use catfish.Backpressure.Semaphore.{Semaphore, grants, release}
use catfish.Backpressure.Waiter.{WaitError, admitted}
use catfish.Backpressure.Waiter.Cases.{new_waiter_lem}
use catfish.Backpressure.Semaphore.Invariant.{release-IsWellFormed}
use catfish.Backpressure.Callers.{
  System, Step, grants_at_once, joins_queue, wakes, gives_back, ticks, Reach, start, next, initial,
  charge, told_charge, owed, told, held,
}
use catfish.Backpressure.Callers.Sums.{total-le}
use catfish.Backpressure.Callers.Fair.{Fair-answers, waits, charge-waiting, told-le-charge}
use catfish.Backpressure.Semaphore.{Options, new_semaphore, creates}
use catfish.Backpressure.Semaphore.Start.{
  AllPositive, new_semaphore-store, new_semaphore-IsWellFormed,
}
use catfish.Backpressure.Semaphore.Entries.{Limited, acquire-Limited, release-Limited, tick-Limited}
use catfish.Backpressure.Callers.Steps.{IsHonest, Reach-IsHonest}

Step-limits : {s t : System} → Step s t → t.sem.limits ≡ s.sem.limits
Step-limits {s} (grants_at_once now demand priority e) =
    subst (Limited s.sem.limits) e (acquire-Limited now demand priority s.sem)
Step-limits {s} (joins_queue now demand priority a e) =
    subst (Limited s.sem.limits) e (acquire-Limited now demand priority s.sem)
Step-limits (wakes w a x made below n e) = refl
Step-limits {s} (gives_back now n l e) =
    subst (Limited s.sem.limits) e (release-Limited now n s.sem)
Step-limits {s} (ticks now) = tick-Limited now s.sem

Reach-limits : {s t : System} → Reach s t → t.sem.limits ≡ s.sem.limits
Reach-limits start = refl
Reach-limits (next r x) = Step-limits x ∙ Reach-limits r

-- A system that was reached from a new semaphore.
pub record Runs (o : Options) (sizes : List ℕ) (capacity : ℕ) (t : System) : Type 0 where
  pub now : ℕ
  pub sem : Semaphore
  pub interval : 0 < o.debt_decay_interval * o.forgive_den
  pub positive : AllPositive sizes
  pub made : new_semaphore o sizes (pos capacity) now ≡ creates sem
  pub reached : Reach (initial sem) t

module _ {o : Options} {sizes : List ℕ} {capacity : ℕ} {t : System}
    (run : Runs o sizes capacity t) where
  initial-IsHonest : IsHonest (initial run.sem)
  initial-IsHonest =
      let (w, z, q, _) =
        new_semaphore-IsWellFormed o sizes capacity run.now run.sem run.interval run.positive
          run.made in
      let e = new_semaphore-store o sizes capacity run.now run.sem run.made in
      record {
        formed = w;
        tally =
            rw (q, e, z)
              (record {
                queued = tt;
                distinct = tt;
                fair = λ b. let f = new_waiter_lem 0 0 in waits f.0 f.1 refl;
                balance = omega (arith, charge-waiting (new_waiter 0 0) (new_waiter_lem 0 0).0);
              });
        unasked = λ b l. refl;
        covered = omega arith;
      }

  pub honest : IsHonest t
  honest = Reach-IsHonest run.reached initial-IsHonest

  told-le-owed : told t.answers t.sem.store ≤ owed t.sem.store
  told-le-owed =
      total-le (λ a. told_charge (t.answers a) (t.sem.store.at a)) (λ a. charge (t.sem.store.at a))
        t.sem.store.next (λ a. told-le-charge (honest.tally.fair a))

  -- In every state that a new semaphore (of positive queue sizes and a positive decay interval) reaches
  -- by calls of Acquire and Release, firings of the ticker and wakes of callers, in any order, where
  -- callers give back only what they hold: the tokens out and those given back are together those
  -- granted at once and those of the waiters that were admitted.
  pub tokens_conserved : t.sem.outstanding + t.returned ≡ t.granted + owed t.sem.store
  tokens_conserved = honest.tally.balance

  held-le-outstanding : held t ≤ t.sem.outstanding
  held-le-outstanding = omega (arith, tokens_conserved, told-le-owed)

  -- In every state that a new semaphore (of positive queue sizes and a positive decay interval) reaches
  -- by calls of Acquire and Release, firings of the ticker and wakes of callers, in any order, where
  -- callers give back only what they hold: the callers hold at most as many tokens as the semaphore was
  -- made with.
  pub held-le-capacity : held t ≤ capacity
  held-le-capacity =
      let (_, _, _, c) =
        new_semaphore-IsWellFormed o sizes capacity run.now run.sem run.interval run.positive
          run.made in
      omega (
        arith,
        held-le-outstanding,
        honest.formed.within,
        ap (λ l. l.capacity) (Reach-limits run.reached),
        c,
      )

  -- In every state that a new semaphore (of positive queue sizes and a positive decay interval) reaches
  -- by calls of Acquire and Release, firings of the ticker and wakes of callers, in any order, where
  -- callers give back only what they hold: Release of at most the tokens that the callers hold does not
  -- panic.
  pub release_accepted :
      (now n : ℕ) → n ≤ held t → (s : Semaphore) × (release now n t.sem ≡ grants s)
  release_accepted now n l =
      let (s, e, _) =
        release-IsWellFormed now n t.sem honest.formed (omega (arith, l, held-le-outstanding)) in
      (s, e)

  -- In every state that a new semaphore (of positive queue sizes and a positive decay interval) reaches
  -- by calls of Acquire and Release, firings of the ticker and wakes of callers, in any order, where
  -- callers give back only what they hold: the waiter of a caller whose wait returned nil was admitted,
  -- and the waiter of a caller whose wait returned an error was not.
  pub answers_true :
      (a : ℕ)
      → (t.answers a ≡ some none → (t.sem.store.at a).state ≡ admitted)
        × ((e : WaitError) → t.answers a ≡ some (some e) → (t.sem.store.at a).state ≢ admitted)
  answers_true a = Fair-answers (honest.tally.fair a)
