-- ===== src/Backpressure/Callers/Overflown.antt =====
-- backpressure/: how a waiter comes to stand in no queue.
use catfish.Prelude.{ℕ, ◌≡◌, ◌≢◌, refl, sym, ap, subst, ◌∙◌, inl, arith}
use catfish.Backpressure.Waiter.{alloc, new_waiter}
use catfish.Backpressure.Waiter.Cases.{write_same, alloc_lem, new_waiter_lem}
use catfish.Prelude.Int.{pos}
use catfish.Backpressure.Semaphore.{Semaphore, queues, acquire}
use catfish.Backpressure.Semaphore.Overflow.{IsFullAt, Overflows, acquire-Overflows}
use catfish.Backpressure.Semaphore.Moves.{done, queued}
use catfish.Backpressure.Callers.{System}
use catfish.Backpressure.Callers.Pending.{All-map}
use catfish.Backpressure.Callers.Tally.{Moves-Steady, Waits}
use catfish.Backpressure.Callers.Steps.{IsHonest, queued-IsHonest}
use catfish.Backpressure.Callers.Lost.{IsLost, Moves-other, kept}

-- What Acquire makes of an honest state when Push drops the new waiter and nothing is admitted.
module _ (s : System) (now demand : ℕ) (h : IsHonest s) where
  abbrev pub overflown : System
  overflown = record s {
    sem = record (s.sem) { store = alloc (new_waiter now demand) s.sem.store };
  }

  pub overflown-IsHonest : IsHonest overflown
  overflown-IsHonest =
      queued-IsHonest s overflown.sem now demand s.sem.store.next h
        (record {
          scaled = h.formed.scaled;
          within = h.formed.within;
          sound = h.formed.sound;
          armed = record { truth = h.formed.armed.truth; ticking = h.formed.armed.ticking };
        })
        (refl, queued s.sem.levels, inl refl, done)

  pub overflown-IsLost : IsLost s.sem.store.next overflown
  overflown-IsLost =
      let a = s.sem.store.next in
      let w = new_waiter now demand in
      let same : (alloc w s.sem.store).at a ≡ w =
        ap (λ x. x.at a) (alloc_lem w s.sem.store) ∙ write_same a w s.sem.store in
      record {
        made = omega (arith, ap (λ x. x.next) (alloc_lem w s.sem.store));
        waits = ap (λ v. v.state) same ∙ (new_waiter_lem now demand).0;
        unsignalled = ap (λ v. v.signals) same ∙ (new_waiter_lem now demand).1;
        unanswered = h.unasked a (omega arith);
        unqueued =
            All-map (Waits s.answers s.sem.store) (λ b. a ≢ b) (queued s.sem.levels)
              (λ b k e. omega (arith, k.0, e)) h.tally.queued;
      }

-- Acquire on a full queue: the waiter that it returns is in no queue and is lost.
pub full-IsLost :
    (s : System) (u : Semaphore) (now demand p a : ℕ)
    → IsHonest s
    → IsFullAt p s.sem.levels
    → acquire now demand (pos p) s.sem ≡ queues u a
    → IsLost a (record s { sem = u })
full-IsLost s u now demand p a h f e =
    let (same, m) =
      subst (Overflows now demand s.sem) e
        (acquire-Overflows now demand p s.sem h.formed.sound f) in
    let b = s.sem.store.next in
    let l = overflown-IsLost s now demand h in
    let i = Moves-other b m l.unqueued in
    let k =
      kept b (overflown s now demand h) u s.granted s.returned l (omega (arith, (Moves-Steady m).0))
        i.0 i.1 in
    subst (λ c. IsLost c (record s { sem = u })) (sym same) k
