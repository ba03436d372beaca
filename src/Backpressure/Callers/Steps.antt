-- ===== src/Backpressure/Callers/Steps.antt =====
-- backpressure/: the invariant of the semaphore and its callers, step by step.
use catfish.Prelude.{ℕ, ◌+◌, ◌≤◌, ◌≡◌, subst, Option, none, List, arith, ==-eq_false}
use catfish.Backpressure.Waiter.{Store, alloc, new_waiter}
use catfish.Backpressure.Semaphore.{Semaphore, grants, queues}
use catfish.Backpressure.Waiter.{Answer}
use catfish.Backpressure.Waiter.Cases.{alloc_lem}
use catfish.Backpressure.Semaphore.Invariant.{
  IsWellFormed, acquire-IsWellFormed, release-IsWellFormed, background_tick-IsWellFormed,
}
use catfish.Backpressure.Semaphore.Bounds.{Ensures}
use catfish.Backpressure.Semaphore.Moves.{Moves, queued}
use catfish.Backpressure.Semaphore.Removals.{release-Moves, tick-Moves}
use catfish.Backpressure.Semaphore.Entries.{Enters, acquire-Enters}
use catfish.Backpressure.Callers.{
  System, Step, grants_at_once, joins_queue, wakes, gives_back, ticks, Reach, start, next, told,
}
use catfish.Backpressure.Callers.Fair.{wait-Wakes}
use catfish.Backpressure.Callers.Tally.{Tallied, Moves-Tallied, Moves-Steady, told-Steady}
use catfish.Backpressure.Callers.Answers.{
  alloc-Tallied, answered-Tallied, told-answered, told-alloc,
}

-- The semaphore is well formed, the tokens tally, a caller has an answer only of a waiter that was
-- made, and what was given back was held.
pub record IsHonest (s : System) : Type 0 where
  pub formed : IsWellFormed s.sem
  pub tally :
      Tallied s.answers s.granted s.returned (queued s.sem.levels) s.sem.store s.sem.outstanding
  pub unasked : (b : ℕ) → s.sem.store.next ≤ b → s.answers b ≡ none
  pub covered : s.returned ≤ s.granted + told s.answers s.sem.store

-- Every waiter moved, the tally and what the callers know are as before.
moved :
    {ps qs : List ℕ} {st st' : Store} {o o' : ℕ} (r : ℕ → Option Answer) (g k : ℕ)
    → Moves ps st o qs st' o'
    → Tallied r g k ps st o
    → ((b : ℕ) → st.next ≤ b → r b ≡ none)
    → Tallied r g k qs st' o' × ((b : ℕ) → st'.next ≤ b → r b ≡ none) × (told r st' ≡ told r st)
moved {st} {st'} r g k m t u =
    let y = Moves-Steady m in
    (Moves-Tallied r g k m t, λ b l. u b (rw y.0 at l), told-Steady r st st' y)

granted-IsHonest :
    (s : System) (t : Semaphore) (now demand : ℕ)
    → IsHonest s
    → IsWellFormed t
    → Enters now demand s.sem (grants t)
    → IsHonest (record s { sem = t; granted = s.granted + demand })
granted-IsHonest s t now demand h w (q, st, o) = record {
  formed = w;
  tally =
      rw (q, st, o)
        (record {
          queued = h.tally.queued;
          distinct = h.tally.distinct;
          fair = h.tally.fair;
          balance = omega (arith, h.tally.balance);
        });
  unasked = rw st h.unasked;
  covered = rw st (omega (arith, h.covered));
}

pub queued-IsHonest :
    (s : System) (t : Semaphore) (now demand a : ℕ)
    → IsHonest s
    → IsWellFormed t
    → Enters now demand s.sem (queues t a)
    → IsHonest (record s { sem = t })
queued-IsHonest s t now demand a h w (e, ps, j, m) =
    let st = alloc (new_waiter now demand) s.sem.store in
    let n = h.unasked s.sem.store.next (omega arith) in
    let j' = rw e at j in
    let k =
      moved s.answers s.granted s.returned m
        (alloc-Tallied s.answers s.granted s.returned now demand n j' h.tally)
        (rw (alloc_lem (new_waiter now demand) s.sem.store)
          (λ b l. h.unasked b (omega (arith, l)))) in
    record {
      formed = w;
      tally = k.0;
      unasked = k.1;
      covered = omega (
        arith,
        h.covered,
        k.2,
        told-alloc s.answers s.granted s.returned s.sem.store now demand n,
      );
    }

pub Step-IsHonest : {s t : System} → Step s t → IsHonest s → IsHonest t
Step-IsHonest {s} (grants_at_once {t} now demand priority e) h =
    granted-IsHonest s t now demand h
      (subst (Ensures IsWellFormed) e (acquire-IsWellFormed now demand priority s.sem h.formed))
      (subst (Enters now demand s.sem) e (acquire-Enters now demand priority s.sem h.formed.sound))
Step-IsHonest {s} (joins_queue {t} now demand priority a e) h =
    queued-IsHonest s t now demand a h
      (subst (Ensures IsWellFormed) e (acquire-IsWellFormed now demand priority s.sem h.formed))
      (subst (Enters now demand s.sem) e (acquire-Enters now demand priority s.sem h.formed.sound))
Step-IsHonest {s} (wakes {st} w a x made below n e) h =
    let k = wait-Wakes w a s.sem.store st x e (rw n at (h.tally.fair a)) in
    record {
      formed = record {
        scaled = h.formed.scaled;
        within = h.formed.within;
        sound = h.formed.sound;
        armed = record { truth = h.formed.armed.truth; ticking = h.formed.armed.ticking };
      };
      tally = answered-Tallied s.answers s.granted s.returned a x n k h.tally;
      unasked = λ b l.
          let l' : s.sem.store.next ≤ b = rw k.kept at l in
          rw (==-eq_false a b (λ q. omega (arith, below, l', q))) (h.unasked b l');
      covered = omega (arith, h.covered, told-answered s.answers s.granted s.returned a x n k);
    }
Step-IsHonest {s} (gives_back {t} now n l e) h =
    let (le, m) = release-Moves now n s.sem t h.formed.sound e in
    let (t', e', w) = release-IsWellFormed now n s.sem h.formed le in
    let k =
      moved s.answers s.granted (s.returned + n) m
        (record {
          queued = h.tally.queued;
          distinct = h.tally.distinct;
          fair = h.tally.fair;
          balance = omega (arith, h.tally.balance, le);
        })
        h.unasked in
    record {
      formed = subst IsWellFormed (cc (e, e')) w;
      tally = k.0;
      unasked = k.1;
      covered = omega (arith, h.covered, k.2, l);
    }
Step-IsHonest {s} (ticks now) h =
    let k =
      moved s.answers s.granted s.returned (tick-Moves now s.sem h.formed.sound) h.tally
        h.unasked in
    record {
      formed = background_tick-IsWellFormed now s.sem h.formed;
      tally = k.0;
      unasked = k.1;
      covered = omega (arith, h.covered, k.2);
    }

pub Reach-IsHonest : {s t : System} → Reach s t → IsHonest s → IsHonest t
Reach-IsHonest start h = h
Reach-IsHonest (next r x) h = Step-IsHonest x (Reach-IsHonest r h)
