-- ===== src/Backpressure/Callers/Tests.antt =====
-- The theorems about the semaphore's callers at a small system: one call of Acquire, then a firing of
-- the ticker.
use catfish.Prelude.{ℕ, ◌+◌, ◌≤◌, ◌≡◌, ◌≢◌, refl, ◌⊎◌, none, some, List, [], ◌∷◌, arith}
use catfish.Prelude.Int.{pos}
use catfish.Backpressure.Waiter.{WaitError, admitted, wait, signalled, context_error}
use catfish.Backpressure.Semaphore.{
  Semaphore, Outcome, panics, refuses, grants, queues, acquire, release, default_options,
  new_semaphore, creates, background_tick,
}
use catfish.Backpressure.Semaphore.Start.{new_semaphore_lem}
use catfish.Backpressure.Callers.{
  System, Reach, start, next, grants_at_once, joins_queue, ticks, initial, owed, held,
}
use catfish.Backpressure.Callers.Tokens.{
  Runs, tokens_conserved, held-le-capacity, release_accepted, answers_true, honest,
}
use catfish.Backpressure.Callers.Lost.{lost_waiter}
use catfish.Backpressure.Callers.Overflown.{overflown, overflown-IsHonest, overflown-IsLost}

abbrev sizes : List ℕ
sizes = 2 ∷ 5 ∷ []

-- Three tokens, made at time 7.
abbrev small : Semaphore
small = (new_semaphore_lem default_options sizes 3 7 (omega arith) (omega arith)).0

small_made : new_semaphore default_options sizes (pos 3) 7 ≡ creates small
small_made = (new_semaphore_lem default_options sizes 3 7 (omega arith) (omega arith)).1

-- Acquire of one token at the highest priority, whatever it answers.
stepped : (o : Outcome) → acquire 8 1 (pos 0) small ≡ o → (t : System) × Reach (initial small) t
stepped (panics e) p = (initial small, start)
stepped (refuses e) p = (initial small, start)
stepped (grants t) p = (_, next start (grants_at_once 8 1 (pos 0) p))
stepped (queues t a) p = (_, next start (joins_queue 8 1 (pos 0) a p))

ticked : (t : System) × Reach (initial small) t
ticked = let (t, r) = stepped (acquire 8 1 (pos 0) small) refl in (_, next r (ticks 9))

abbrev small_run : Runs default_options sizes 3 ticked.0
small_run = record {
  now = 7;
  sem = small;
  interval = omega arith;
  positive = omega arith;
  made = small_made;
  reached = ticked.1;
}

tokens_conserved_example :
    ticked.0.sem.outstanding + ticked.0.returned ≡ ticked.0.granted + owed ticked.0.sem.store
tokens_conserved_example = tokens_conserved small_run

held-le-capacity_example : held ticked.0 ≤ 3
held-le-capacity_example = held-le-capacity small_run

release_accepted_example : (s : Semaphore) × (release 9 0 ticked.0.sem ≡ grants s)
release_accepted_example = release_accepted small_run 9 0 (omega arith)

answers_true_example :
    (ticked.0.answers 1 ≡ some none → (ticked.0.sem.store.at 1).state ≡ admitted)
    × ((e : WaitError)
        → ticked.0.answers 1 ≡ some (some e)
        → (ticked.0.sem.store.at 1).state ≢ admitted)
answers_true_example = answers_true small_run 1

abbrev new_run : Runs default_options sizes 3 (initial small)
new_run = record {
  now = 7;
  sem = small;
  interval = omega arith;
  positive = omega arith;
  made = small_made;
  reached = start;
}

-- A waiter of the new semaphore that no queue took, and a firing of the ticker.
abbrev without_room : System
without_room = overflown (initial small) 8 1 (honest new_run)

lost_waiter_example :
    let a = small.store.next in
    let t = record without_room { sem = background_tick 9 without_room.sem } in
    ((t.sem.store.at a).state ≢ admitted)
    × (((t.answers a ≡ none) × (wait signalled a t.sem.store ≡ none))
        ⊎ (t.answers a ≡ some (some context_error)))
lost_waiter_example =
    lost_waiter small.store.next (overflown-IsHonest (initial small) 8 1 (honest new_run))
      (overflown-IsLost (initial small) 8 1 (honest new_run)) (next start (ticks 9))
