-- ===== src/Backpressure/Semaphore/Waiting.antt =====
-- backpressure/semaphore.go: `hasWaiters` and the reap ticker against the queues.
use catfish.Prelude.{
  ℕ, ◌≡◌, refl, inl, inr, Bool, true, false, not, ◌&&◌, List, [], ◌∷◌, arith, if◌then◌else◌,
  Bool-cases,
}
use catfish.Deque.{len}
use catfish.Backpressure.Waiter.{Store}
use catfish.Backpressure.Codel.{empty, reap}
use catfish.Backpressure.Semaphore.{
  SemaphoreError, capacity_nil, capacity_negative, already_closed, unbalance,
  invalid_priority_level, token_demand_too_large, Limits, scale, tokens, forgiven, Ticker, infinity,
  stopped, every, Level, Semaphore, Outcome, panics, refuses, grants, queues, can_admit, Bucket,
  pop_one, counted, admit_level, reap_all, Swept, sweep, higher_present, forgive_from,
  forgive_lower, penalize, penalize_lower, try_level, push_at, fast_path, slow_path, acquire_at,
  acquire, release, background_tick, close, level_index,
}
use catfish.Backpressure.Semaphore
use catfish.Backpressure.Codel.View.{Shows-contents, Shows-nil, empty-true, len_of_empty}
use catfish.Backpressure.Codel.Reap.{reap_nil}
use catfish.Backpressure.Semaphore.Rules.{reaped}
use catfish.Backpressure.Semaphore.Levels.{AllSound, all_empty}

pub and_split : (a b : Bool) → (a && b) ≡ true → (a ≡ true) × (b ≡ true)
and_split a b e = ground arith

-- `admit` finds all queues empty exactly when they are.
sweep-all_empty :
    (c : Limits) (now : ℕ) (ls : List Level) (out : ℕ) (s : Store)
    → all_empty (sweep c now ls out s).levels ≡ (sweep c now ls out s).all_empty
unfolding sweep
sweep-all_empty c now [] out s = refl
sweep-all_empty c now (l ∷ ls) out s =
    let b =
      admit_level (len l.queue.items) c now (record { level = l; outstanding = out; store = s }) in
    ground (arith, sweep-all_empty c now ls b.outstanding b.store)

-- Levels with empty queues stay so.
sweep_empty :
    (c : Limits) (now : ℕ) (ls : List Level) (out : ℕ) (s : Store)
    → all_empty ls ≡ true
    → (sweep c now ls out s).all_empty ≡ true
unfolding sweep admit_level
sweep_empty c now [] out s e = refl
sweep_empty c now (l ∷ ls) out s e =
    let (e0, e1) = and_split (empty l.queue) (all_empty ls) e in
    rw (len_of_empty l.queue e0, e0) (sweep_empty c now ls out s e1)

reap_all_empty :
    (now : ℕ) (ls : List Level) (s : Store)
    → AllSound ls
    → all_empty ls ≡ true
    → all_empty (reap_all now ls s).0 ≡ true
unfolding reap_all
reap_all_empty now [] s v e = refl
reap_all_empty now (l ∷ ls) s v e =
    let (e0, e1) = and_split (empty l.queue) (all_empty ls) e in
    let k = reap_nil l.queue s now (Shows-nil l.queue (Shows-contents l.queue v.0) e0) in
    rw (empty-true (reap now l.queue s).0 k.0) (reap_all_empty now ls (reap now l.queue s).1 v.1 e1)

pub record IsArmed (s : Semaphore) : Type 0 where
  pub truth : s.has_waiters ≡ not (all_empty s.levels)
  pub ticking : s.reap_ticker ≡ (if s.has_waiters then every s.limits.long_timeout else infinity)

pub admit-IsArmed :
    (now : ℕ) (s : Semaphore)
    → AllSound s.levels
    → (s.has_waiters ≡ false → all_empty s.levels ≡ true)
    → s.reap_ticker ≡ (if s.has_waiters then every s.limits.long_timeout else infinity)
    → IsArmed (Semaphore.admit now s)
unfolding Semaphore.admit
admit-IsArmed now s v h t =
    let found = sweep-all_empty s.limits now (reaped now s).0 s.outstanding (reaped now s).1 in
    elim (Bool-cases s.has_waiters) [
      | inl w ↦ record { truth = ground (arith, found); ticking = ground (arith, found) }
      | inr n ↦
          let e =
            sweep_empty s.limits now (reaped now s).0 s.outstanding (reaped now s).1
              (reap_all_empty now s.levels s.store v (h n)) in
          record { truth = ground (arith, found, e); ticking = ground (arith, found, e) }
    ]
