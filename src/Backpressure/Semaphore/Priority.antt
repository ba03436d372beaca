-- ===== src/Backpressure/Semaphore/Priority.antt =====
-- backpressure/semaphore.go: the order in which `admit` serves the levels.
use native.Mathlib.Nat.{le_of_eq}
use catfish.Prelude.{
  ℕ, ◌≡◌, sym, inl, inr, true, false, not, some, List, [], ◌∷◌, if◌then◌else◌, Bool-cases,
}
use catfish.Deque.{len}
use catfish.Deque.Refine.{contents}
use catfish.Backpressure.Waiter.{Store}
use catfish.Backpressure.Codel.{empty, peek, nil}
use catfish.Backpressure.Codel.View.{Lists-len}
use catfish.Backpressure.Semaphore.{
  SemaphoreError, capacity_nil, capacity_negative, already_closed, unbalance,
  invalid_priority_level, token_demand_too_large, Limits, scale, tokens, forgiven, Ticker, infinity,
  stopped, every, Level, Semaphore, Outcome, panics, refuses, grants, queues, can_admit, Bucket,
  pop_one, counted, admit_level, reap_all, Swept, sweep, higher_present, forgive_from,
  forgive_lower, penalize, penalize_lower, try_level, push_at, fast_path, slow_path, acquire_at,
  acquire, release, background_tick, close, level_index,
}
use catfish.Backpressure.Semaphore
use catfish.Backpressure.Codel.View.{Shows-contents}
use catfish.Backpressure.Semaphore.Levels.{
  AllSound, IsSettled, drained, held, admit_level-IsSettled,
}

-- How the outer loop leaves the levels `ls` as `ms`: it drains the levels one by one, up to a level
-- whose next waiter does not pass the debt test, and below that level it changes nothing.
pub data Serves (c : Limits) (now out : ℕ) (s : Store) : List Level → List Level → Type 0 where
  all_drained : Serves c now out s [] []
  drains :
      {l m : Level} {ls ms : List Level}
      → empty m.queue ≡ true
      → Serves c now out s ls ms
      → Serves c now out s (l ∷ ls) (m ∷ ms)
  stops :
      {l m : Level} {ls : List Level} (demand : ℕ)
      → empty m.queue ≡ false
      → peek s m.queue ≡ some demand
      → (can_admit c now out demand m.debt).1 ≡ false
      → Serves c now out s (l ∷ ls) (m ∷ ls)

pub sweep-Serves :
    (c : Limits) (now : ℕ) (ls : List Level) (out : ℕ) (s : Store)
    → AllSound ls
    → let w = sweep c now ls out s in Serves c now w.outstanding w.store ls w.levels
unfolding sweep
sweep-Serves c now [] out s v = all_drained
sweep-Serves c now (l ∷ ls) out s v =
    let f = len l.queue.items in
    let b0 : Bucket = record { level = l; outstanding = out; store = s } in
    let h = Shows-contents l.queue v.0 in
    go (λ out s. sweep-Serves c now ls out s v.1) (admit_level f c now b0)
      (admit_level-IsSettled c now f b0 (contents nil l.queue.items) (le_of_eq (sym (Lists-len h)))
        h)
  where
    go :
        ((out : ℕ) (s : Store)
          → let w = sweep c now ls out s in Serves c now w.outstanding w.store ls w.levels)
        → (b : Bucket) → IsSettled c now b
        → let rest = sweep c now ls b.outstanding b.store in
          let w =
            if not (empty b.level.queue)
            then record {
              levels = b.level ∷ ls;
              outstanding = b.outstanding;
              store = b.store;
              all_empty = false;
            }
            else record rest { levels = b.level ∷ rest.levels } in
          Serves c now w.outstanding w.store (l ∷ ls) w.levels
    go ih b (drained e) = rw e (drains e (ih b.outstanding b.store))
    go ih b (held demand e stop) = elim (Bool-cases (empty b.level.queue)) [
      | inl y ↦ rw y (drains y (ih b.outstanding b.store))
      | inr n ↦ rw n (stops demand n e stop)
    ]
