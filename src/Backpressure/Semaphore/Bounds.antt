-- ===== src/Backpressure/Semaphore/Bounds.antt =====
-- backpressure/semaphore.go: the number of tokens out under the operations.
use catfish.Prelude.{ℕ, zero, suc, ◌+◌, ◌≤◌, ◌<◌, ◌≡◌, ◌≢◌, true, List, [], ◌∷◌, arith}
use catfish.Prelude.Int.{ℤ}
use catfish.Deque.{len}
use catfish.Backpressure.Waiter.{Store}
use catfish.Backpressure.Semaphore.{
  SemaphoreError, capacity_nil, capacity_negative, already_closed, unbalance,
  invalid_priority_level, token_demand_too_large, Limits, scale, tokens, forgiven, Ticker, infinity,
  stopped, every, Level, Semaphore, Outcome, panics, refuses, grants, queues, can_admit, Bucket,
  pop_one, counted, admit_level, reap_all, Swept, sweep, higher_present, forgive_from,
  forgive_lower, penalize, penalize_lower, try_level, push_at, fast_path, slow_path, acquire_at,
  acquire, background_tick, close, level_index,
}
use catfish.Backpressure.Semaphore
use catfish.Backpressure.Semaphore.Rules.{
  checked, admit_level_keeps, can_admit-room, reaped, admit_fields, acquire_rule, acquire_at_rule,
}

-- `NewSemaphore` with a positive decay interval gives such limits.
abbrev pub IsScaled : Limits → Type 0
IsScaled c = 0 < scale c

abbrev pub IsWithin : Semaphore → Type 0
IsWithin s = s.outstanding ≤ s.limits.capacity

module _ (c : Limits) (now : ℕ) (h : IsScaled c) where
  abbrev Fits : Bucket → Type 0
  Fits b = b.outstanding ≤ c.capacity

  pop_one-Fits :
      (b : Bucket) (demand : ℕ) → b.outstanding + demand ≤ c.capacity → Fits (pop_one now demand b)
  unfolding pop_one
  pop_one-Fits b demand k = ground arith

  pub admit_level-Fits : (f : ℕ) (b : Bucket) → Fits b → Fits (admit_level f c now b)
  admit_level-Fits =
      admit_level_keeps Fits c now (λ b demand k. k)
        (λ b demand k e go.
          pop_one-Fits (checked c now demand b) demand
            (can_admit-room c now b.outstanding demand b.level.debt h go))

  pub sweep-within :
      (ls : List Level) (out : ℕ) (s : Store)
      → out ≤ c.capacity
      → (sweep c now ls out s).outstanding ≤ c.capacity
  unfolding sweep
  sweep-within [] out s k = k
  sweep-within (l ∷ ls) out s k =
      let start : Bucket = record { level = l; outstanding = out; store = s } in
      let b = admit_level (len l.queue.items) c now start in
      let kb = admit_level-Fits (len l.queue.items) start k in
      ground (arith, kb, sweep-within ls b.outstanding b.store kb)

pub admit-IsWithin :
    (now : ℕ) (s : Semaphore) → IsScaled s.limits → IsWithin s → IsWithin (Semaphore.admit now s)
admit-IsWithin now s h k =
    let f = admit_fields now s in
    rw (f.0, f.1) (sweep-within s.limits now h (reaped now s).0 s.outstanding (reaped now s).1 k)

-- An outcome that leaves the semaphore in a state with `P`, and is not the panic over its balance.
abbrev pub Ensures : (Semaphore → Type 0) → Outcome → Type 0
Ensures P (panics e) = e ≢ unbalance
Ensures P (refuses e) = Unit
Ensures P (grants s) = P s
Ensures P (queues s a) = P s

pub try_level-room :
    (c : Limits) (now out demand p : ℕ) (ls : List Level)
    → IsScaled c
    → (try_level c now out demand p ls).1 ≡ true
    → out + demand ≤ c.capacity
unfolding try_level
try_level-room c now out demand p [] h e = cc
try_level-room c now out demand zero (l ∷ ls) h e = can_admit-room c now out demand l.debt h e
try_level-room c now out demand (suc p) (l ∷ ls) h e = try_level-room c now out demand p ls h e

pub fast_path-IsWithin :
    (now demand p : ℕ) (s : Semaphore)
    → s.outstanding + demand ≤ s.limits.capacity
    → Ensures IsWithin (fast_path now demand p s)
unfolding fast_path
fast_path-IsWithin now demand p s h = ground arith

slow_path-IsWithin :
    (now demand p : ℕ) (s : Semaphore)
    → IsScaled s.limits
    → IsWithin s
    → Ensures IsWithin (slow_path now demand p s)
unfolding slow_path
slow_path-IsWithin now demand p s h k = admit-IsWithin now _ h k

-- `Acquire` never gives out more than the capacity, so its last check, which panics, never fires.
pub acquire-IsWithin :
    (now demand : ℕ) (priority : ℤ) (s : Semaphore)
    → IsScaled s.limits
    → IsWithin s
    → Ensures IsWithin (acquire now demand priority s)
acquire-IsWithin now demand priority s h k =
    acquire_rule (Ensures IsWithin) now demand priority s (λ e. cc) (λ e. cc) (λ e. tt)
      λ p _ _.
        let r = try_level s.limits now s.outstanding demand p s.levels in
        acquire_at_rule (Ensures IsWithin) now demand p s
          (λ _. slow_path-IsWithin now demand p s h k)
          (λ _ e.
            fast_path-IsWithin now demand p (record s { levels = r.0 })
              (try_level-room s.limits now s.outstanding demand p s.levels h e))
          (λ _ _. slow_path-IsWithin now demand p (record s { levels = r.0 }) h k)
