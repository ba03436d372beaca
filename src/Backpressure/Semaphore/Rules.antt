-- ===== src/Backpressure/Semaphore/Rules.antt =====
-- Rules for the inner loop of `admit` and for the branches of `Acquire`, which the proofs about every
-- invariant share.
use native.Mathlib.Nat.{le_of_mul-le-mul_right}
use catfish.Prelude.{
  ℕ, zero, suc, ◌+◌, ◌*◌, ◌≤◌, ◌<◌, ◌≡◌, refl, inl, inr, Bool, true, false, ◌&&◌, some, List, arith,
  ltb, ◌==◌, Bool-cases, Option-cases, leb→le,
}
use catfish.Prelude.Int.{ℤ}
use catfish.Backpressure.Decay.{LinearDecay, get}
use catfish.Backpressure.Waiter.{Store}
use catfish.Backpressure.Codel.{peek, nil}
use catfish.Backpressure.Semaphore.{
  SemaphoreError, capacity_nil, capacity_negative, already_closed, unbalance,
  invalid_priority_level, token_demand_too_large, Limits, scale, tokens, forgiven, Ticker, infinity,
  stopped, every, Level, Semaphore, Outcome, panics, refuses, grants, queues, can_admit, Bucket,
  pop_one, counted, admit_level, reap_all, Swept, sweep, higher_present, forgive_from,
  forgive_lower, penalize, penalize_lower, try_level, push_at, fast_path, slow_path, acquire_at,
  acquire, release, background_tick, close, level_index,
}
use catfish.Backpressure.Semaphore

-- The level as `canAdmit` leaves it.
abbrev pub checked : Limits → ℕ → ℕ → Bucket → Bucket
checked c now demand b = record b {
  level = record (b.level) { debt = (can_admit c now b.outstanding demand b.level.debt).0 };
}

abbrev pub passes : Limits → ℕ → ℕ → Bucket → Bool
passes c now demand b = (can_admit c now b.outstanding demand b.level.debt).1

-- What every check and every admitted pop keeps, the loop keeps.
pub admit_level_keeps {ℓ} :
    (P : Bucket → Type ℓ) (c : Limits) (now : ℕ)
    → ((b : Bucket) (demand : ℕ) → P b → P (checked c now demand b))
    → ((b : Bucket) (demand : ℕ)
        → P b
        → peek b.store b.level.queue ≡ some demand
        → passes c now demand b ≡ true
        → P (pop_one now demand (checked c now demand b)))
    → (f : ℕ) (b : Bucket) → P b
    → P (admit_level f c now b)
unfolding admit_level
admit_level_keeps P c now check pops zero b h = h
admit_level_keeps P c now check pops (suc f) b h =
    elim (Option-cases (peek b.store b.level.queue)) [
      | inl e ↦ rw (e, admit_level) h
      | inr (demand, e) ↦ elim (Bool-cases (passes c now demand b)) [
        | inl go ↦
            rw (e, go, admit_level)
              (admit_level_keeps P c now check pops f (pop_one now demand (checked c now demand b))
                (pops b demand h e go))
        | inr stop ↦ rw (e, stop, admit_level) (check b demand h)
      ]
    ]

-- The debt test leaves room for the tokens.
pub can_admit-room :
    (c : Limits) (now out demand : ℕ) (d : LinearDecay)
    → 0 < scale c
    → (can_admit c now out demand d).1 ≡ true
    → out + demand ≤ c.capacity
unfolding can_admit
can_admit-room c now out demand d h e = le_of_mul-le-mul_right {k = scale c} (room (leb→le _ _ e)) h
  where
    room :
        (get now d).x + tokens c demand + tokens c out ≤ tokens c c.capacity
        → (out + demand) * scale c ≤ c.capacity * scale c
    room k = omega arith

-- The parts of the state after `admit`.
module _ (now : ℕ) (s : Semaphore) where
  abbrev pub reaped : List Level × Store
  reaped = reap_all now s.levels s.store

  abbrev pub swept : Swept
  swept = sweep s.limits now reaped.0 s.outstanding reaped.1

  pub admit_fields :
      ((Semaphore.admit now s).limits ≡ s.limits)
      × ((Semaphore.admit now s).outstanding ≡ swept.outstanding)
      × ((Semaphore.admit now s).levels ≡ swept.levels)
      × ((Semaphore.admit now s).store ≡ swept.store)
      × ((Semaphore.admit now s).is_closed ≡ s.is_closed)
  unfolding Semaphore.admit
  admit_fields = elim (Bool-cases (swept.all_empty && s.has_waiters)) [
    | inl e ↦ rw e (refl, refl, refl, refl, refl)
    | inr e ↦ rw e (refl, refl, refl, refl, refl)
  ]

-- The branches of `Acquire` after its checks: the debt is read only if no queue up to the level waits.
pub acquire_at_rule {ℓ} :
    (Q : Outcome → Type ℓ) (now demand p : ℕ) (s : Semaphore)
    → let r = try_level s.limits now s.outstanding demand p s.levels in
      (higher_present s.levels p ≡ true → Q (slow_path now demand p s))
      → (higher_present s.levels p ≡ false
          → r.1 ≡ true
          → Q (fast_path now demand p (record s { levels = r.0 })))
      → (higher_present s.levels p ≡ false
          → r.1 ≡ false
          → Q (slow_path now demand p (record s { levels = r.0 })))
      → Q (acquire_at now demand p s)
unfolding acquire_at
acquire_at_rule Q now demand p s busy granted blocked =
    elim (Bool-cases (higher_present s.levels p)) [
      | inl e ↦ rw e (busy e)
      | inr e ↦ elim (Bool-cases (try_level s.limits now s.outstanding demand p s.levels).1) [
        | inl e' ↦ rw (e, e') (granted e e')
        | inr e' ↦ rw (e, e') (blocked e e')
      ]
    ]

-- The checks of `Acquire`, in their order.
pub acquire_rule {ℓ} :
    (Q : Outcome → Type ℓ) (now demand : ℕ) (priority : ℤ) (s : Semaphore)
    → Q (panics already_closed)
    → Q (panics capacity_nil)
    → ((e : SemaphoreError) → Q (refuses e))
    → ((p : ℕ)
        → level_index priority s.levels ≡ some p
        → demand ≤ s.limits.capacity
        → Q (acquire_at now demand p s))
    → Q (acquire now demand priority s)
unfolding acquire
acquire_rule Q now demand priority s closed nil refused go = elim (Bool-cases s.is_closed) [
  | inl e ↦ rw e closed
  | inr e ↦ elim (Bool-cases (s.limits.capacity == 0)) [
    | inl e' ↦ rw (e, e') nil
    | inr e' ↦ elim (Option-cases (level_index priority s.levels)) [
      | inl n ↦ rw (e, e', n) (refused invalid_priority_level)
      | inr (p, n) ↦ elim (Bool-cases (ltb s.limits.capacity demand)) [
        | inl m ↦ rw (e, e', n, m) (refused token_demand_too_large)
        | inr m ↦ rw (e, e', n, m) (go p n (ground arith))
      ]
    ]
  ]
]
