-- ===== src/Backpressure/Semaphore/Order.antt =====
-- backpressure/semaphore.go: the order of the debts under the operations.
use Prim.Native.Nat.{min}
use catfish.Prelude.{
  ℕ, zero, suc, ◌+◌, ◌≤◌, ◌≡◌, refl, ◌∙◌, inl, inr, List, [], ◌∷◌, map, arith, ltb, Bool-cases,
}
use catfish.Prelude.Int.{ℤ, neg_ℕ}
use catfish.Deque.{len}
use catfish.Backpressure.Decay.{LinearDecay, get, add, floor, decayed}
use catfish.Backpressure.Waiter.{Store}
use catfish.Backpressure.Codel.{Codel, empty, reap}
use catfish.Backpressure.Semaphore.{
  SemaphoreError, capacity_nil, capacity_negative, already_closed, unbalance,
  invalid_priority_level, token_demand_too_large, Limits, scale, tokens, forgiven, Ticker, infinity,
  stopped, every, Level, Semaphore, Outcome, panics, refuses, grants, queues, can_admit, Bucket,
  pop_one, counted, admit_level, reap_all, Swept, sweep, higher_present, forgive_from,
  forgive_lower, penalize, penalize_lower, try_level, push_at, fast_path, slow_path, acquire_at,
  acquire, release, background_tick, close, level_index,
}
use catfish.Backpressure.Semaphore
use catfish.Backpressure.Semaphore.Rules.{
  admit_level_keeps, reaped, admit_fields, acquire_rule, acquire_at_rule,
}
use catfish.Backpressure.Semaphore.Debts.{
  IsDebt, RisesFrom, RisesFrom-later, weaken, get-IsDebt, forgive-IsDebt, penalize-IsDebt,
}

module _ (c : Limits) (now : ℕ) where
  forgive_from-Rises :
      (amount : ℕ) (ls : List Level) (prev : LinearDecay) (low low' : ℕ)
      → IsDebt c now prev
      → low ≤ decayed prev now
      → RisesFrom c now low' ls
      → (q : Codel)
      → let r = forgive_from now amount prev ls in
        RisesFrom c now low (record { queue = q; debt = r.0 } ∷ r.1)
  unfolding forgive_from
  forgive_from-Rises amount [] prev low low' k h r q = (k, h, tt)
  forgive_from-Rises amount (l ∷ ls) prev low low' k h r q =
      let (kg, vg) = get-IsDebt c now prev k in
      let (kd, hd) = forgive-IsDebt c now amount prev l.debt k r.0 in
      let d = floor now (get now prev).x (add now (neg_ℕ amount) l.debt) in
      (kg, rw vg h, rw vg (forgive_from-Rises amount ls d (decayed prev now) _ kd hd r.2 l.queue))

  forgive_lower-Rises :
      (amount p : ℕ) (ls : List Level) (low : ℕ)
      → RisesFrom c now low ls
      → RisesFrom c now low (forgive_lower now amount p ls)
  unfolding forgive_lower
  forgive_lower-Rises amount p [] low r = tt
  forgive_lower-Rises amount zero (l ∷ ls) low r =
      forgive_from-Rises amount ls l.debt low (decayed l.debt now) r.0 r.1 r.2 l.queue
  forgive_lower-Rises amount (suc p) (l ∷ ls) low r =
      (r.0, r.1, forgive_lower-Rises amount p ls (decayed l.debt now) r.2)

  penalize-Rises :
      (demand : ℕ) (ls : List Level) (low : ℕ)
      → RisesFrom c now low ls
      → RisesFrom c now
          (min (low + tokens c demand) (tokens c c.capacity))
          (map (penalize c now demand) ls)
  penalize-Rises demand [] low r = tt
  penalize-Rises demand (l ∷ ls) low r =
      let (kd, v) = penalize-IsDebt c now demand l r.0 in
      (kd, rw v (omega (arith, r.1)), rw v (penalize-Rises demand ls (decayed l.debt now) r.2))

  penalize_lower-Rises :
      (demand p : ℕ) (ls : List Level) (low : ℕ)
      → RisesFrom c now low ls
      → RisesFrom c now low (penalize_lower c now demand p ls)
  unfolding penalize_lower
  penalize_lower-Rises demand p [] low r = tt
  penalize_lower-Rises demand zero (l ∷ ls) low r = (
    r.0,
    r.1,
    weaken c now _ (decayed l.debt now) (map (penalize c now demand) ls)
        (omega (arith, r.0.bounded, r.0.top)) (penalize-Rises demand ls (decayed l.debt now) r.2),
  )
  penalize_lower-Rises demand (suc p) (l ∷ ls) low r =
      (r.0, r.1, penalize_lower-Rises demand p ls (decayed l.debt now) r.2)

  try_level-Rises :
      (out demand p : ℕ) (ls : List Level) (low : ℕ)
      → RisesFrom c now low ls
      → RisesFrom c now low (try_level c now out demand p ls).0
  unfolding try_level can_admit
  try_level-Rises out demand p [] low r = tt
  try_level-Rises out demand zero (l ∷ ls) low r =
      let (k, v) = get-IsDebt c now l.debt r.0 in (k, rw v r.1, rw v r.2)
  try_level-Rises out demand (suc p) (l ∷ ls) low r =
      (r.0, r.1, try_level-Rises out demand p ls (decayed l.debt now) r.2)

  push_at-Rises :
      (a p : ℕ) (ls : List Level) (low : ℕ)
      → RisesFrom c now low ls
      → RisesFrom c now low (push_at a now p ls)
  unfolding push_at
  push_at-Rises a p [] low r = tt
  push_at-Rises a zero (l ∷ ls) low r = r
  push_at-Rises a (suc p) (l ∷ ls) low r = (r.0, r.1, push_at-Rises a p ls (decayed l.debt now) r.2)

  reap_all-Rises :
      (ls : List Level) (s : Store) (low : ℕ)
      → RisesFrom c now low ls
      → RisesFrom c now low (reap_all now ls s).0
  unfolding reap_all
  reap_all-Rises [] s low r = tt
  reap_all-Rises (l ∷ ls) s low r =
      (r.0, r.1, reap_all-Rises ls (reap now l.queue s).1 (decayed l.debt now) r.2)

  abbrev Keeps : ℕ → Bucket → Type 0
  Keeps v b = IsDebt c now b.level.debt × (decayed b.level.debt now ≡ v)

  admit_level-Keeps : (v f : ℕ) (b : Bucket) → Keeps v b → Keeps v (admit_level f c now b)
  unfolding can_admit pop_one
  admit_level-Keeps v =
      admit_level_keeps (Keeps v) c now
        (λ b demand k. let (k', e) = get-IsDebt c now b.level.debt k.0 in (k', e ∙ k.1))
        (λ b demand k _ _. let (k', e) = get-IsDebt c now b.level.debt k.0 in (k', e ∙ k.1))

  sweep-Rises :
      (ls : List Level) (out : ℕ) (s : Store) (low : ℕ)
      → RisesFrom c now low ls
      → RisesFrom c now low (sweep c now ls out s).levels
  unfolding sweep
  sweep-Rises [] out s low r = tt
  sweep-Rises (l ∷ ls) out s low r =
      let f = len l.queue.items in
      let b0 : Bucket = record { level = l; outstanding = out; store = s } in
      let b = admit_level f c now b0 in
      let (k, v) = admit_level-Keeps (decayed l.debt now) f b0 (r.0, refl) in
      elim (Bool-cases (empty b.level.queue)) [
        | inl e ↦
            rw e (k, rw v r.1, rw v (sweep-Rises ls b.outstanding b.store (decayed l.debt now) r.2))
        | inr e ↦ rw e (k, rw v r.1, rw v r.2)
      ]

-- The debts at time `t`: each within 0 and the capacity, none below that of a higher priority.
abbrev pub IsOrdered : ℕ → Semaphore → Type 0
IsOrdered t s = RisesFrom s.limits t 0 s.levels

admit-IsOrdered :
    (now : ℕ) (s : Semaphore) → IsOrdered now s → IsOrdered now (Semaphore.admit now s)
admit-IsOrdered now s r =
    let f = admit_fields now s in
    rw (f.0, f.2)
      (sweep-Rises s.limits now (reaped now s).0 s.outstanding (reaped now s).1 0
        (reap_all-Rises s.limits now s.levels s.store 0 r))

-- An outcome whose semaphore, if it has one, satisfies `P`.
abbrev pub Leaves : (Semaphore → Type 0) → Outcome → Type 0
Leaves P (panics e) = Unit
Leaves P (refuses e) = Unit
Leaves P (grants s) = P s
Leaves P (queues s a) = P s

slow_path-IsOrdered :
    (now demand p : ℕ) (s : Semaphore)
    → IsOrdered now s
    → Leaves (IsOrdered now) (slow_path now demand p s)
unfolding slow_path
slow_path-IsOrdered now demand p s r = admit-IsOrdered now _ (
    push_at-Rises s.limits now s.store.next p _ 0
      (penalize_lower-Rises s.limits now demand p s.levels 0 r))

fast_path-IsOrdered :
    (now demand p : ℕ) (s : Semaphore)
    → IsOrdered now s
    → Leaves (IsOrdered now) (fast_path now demand p s)
unfolding fast_path
fast_path-IsOrdered now demand p s r =
    elim (Bool-cases (ltb s.limits.capacity (s.outstanding + demand))) [
      | inl e ↦ rw e tt
      | inr e ↦ rw e (forgive_lower-Rises s.limits now (forgiven s.limits demand) p s.levels 0 r)
    ]

-- If at time `t` the debts lie within the capacity and none is below that of a higher priority,
-- an `Acquire` at a time not before `t` leaves them so at its own time, on every branch.
pub acquire-IsOrdered :
    (t now demand : ℕ) (priority : ℤ) (s : Semaphore)
    → t ≤ now
    → IsOrdered t s
    → Leaves (IsOrdered now) (acquire now demand priority s)
acquire-IsOrdered t now demand priority s h r0 =
    let r = RisesFrom-later s.limits t now s.levels h r0 in
    acquire_rule (Leaves (IsOrdered now)) now demand priority s tt tt (λ e. tt)
      λ p _ _.
        let m = try_level s.limits now s.outstanding demand p s.levels in
        let k = try_level-Rises s.limits now s.outstanding demand p s.levels 0 r in
        acquire_at_rule (Leaves (IsOrdered now)) now demand p s
          (λ _. slow_path-IsOrdered now demand p s r)
          (λ _ _. fast_path-IsOrdered now demand p (record s { levels = m.0 }) k)
          (λ _ _. slow_path-IsOrdered now demand p (record s { levels = m.0 }) k)

-- If at time `t` the debts lie within the capacity and none is below that of a higher priority,
-- a `Release` at a time not before `t` leaves them so at its own time.
pub release-IsOrdered :
    (t now n : ℕ) (s : Semaphore)
    → t ≤ now
    → IsOrdered t s
    → Leaves (IsOrdered now) (release now n s)
unfolding release
release-IsOrdered t now n s h r = elim (Bool-cases (ltb s.outstanding n)) [
  | inl e ↦ rw e tt
  | inr e ↦ rw e (admit-IsOrdered now _ (RisesFrom-later s.limits t now s.levels h r))
]
