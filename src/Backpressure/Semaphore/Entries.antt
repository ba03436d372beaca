-- ===== src/Backpressure/Semaphore/Entries.antt =====
-- backpressure/semaphore.go: how a caller of `Acquire` gets its tokens or joins a queue.
use catfish.Prelude.{
  ℕ, zero, suc, ◌+◌, ◌-◌, ◌≡◌, refl, subst, ◌⊎◌, inl, inr, List, [], ◌∷◌, length, ltb, ◌==◌,
  Bool-cases,
}
use catfish.Prelude.Int.{ℤ}
use catfish.Deque.Inv.{IsValid}
use catfish.Deque.Refine.{bound}
use catfish.Backpressure.Waiter.{alloc, new_waiter}
use catfish.Backpressure.Codel.{push, nil}
use catfish.Backpressure.Codel.View.{push-Shows}
use catfish.Backpressure.Semaphore.{
  Limits, forgiven, Level, Semaphore, Outcome, panics, refuses, grants, queues, penalize_lower,
  try_level, push_at, fast_path, slow_path, acquire, release, background_tick,
}
use catfish.Deque.Bounded
use catfish.Backpressure.Codel.View.{Shows-contents}
use catfish.Backpressure.Semaphore.Rules.{admit_fields, acquire_rule, acquire_at_rule}
use catfish.Backpressure.Semaphore.Levels.{AllSound}
use catfish.Backpressure.Semaphore.Invariant.{
  SameQueues, SameQueues-refl, SameQueues-sound, SameQueues-trans, forgive_lower-SameQueues,
  penalize_lower-SameQueues, try_level-SameQueues, push_at_sound,
}
use catfish.Backpressure.Semaphore.Moves.{
  Removes, Removes-right, Removes-left, Removes-end, Moves, queued_in, queued,
}
use catfish.Backpressure.Semaphore.Removals.{admit-Moves}

pub SameQueues-queued : (ls ms : List Level) → SameQueues ls ms → queued ms ≡ queued ls
SameQueues-queued [] [] q = refl
SameQueues-queued [] (m ∷ ms) q = absurd q
SameQueues-queued (l ∷ ls) [] q = absurd q
SameQueues-queued (l ∷ ls) (m ∷ ms) q = rw (q.0, SameQueues-queued ls ms q.1)

-- `ps` is `qs`, or `qs` with `a` added.
abbrev pub Joins : ℕ → List ℕ → List ℕ → Type 0
Joins a ps qs = (ps ≡ qs) ⊎ Removes a ps qs

push-Joins :
    (a now : ℕ) (l : Level)
    → IsValid l.queue.items
    → Joins a (queued_in (push a now l.queue)) (queued_in l.queue)
unfolding Bounded.push_back
push-Joins a now l v =
    let h = push-Shows l.queue a now (Shows-contents l.queue v) in
    let q = queued_in l.queue in
    elim (Bool-cases (length q == bound nil l.queue.items)) [
      | inl e ↦ inl ((rw e at h).items)
      | inr e ↦ inr (rw (rw e at h).items (Removes-end a q))
    ]

push_at-Joins :
    (a now p : ℕ) (ls : List Level)
    → AllSound ls
    → Joins a (queued (push_at a now p ls)) (queued ls)
unfolding push_at
push_at-Joins a now p [] v = inl refl
push_at-Joins a now zero (l ∷ ls) v = elim (push-Joins a now l v.0) [
  | inl e ↦ inl (rw e)
  | inr m ↦ inr (Removes-right (queued ls) m)
]
push_at-Joins a now (suc p) (l ∷ ls) v = elim (push_at-Joins a now p ls v.1) [
  | inl e ↦ inl (rw e)
  | inr m ↦ inr (Removes-left (queued_in l.queue) m)
]

-- How an outcome of `Acquire` of `demand` tokens follows from the state: granted at once, with the
-- waiters as they were, or with a new waiter, queued unless its queue was full, and then `admit`.
abbrev pub Enters : ℕ → ℕ → Semaphore → Outcome → Type 0
Enters now demand s (panics e) = Unit
Enters now demand s (refuses e) = Unit
Enters now demand s (grants t) =
    (queued t.levels ≡ queued s.levels)
    × (t.store ≡ s.store)
    × (t.outstanding ≡ s.outstanding + demand)
Enters now demand s (queues t a) =
    (a ≡ s.store.next)
    × (ps : List ℕ) × Joins a ps (queued s.levels)
    × Moves ps (alloc (new_waiter now demand) s.store) s.outstanding (queued t.levels) t.store
        t.outstanding

fast_path-Enters :
    (now demand p : ℕ) (s : Semaphore) (ls : List Level)
    → SameQueues s.levels ls
    → Enters now demand s (fast_path now demand p (record s { levels = ls }))
unfolding fast_path
fast_path-Enters now demand p s ls q =
    elim (Bool-cases (ltb s.limits.capacity (s.outstanding + demand))) [
      | inl e ↦ rw e tt
      | inr e ↦ rw e (
        SameQueues-queued s.levels _ (
            SameQueues-trans s.levels ls _ q
              (forgive_lower-SameQueues now (forgiven s.limits demand) p ls)),
        refl,
        refl,
      )
    ]

slow_path-Enters :
    (now demand p : ℕ) (s : Semaphore) (ls : List Level)
    → AllSound s.levels
    → SameQueues s.levels ls
    → Enters now demand s (slow_path now demand p (record s { levels = ls }))
unfolding slow_path
slow_path-Enters now demand p s ls v q =
    let ms = penalize_lower s.limits now demand p ls in
    let q' =
      SameQueues-trans s.levels ls ms q (penalize_lower-SameQueues s.limits now demand p ls) in
    let v' = SameQueues-sound s.levels ms q' v in
    (
      refl,
      queued (push_at s.store.next now p ms),
      subst (Joins s.store.next (queued (push_at s.store.next now p ms)))
          (SameQueues-queued s.levels ms q') (push_at-Joins s.store.next now p ms v'),
      admit-Moves now _ (push_at_sound s.store.next now p ms v'),
    )

pub acquire-Enters :
    (now demand : ℕ) (priority : ℤ) (s : Semaphore)
    → AllSound s.levels
    → Enters now demand s (acquire now demand priority s)
acquire-Enters now demand priority s v =
    acquire_rule (Enters now demand s) now demand priority s tt tt (λ e. tt)
      λ p _ _.
        let r = try_level s.limits now s.outstanding demand p s.levels in
        let q = try_level-SameQueues s.limits now s.outstanding demand p s.levels in
        acquire_at_rule (Enters now demand s) now demand p s
          (λ _. slow_path-Enters now demand p s s.levels v (SameQueues-refl s.levels))
          (λ _ _. fast_path-Enters now demand p s r.0 q)
          (λ _ _. slow_path-Enters now demand p s r.0 v q)

-- No operation changes the limits.
abbrev pub Limited : Limits → Outcome → Type 0
Limited c (panics e) = Unit
Limited c (refuses e) = Unit
Limited c (grants t) = t.limits ≡ c
Limited c (queues t a) = t.limits ≡ c

fast_path-Limited : (now demand p : ℕ) (s : Semaphore) → Limited s.limits (fast_path now demand p s)
unfolding fast_path
fast_path-Limited now demand p s =
    elim (Bool-cases (ltb s.limits.capacity (s.outstanding + demand))) [
      | inl e ↦ rw e tt
      | inr e ↦ rw e refl
    ]

slow_path-Limited : (now demand p : ℕ) (s : Semaphore) → Limited s.limits (slow_path now demand p s)
unfolding slow_path
slow_path-Limited now demand p s = (admit_fields now _).0

pub acquire-Limited :
    (now demand : ℕ) (priority : ℤ) (s : Semaphore)
    → Limited s.limits (acquire now demand priority s)
acquire-Limited now demand priority s =
    acquire_rule (Limited s.limits) now demand priority s tt tt (λ e. tt)
      λ p _ _.
        let r = try_level s.limits now s.outstanding demand p s.levels in
        acquire_at_rule (Limited s.limits) now demand p s (λ _. slow_path-Limited now demand p s)
          (λ _ _. fast_path-Limited now demand p (record s { levels = r.0 }))
          (λ _ _. slow_path-Limited now demand p (record s { levels = r.0 }))

pub release-Limited : (now n : ℕ) (s : Semaphore) → Limited s.limits (release now n s)
unfolding release
release-Limited now n s = elim (Bool-cases (ltb s.outstanding n)) [
  | inl e ↦ rw e tt
  | inr e ↦ rw e (admit_fields now (record s { outstanding = s.outstanding - n })).0
]

pub tick-Limited : (now : ℕ) (s : Semaphore) → (background_tick now s).limits ≡ s.limits
unfolding background_tick
tick-Limited now s = (admit_fields now s).0
