-- ===== src/Backpressure/Semaphore/Overflow.antt =====
-- backpressure/semaphore.go: Acquire where the queue of its priority is full.
use catfish.Prelude.{
  ℕ, zero, suc, ◌+◌, ◌≡◌, refl, sym, subst, ◌∙◌, inl, inr, List, [], ◌∷◌, length, ltb, ==-eq_true,
  Bool-cases, arith,
}
use catfish.Prelude.Int.{pos}
use catfish.Deque.Refine.{bound}
use catfish.Deque.Inv.{IsValid}
use catfish.Deque.Bounded
use catfish.Backpressure.Waiter.{alloc, new_waiter}
use catfish.Backpressure.Codel.{push, nil}
use catfish.Backpressure.Codel.View.{push-Shows, Shows-contents}
use catfish.Backpressure.Semaphore.{
  fast_path, Level, Semaphore, Outcome, panics, refuses, grants, queues, penalize_lower, try_level,
  push_at, slow_path, acquire, level_index,
}
use catfish.Backpressure.Semaphore.Rules.{acquire_rule, acquire_at_rule}
use catfish.Backpressure.Semaphore.Levels.{AllSound}
use catfish.Backpressure.Semaphore.Invariant.{
  SameQueues, SameQueues-refl, SameQueues-sound, SameQueues-trans, penalize_lower-SameQueues,
  try_level-SameQueues, push_at_sound,
}
use catfish.Backpressure.Semaphore.Moves.{Moves, queued_in, queued}
use catfish.Backpressure.Semaphore.Entries.{SameQueues-queued}
use catfish.Backpressure.Semaphore.Removals.{admit-Moves}

-- The queue of priority `p` has as many waiters as it can hold.
abbrev pub IsFullAt : ℕ → List Level → Type 0
IsFullAt p [] = ⊥
IsFullAt zero (l ∷ ls) = length (queued_in l.queue) ≡ bound nil l.queue.items
IsFullAt (suc p) (l ∷ ls) = IsFullAt p ls

push_full :
    (a now : ℕ) (l : Level)
    → IsValid l.queue.items
    → length (queued_in l.queue) ≡ bound nil l.queue.items
    → queued_in (push a now l.queue) ≡ queued_in l.queue
unfolding Bounded.push_back
push_full a now l v e =
    let h = push-Shows l.queue a now (Shows-contents l.queue v) in
    (rw (==-eq_true _ _ e) at h).items

push_at_full :
    (a now p : ℕ) (ls : List Level)
    → AllSound ls
    → IsFullAt p ls
    → queued (push_at a now p ls) ≡ queued ls
unfolding push_at
push_at_full a now p [] v f = absurd f
push_at_full a now zero (l ∷ ls) v f = rw (push_full a now l v.0 f)
push_at_full a now (suc p) (l ∷ ls) v f = rw (push_at_full a now p ls v.1 f)

SameQueues-IsFullAt :
    (p : ℕ) (ls ms : List Level) → SameQueues ls ms → IsFullAt p ls → IsFullAt p ms
SameQueues-IsFullAt p [] ms q f = absurd f
SameQueues-IsFullAt p (l ∷ ls) [] q f = absurd q
SameQueues-IsFullAt zero (l ∷ ls) (m ∷ ms) q f =
    let e : l.queue ≡ m.queue = q.0 in subst (λ c. length (queued_in c) ≡ bound nil c.items) e f
SameQueues-IsFullAt (suc p) (l ∷ ls) (m ∷ ms) q f = SameQueues-IsFullAt p ls ms q.1 f

-- Where Acquire queues a waiter, the waiter is new and in no queue, and then `admit` runs.
abbrev pub Overflows : ℕ → ℕ → Semaphore → Outcome → Type 0
Overflows now demand s (panics e) = Unit
Overflows now demand s (refuses e) = Unit
Overflows now demand s (grants t) = Unit
Overflows now demand s (queues t a) =
    (a ≡ s.store.next)
    × Moves (queued s.levels) (alloc (new_waiter now demand) s.store) s.outstanding
        (queued t.levels) t.store t.outstanding

slow_path-Overflows :
    (now demand p : ℕ) (s : Semaphore) (ls : List Level)
    → AllSound s.levels
    → IsFullAt p s.levels
    → SameQueues s.levels ls
    → Overflows now demand s (slow_path now demand p (record s { levels = ls }))
unfolding slow_path
slow_path-Overflows now demand p s ls v f q =
    let ms = penalize_lower s.limits now demand p ls in
    let q' =
      SameQueues-trans s.levels ls ms q (penalize_lower-SameQueues s.limits now demand p ls) in
    let v' = SameQueues-sound s.levels ms q' v in
    let e = push_at_full s.store.next now p ms v' (SameQueues-IsFullAt p s.levels ms q' f) in
    (
      refl,
      rw (sym (e ∙ SameQueues-queued s.levels ms q'))
          (admit-Moves now _ (push_at_sound s.store.next now p ms v')),
    )

grants-Overflows :
    (now demand p : ℕ) (s : Semaphore) (ls : List Level)
    → Overflows now demand s (fast_path now demand p (record s { levels = ls }))
unfolding fast_path
grants-Overflows now demand p s ls =
    elim (Bool-cases (ltb s.limits.capacity (s.outstanding + demand))) [
      | inl e ↦ rw e tt
      | inr e ↦ rw e tt
    ]

pub acquire-Overflows :
    (now demand p : ℕ) (s : Semaphore)
    → AllSound s.levels
    → IsFullAt p s.levels
    → Overflows now demand s (acquire now demand (pos p) s)
unfolding level_index
acquire-Overflows now demand p s v f =
    acquire_rule (Overflows now demand s) now demand (pos p) s tt tt (λ e. tt)
      λ p' i _.
        let same : p' ≡ p = ground arith in
        let f' = subst (λ k. IsFullAt k s.levels) (sym same) f in
        let r = try_level s.limits now s.outstanding demand p' s.levels in
        let q = try_level-SameQueues s.limits now s.outstanding demand p' s.levels in
        acquire_at_rule (Overflows now demand s) now demand p' s
          (λ _. slow_path-Overflows now demand p' s s.levels v f' (SameQueues-refl s.levels))
          (λ _ _. grants-Overflows now demand p' s r.0)
          (λ _ _. slow_path-Overflows now demand p' s r.0 v f' q)
