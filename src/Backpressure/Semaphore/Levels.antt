-- ===== src/Backpressure/Semaphore/Levels.antt =====
-- backpressure/semaphore.go: the queues of the levels and the inner loop of `admit`.
use catfish.Prelude.{
  ℕ, zero, suc, ◌+◌, ◌≤◌, ◌≡◌, ◌≢◌, ◌∙◌, inl, inr, Bool, true, false, ◌&&◌, some, List, [], ◌∷◌,
  arith, length, Bool-cases, Option-cases,
}
use catfish.Deque.Inv.{IsValid}
use catfish.Backpressure.Decay.{LinearDecay}
use catfish.Backpressure.Codel.{Popped, empty, peek, pop}
use catfish.Backpressure.Codel.View.{Shows, PopsTo, idle, took, pop_lem, length-serve}
use catfish.Backpressure.Semaphore.{Limits, Level, can_admit, Bucket, pop_one, admit_level}
use catfish.Backpressure.Decay.Laws.{get-again}
use catfish.Backpressure.Codel.View.{Shows-contents, empty-true, peek-none, peek-some, serve-ne}
use catfish.Backpressure.Semaphore.Rules.{checked, passes, admit_level_keeps}

abbrev pub IsSound : Level → Type 0
IsSound l = IsValid l.queue.items

abbrev pub AllSound : List Level → Type 0
AllSound [] = Unit {0}
AllSound (l ∷ ls) = IsSound l × AllSound ls

-- no waiter in any queue
abbrev pub all_empty : List Level → Bool
all_empty [] = true
all_empty (l ∷ ls) = empty l.queue && all_empty ls

-- The queue of a bucket lists `l`.
abbrev pub Queues : ℕ → List ℕ → Bucket → Type 0
Queues size l b = Shows size l b.level.queue

pop_one-took :
    (now demand : ℕ) (b : Bucket) {size : ℕ} (l : List ℕ)
    → Queues size l b
    → l ≢ []
    → (l' : List ℕ) × Queues size l' (pop_one now demand b) × (length l ≡ length l' + 1)
unfolding pop_one
pop_one-took now demand b {size} l h ne =
    go (pop now b.level.queue b.store) (pop_lem b.level.queue b.store now h)
  where
    go :
        (r : Popped)
        → PopsTo size l b.level.queue b.store r
        → (l' : List ℕ) × Shows size l' r.queue × (length l ≡ length l' + 1)
    go r (idle e _) = absurd (ne e)
    go r (took a l' e k _ _) = (l', k, length-serve b.level.queue.mode l a l' e)

pop_one-IsSound :
    (now demand : ℕ) (b : Bucket) → IsSound b.level → IsSound (pop_one now demand b).level
unfolding pop_one
pop_one-IsSound now demand b v =
    go (pop now b.level.queue b.store)
      (pop_lem b.level.queue b.store now (Shows-contents b.level.queue v))
  where
    go :
        {size : ℕ} {l : List ℕ} (r : Popped)
        → PopsTo size l b.level.queue b.store r
        → IsValid r.queue.items
    go r (idle _ e) = rw e v
    go r (took a l' e k _ _) = k.valid

pub admit_level-IsSound :
    (c : Limits) (now f : ℕ) (b : Bucket) → IsSound b.level → IsSound (admit_level f c now b).level
admit_level-IsSound c now =
    admit_level_keeps (λ b. IsSound b.level) c now (λ b demand v. v)
      (λ b demand v _ _. pop_one-IsSound now demand (checked c now demand b) v)

-- Why the inner loop ends: the queue is empty, or its next waiter does not pass the debt test.
pub data IsSettled (c : Limits) (now : ℕ) (b : Bucket) : Type 0 where
  drained : empty b.level.queue ≡ true → IsSettled c now b
  held :
      (demand : ℕ)
      → peek b.store b.level.queue ≡ some demand
      → passes c now demand b ≡ false
      → IsSettled c now b

-- A second test at the same time reads the same debt.
can_admit_again :
    (c : Limits) (now out demand : ℕ) (d : LinearDecay)
    → (can_admit c now out demand (can_admit c now out demand d).0).1
      ≡ (can_admit c now out demand d).1
unfolding can_admit
can_admit_again c now out demand d = rw (get-again d now)

-- On a queue that shows the list `l`, with at least the length of `l` as fuel, the inner loop of
-- `admit` ends by its own tests: the queue is empty or its next waiter does not pass the debt test.
pub admit_level-IsSettled :
    (c : Limits) (now f : ℕ) (b : Bucket) {size : ℕ} (l : List ℕ)
    → length l ≤ f
    → Queues size l b
    → IsSettled c now (admit_level f c now b)
unfolding admit_level
admit_level-IsSettled c now zero b [] hf h = drained (empty-true b.level.queue h)
admit_level-IsSettled c now zero b (x ∷ l) hf h = absurd (omega arith)
admit_level-IsSettled c now (suc f) b l hf h = elim (Option-cases (peek b.store b.level.queue)) [
  | inl e ↦ rw (e, admit_level) (drained (peek-none b.level.queue b.store h e))
  | inr (demand, e) ↦ elim (Bool-cases (passes c now demand b)) [
    | inl go ↦
        let (a, r, es, _) = peek-some b.level.queue b.store demand h e in
        let (l', k, n) =
          pop_one-took now demand (checked c now demand b) l h
            (λ z. serve-ne b.level.queue.mode a r (rw z at es)) in
        rw (e, go, admit_level)
          (admit_level-IsSettled c now f (pop_one now demand (checked c now demand b)) l'
            (omega arith) k)
    | inr stop ↦
        rw (e, stop, admit_level)
          (held demand e (can_admit_again c now b.outstanding demand b.level.debt ∙ stop))
  ]
]
