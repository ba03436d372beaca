-- ===== src/Backpressure/Callers/Lost.antt =====
-- backpressure/: a waiter that stands in no queue, as Push on a full queue leaves it.
use catfish.Prelude.{
  ℕ, ◌≤◌, ◌<◌, ◌≡◌, ◌≢◌, refl, sym, ap, subst, ◌∙◌, ◌⊎◌, inl, inr, false, Option, none, some, List,
  [], arith, ==-eq_true, ◌==◌, Bool-cases,
}
use catfish.Backpressure.Waiter.{
  Store, waiting, admitted, Wake, context_done, signalled, Answer, context_error, wait, drop, admit,
  new_waiter, send,
}
use catfish.Backpressure.Waiter.Cases.{
  write_other, drop_lem, admit_cases, admitted_as, alloc_lem, done_waits, signalled_nil,
}
use catfish.Backpressure.Semaphore.{Semaphore}
use catfish.Backpressure.Semaphore.Moves.{Moves, done, drops, admits, queued}
use catfish.Backpressure.Semaphore.Removals.{release-Moves, tick-Moves}
use catfish.Backpressure.Semaphore.Entries.{Enters, Joins, acquire-Enters}
use catfish.Backpressure.Callers.{
  System, Step, grants_at_once, joins_queue, wakes, gives_back, ticks, Reach, start, next,
}
use catfish.Backpressure.Callers.Pending.{All, All-Removes, All-insert}
use catfish.Backpressure.Callers.Fair.{wait-Wakes, Fair-answers}
use catfish.Backpressure.Callers.Tally.{Moves-Steady}
use catfish.Backpressure.Callers.Steps.{IsHonest, Reach-IsHonest}

-- The waiter `a` was made, waits, has had no signal, and stands in no queue.
pub record IsLost (a : ℕ) (s : System) : Type 0 where
  pub made : a < s.sem.store.next
  pub waits : (s.sem.store.at a).state ≡ waiting
  pub unsignalled : (s.sem.store.at a).signals ≡ []
  pub unanswered : s.answers a ≡ none
  pub unqueued : All (λ b. a ≢ b) (queued s.sem.levels)

module _ (a : ℕ) where
  admit_other : (b : ℕ) (s : Store) → a ≢ b → (admit b s).0.at a ≡ s.at a
  admit_other b s n = elim (admit_cases b s) [
    | inl e ↦ rw e (write_other b a (admitted_as (s.at b)) s (λ q. n (sym q)))
    | inr e ↦ rw e refl
  ]

  drop_other : (b : ℕ) (s : Store) → a ≢ b → (drop b s).at a ≡ s.at a
  drop_other b s n =
      ap (λ t. t.at a) (drop_lem b s) ∙ write_other b a (send false (s.at b)) s (λ q. n (sym q))

  -- A waiter outside the queues is not touched.
  pub Moves-other :
      {ps qs : List ℕ} {s t : Store} {o p : ℕ}
      → Moves ps s o qs t p
      → All (λ b. a ≢ b) ps
      → (t.at a ≡ s.at a) × All (λ b. a ≢ b) qs
  Moves-other done h = (refl, h)
  Moves-other {s} (drops b r m) h =
      let k = All-Removes (λ c. a ≢ c) r h in
      let i = Moves-other m k.1 in (i.0 ∙ drop_other b s k.0, i.1)
  Moves-other {s} (admits b r m) h =
      let k = All-Removes (λ c. a ≢ c) r h in
      let i = Moves-other m k.1 in (i.0 ∙ admit_other b s k.0, i.1)

  -- The caller of `a` has given up.
  abbrev pub HasGivenUp : System → Type 0
  HasGivenUp s = s.answers a ≡ some (some context_error)

  pub kept :
      (s : System) (t : Semaphore) (g r : ℕ)
      → IsLost a s
      → s.sem.store.next ≤ t.store.next
      → t.store.at a ≡ s.sem.store.at a
      → All (λ b. a ≢ b) (queued t.levels)
      → IsLost a (record { sem = t; answers = s.answers; granted = g; returned = r })
  kept s t g r l n e q = record {
    made = omega (arith, n, l.made);
    waits = ap (λ w. w.state) e ∙ l.waits;
    unsignalled = ap (λ w. w.signals) e ∙ l.unsignalled;
    unanswered = l.unanswered;
    unqueued = q;
  }

  joined :
      (ps qs : List ℕ) (b : ℕ) → a ≢ b → Joins b ps qs → All (λ c. a ≢ c) qs → All (λ c. a ≢ c) ps
  joined ps qs b n (inl e) h = rw e h
  joined ps qs b n (inr r) h = All-insert (λ c. a ≢ c) r n h

  gives_up :
      (w : Wake) (b : ℕ) (s : System) (x : Answer) (st : Store)
      → b ≡ a
      → IsLost a s
      → wait w b s.sem.store ≡ some (st, x)
      → ◌≡◌ {A = Option Answer} (some x) (some (some context_error))
  gives_up context_done b s x st p l e =
      let e' = subst (λ c. wait context_done c s.sem.store ≡ some (st, x)) p e in
      ground (arith, e', done_waits a s.sem.store l.waits)
  gives_up signalled b s x st p l e =
      let e' = subst (λ c. wait signalled c s.sem.store ≡ some (st, x)) p e in
      absurd (cc (e', signalled_nil a s.sem.store l.unsignalled))

  Step-IsLost : {s t : System} → Step s t → IsHonest s → IsLost a s → IsLost a t ⊎ HasGivenUp t
  Step-IsLost {s} (grants_at_once {t} now demand priority e) h l = inl (
      let (q, st, o) =
        subst (Enters now demand s.sem) e
          (acquire-Enters now demand priority s.sem h.formed.sound) in
      kept s t _ _ l (rw st (omega arith)) (ap (λ x. x.at a) st) (rw q l.unqueued))
  Step-IsLost {s} (joins_queue {t} now demand priority b e) h l = inl (
      let (f, ps, j, m) =
        subst (Enters now demand s.sem) e
          (acquire-Enters now demand priority s.sem h.formed.sound) in
      let n : a ≢ b = λ q. omega (arith, l.made, f, q) in
      let i = Moves-other m (joined ps (queued s.sem.levels) b n j l.unqueued) in
      kept s t _ _ l
        (omega (
          arith,
          (Moves-Steady m).0,
          ap (λ x. x.next) (alloc_lem (new_waiter now demand) s.sem.store),
        ))
        (i.0
          ∙ ap (λ x. x.at a) (alloc_lem (new_waiter now demand) s.sem.store)
          ∙ write_other s.sem.store.next a (new_waiter now demand) s.sem.store
              (λ q. omega (arith, l.made, q)))
        i.1)
  Step-IsLost {s} (wakes {st} w b x made below n e) h l = elim (Bool-cases (b == a)) [
    | inl q ↦ inr (rw q (gives_up w b s x st (ground arith) l e))
    | inr q ↦ inl (
        let k = wait-Wakes w b s.sem.store st x e (rw n at (h.tally.fair b)) in
        let i = k.others a (λ r. cc (q, ==-eq_true b a r)) in
        record {
          made = omega (arith, l.made, k.kept);
          waits = ap (λ v. v.state) i ∙ l.waits;
          unsignalled = ap (λ v. v.signals) i ∙ l.unsignalled;
          unanswered = rw q (l.unanswered);
          unqueued = l.unqueued;
        })
  ]
  Step-IsLost {s} (gives_back {t} now n l' e) h l = inl (
      let (le, m) = release-Moves now n s.sem t h.formed.sound e in
      let i = Moves-other m l.unqueued in
      kept s t _ _ l (rw (Moves-Steady m).0 (omega arith)) i.0 i.1)
  Step-IsLost {s} (ticks now) h l = inl (
      let m = tick-Moves now s.sem h.formed.sound in
      let i = Moves-other m l.unqueued in
      kept s _ _ _ l (rw (Moves-Steady m).0 (omega arith)) i.0 i.1)

  Step-HasGivenUp : {s t : System} → Step s t → HasGivenUp s → HasGivenUp t
  Step-HasGivenUp (grants_at_once now demand priority e) u = u
  Step-HasGivenUp (joins_queue now demand priority b e) u = u
  Step-HasGivenUp (wakes w b x made below n e) u = elim (Bool-cases (b == a)) [
    | inl q ↦ let p : b ≡ a = ground arith in absurd (cc (p, n, u))
    | inr q ↦ rw q u
  ]
  Step-HasGivenUp (gives_back now n l e) u = u
  Step-HasGivenUp (ticks now) u = u

  Reach-IsLost : {s t : System} → Reach s t → IsHonest s → IsLost a s → IsLost a t ⊎ HasGivenUp t
  Reach-IsLost start h l = inl l
  Reach-IsLost (next r x) h l = elim (Reach-IsLost r h l) [
    | inl k ↦ Step-IsLost x (Reach-IsHonest r h) k
    | inr u ↦ inr (Step-HasGivenUp x u)
  ]

  -- From a state with the invariant of the semaphore and its callers, where a waiter stands in no queue,
  -- waits and has had no signal, as Push leaves it on a full queue: after any steps the waiter is not
  -- admitted, and either its caller is still blocked and can only be woken by its context, or it was
  -- told of its context's error.
  pub lost_waiter :
      {s t : System}
      → IsHonest s
      → IsLost a s
      → Reach s t
      → ((t.sem.store.at a).state ≢ admitted)
        × (((t.answers a ≡ none) × (wait signalled a t.sem.store ≡ none))
            ⊎ (t.answers a ≡ some (some context_error)))
  lost_waiter {s} {t} h l r = elim (Reach-IsLost r h l) [
    | inl k ↦ (
      λ q. absurd (cc (q, k.waits)),
      inl (k.unanswered, signalled_nil a t.sem.store k.unsignalled),
    )
    | inr u ↦ ((Fair-answers ((Reach-IsHonest r h).tally.fair a)).1 context_error u, inr u)
  ]
