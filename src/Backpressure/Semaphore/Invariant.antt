-- ===== src/Backpressure/Semaphore/Invariant.antt =====
-- backpressure/semaphore.go: the invariant of the semaphore under its operations.
use native.Mathlib.Nat.{le_trans, sub-le}
use catfish.Prelude.{
  ℕ, zero, suc, ◌+◌, ◌-◌, ◌≤◌, ◌≡◌, refl, ap, ◌∙◌, inl, inr, true, false, not, List, [], ◌∷◌, map,
  arith, ltb, if◌then◌else◌, Bool-cases,
}
use catfish.Prelude.Int.{ℤ}
use catfish.Deque.{len}
use catfish.Backpressure.Decay.{LinearDecay}
use catfish.Backpressure.Waiter.{Store}
use catfish.Backpressure.Codel.{empty, reap}
use catfish.Backpressure.Codel.View.{push-Shows}
use catfish.Backpressure.Codel.Reap.{reap-Shows}
use catfish.Backpressure.Semaphore.{
  SemaphoreError, capacity_nil, capacity_negative, already_closed, unbalance,
  invalid_priority_level, token_demand_too_large, Limits, scale, tokens, forgiven, Ticker, infinity,
  stopped, every, Level, Semaphore, Outcome, panics, refuses, grants, queues, can_admit, Bucket,
  pop_one, counted, admit_level, reap_all, Swept, sweep, higher_present, forgive_from,
  forgive_lower, penalize, penalize_lower, try_level, push_at, fast_path, slow_path, acquire_at,
  acquire, release, background_tick, close, level_index,
}
use catfish.Backpressure.Semaphore
use catfish.Backpressure.Codel.View.{Shows-contents}
use catfish.Backpressure.Semaphore.Rules.{reaped, admit_fields, acquire_rule, acquire_at_rule}
use catfish.Backpressure.Semaphore.Bounds.{
  Ensures, IsScaled, IsWithin, admit-IsWithin, try_level-room,
}
use catfish.Backpressure.Semaphore.Levels.{AllSound, all_empty, admit_level-IsSound}
use catfish.Backpressure.Semaphore.Waiting.{IsArmed, admit-IsArmed}

-- Two lists of levels with the same queues; the debts may differ.
abbrev pub SameQueues : List Level → List Level → Type 0
SameQueues [] [] = Unit {0}
SameQueues (l ∷ ls) [] = ⊥
SameQueues [] (m ∷ ms) = ⊥
SameQueues (l ∷ ls) (m ∷ ms) = (l.queue ≡ m.queue) × SameQueues ls ms

pub SameQueues-refl : (ls : List Level) → SameQueues ls ls
SameQueues-refl [] = tt
SameQueues-refl (l ∷ ls) = (refl, SameQueues-refl ls)

pub SameQueues-trans :
    (ls ms ns : List Level) → SameQueues ls ms → SameQueues ms ns → SameQueues ls ns
SameQueues-trans [] [] ns q r = r
SameQueues-trans [] (m ∷ ms) ns q r = absurd q
SameQueues-trans (l ∷ ls) [] ns q r = absurd q
SameQueues-trans (l ∷ ls) (m ∷ ms) [] q r = absurd r
SameQueues-trans (l ∷ ls) (m ∷ ms) (n ∷ ns) q r = (q.0 ∙ r.0, SameQueues-trans ls ms ns q.1 r.1)

pub SameQueues-sound : (ls ms : List Level) → SameQueues ls ms → AllSound ls → AllSound ms
SameQueues-sound [] [] q v = tt
SameQueues-sound [] (m ∷ ms) q v = absurd q
SameQueues-sound (l ∷ ls) [] q v = absurd q
SameQueues-sound (l ∷ ls) (m ∷ ms) q v = (rw (← q.0) v.0, SameQueues-sound ls ms q.1 v.1)

SameQueues-empty : (ls ms : List Level) → SameQueues ls ms → all_empty ls ≡ all_empty ms
SameQueues-empty [] [] q = refl
SameQueues-empty [] (m ∷ ms) q = absurd q
SameQueues-empty (l ∷ ls) [] q = absurd q
SameQueues-empty (l ∷ ls) (m ∷ ms) q = rw (q.0, SameQueues-empty ls ms q.1)

forgive_from-SameQueues :
    (now amount : ℕ) (ls : List Level) (prev : LinearDecay)
    → SameQueues ls (forgive_from now amount prev ls).1
unfolding forgive_from
forgive_from-SameQueues now amount [] prev = tt
forgive_from-SameQueues now amount (l ∷ ls) prev = (refl, forgive_from-SameQueues now amount ls _)

pub forgive_lower-SameQueues :
    (now amount p : ℕ) (ls : List Level) → SameQueues ls (forgive_lower now amount p ls)
unfolding forgive_lower
forgive_lower-SameQueues now amount p [] = tt
forgive_lower-SameQueues now amount zero (l ∷ ls) =
    (refl, forgive_from-SameQueues now amount ls l.debt)
forgive_lower-SameQueues now amount (suc p) (l ∷ ls) =
    (refl, forgive_lower-SameQueues now amount p ls)

penalize_all-SameQueues :
    (c : Limits) (now demand : ℕ) (ls : List Level) → SameQueues ls (map (penalize c now demand) ls)
unfolding penalize
penalize_all-SameQueues c now demand [] = tt
penalize_all-SameQueues c now demand (l ∷ ls) = (refl, penalize_all-SameQueues c now demand ls)

pub penalize_lower-SameQueues :
    (c : Limits) (now demand p : ℕ) (ls : List Level)
    → SameQueues ls (penalize_lower c now demand p ls)
unfolding penalize_lower
penalize_lower-SameQueues c now demand p [] = tt
penalize_lower-SameQueues c now demand zero (l ∷ ls) =
    (refl, penalize_all-SameQueues c now demand ls)
penalize_lower-SameQueues c now demand (suc p) (l ∷ ls) =
    (refl, penalize_lower-SameQueues c now demand p ls)

pub try_level-SameQueues :
    (c : Limits) (now out demand p : ℕ) (ls : List Level)
    → SameQueues ls (try_level c now out demand p ls).0
unfolding try_level
try_level-SameQueues c now out demand p [] = tt
try_level-SameQueues c now out demand zero (l ∷ ls) = (refl, SameQueues-refl ls)
try_level-SameQueues c now out demand (suc p) (l ∷ ls) =
    (refl, try_level-SameQueues c now out demand p ls)

pub push_at_sound : (a now p : ℕ) (ls : List Level) → AllSound ls → AllSound (push_at a now p ls)
unfolding push_at
push_at_sound a now p [] v = tt
push_at_sound a now zero (l ∷ ls) v =
    ((push-Shows l.queue a now (Shows-contents l.queue v.0)).valid, v.1)
push_at_sound a now (suc p) (l ∷ ls) v = (v.0, push_at_sound a now p ls v.1)

pub reap_all_sound :
    (now : ℕ) (ls : List Level) (s : Store) → AllSound ls → AllSound (reap_all now ls s).0
unfolding reap_all
reap_all_sound now [] s v = tt
reap_all_sound now (l ∷ ls) s v = (
  (reap-Shows l.queue s now (Shows-contents l.queue v.0)).0.valid,
  reap_all_sound now ls (reap now l.queue s).1 v.1,
)

sweep_sound :
    (c : Limits) (now : ℕ) (ls : List Level) (out : ℕ) (s : Store)
    → AllSound ls
    → AllSound (sweep c now ls out s).levels
unfolding sweep
sweep_sound c now [] out s v = tt
sweep_sound c now (l ∷ ls) out s v =
    let f = len l.queue.items in
    let b0 : Bucket = record { level = l; outstanding = out; store = s } in
    let b = admit_level f c now b0 in
    elim (Bool-cases (empty b.level.queue)) [
      | inl e ↦
          rw e (admit_level-IsSound c now f b0 v.0, sweep_sound c now ls b.outstanding b.store v.1)
      | inr e ↦ rw e (admit_level-IsSound c now f b0 v.0, v.1)
    ]

-- What holds of a semaphore between any two operations: the tokens out are within the capacity, the
-- queues are valid deques, and `hasWaiters` and the ticker tell whether a waiter is queued.
pub record IsWellFormed (s : Semaphore) : Type 0 where
  pub scaled : IsScaled s.limits
  pub within : IsWithin s
  pub sound : AllSound s.levels
  pub armed : IsArmed s

unarmed : {s : Semaphore} → IsArmed s → s.has_waiters ≡ false → all_empty s.levels ≡ true
unarmed a n = ground (arith, a.truth)

leb_room : (a b : ℕ) → a ≤ b → ltb b a ≡ false
leb_room a b h = ground arith

admit-IsWellFormed :
    (now : ℕ) (s : Semaphore)
    → IsScaled s.limits
    → IsWithin s
    → AllSound s.levels
    → (s.has_waiters ≡ false → all_empty s.levels ≡ true)
    → s.reap_ticker ≡ (if s.has_waiters then every s.limits.long_timeout else infinity)
    → IsWellFormed (Semaphore.admit now s)
admit-IsWellFormed now s c w v h t =
    let f = admit_fields now s in
    record {
      scaled = rw f.0 c;
      within = admit-IsWithin now s c w;
      sound = rw f.2 (
          sweep_sound s.limits now (reaped now s).0 s.outstanding (reaped now s).1
            (reap_all_sound now s.levels s.store v));
      armed = admit-IsArmed now s v h t;
    }

-- A firing of the reap ticker keeps the invariant.
pub background_tick-IsWellFormed :
    (now : ℕ) (s : Semaphore) → IsWellFormed s → IsWellFormed (background_tick now s)
unfolding background_tick
background_tick-IsWellFormed now s w =
    admit-IsWellFormed now s w.scaled w.within w.sound (λ n. unarmed w.armed n) w.armed.ticking

-- `Release` of no more tokens than are out does not panic, and keeps the invariant.
pub release-IsWellFormed :
    (now n : ℕ) (s : Semaphore)
    → IsWellFormed s
    → n ≤ s.outstanding
    → (t : Semaphore) × (release now n s ≡ grants t) × IsWellFormed t
unfolding release
release-IsWellFormed now n s w h = (
  Semaphore.admit now (record s { outstanding = s.outstanding - n }),
  ground arith,
  admit-IsWellFormed now (record s { outstanding = s.outstanding - n }) w.scaled
      (le_trans (sub-le s.outstanding n) w.within) w.sound (λ e. unarmed w.armed e) w.armed.ticking,
)

fast_path-IsWellFormed :
    (now demand p : ℕ) (s : Semaphore) (ls : List Level)
    → IsWellFormed s
    → SameQueues s.levels ls
    → s.outstanding + demand ≤ s.limits.capacity
    → Ensures IsWellFormed (fast_path now demand p (record s { levels = ls }))
unfolding fast_path
fast_path-IsWellFormed now demand p s ls w q h =
    rw (leb_room (s.outstanding + demand) s.limits.capacity h) (record {
      scaled = w.scaled;
      within = h;
      sound = SameQueues-sound s.levels ms q' w.sound;
      armed = record {
        truth = w.armed.truth ∙ ap not (SameQueues-empty s.levels ms q');
        ticking = w.armed.ticking;
      };
    })
  where
    ms : List Level
    ms = forgive_lower now (forgiven s.limits demand) p ls

    q' : SameQueues s.levels ms
    q' =
        SameQueues-trans s.levels ls ms q
          (forgive_lower-SameQueues now (forgiven s.limits demand) p ls)

slow_path-IsWellFormed :
    (now demand p : ℕ) (s : Semaphore) (ls : List Level)
    → IsWellFormed s
    → SameQueues s.levels ls
    → Ensures IsWellFormed (slow_path now demand p (record s { levels = ls }))
unfolding slow_path
slow_path-IsWellFormed now demand p s ls w q =
    let ms = penalize_lower s.limits now demand p ls in
    admit-IsWellFormed now _ w.scaled w.within
      (push_at_sound s.store.next now p ms (
        SameQueues-sound ls ms (penalize_lower-SameQueues s.limits now demand p ls)
          (SameQueues-sound s.levels ls q w.sound)))
      (λ e. cc) (ground (arith, w.armed.ticking))

-- On a state with the invariant `Acquire` keeps it on every branch that returns (a grant, a queued
-- waiter, an error), and it does not panic over the balance of tokens.
pub acquire-IsWellFormed :
    (now demand : ℕ) (priority : ℤ) (s : Semaphore)
    → IsWellFormed s
    → Ensures IsWellFormed (acquire now demand priority s)
acquire-IsWellFormed now demand priority s w =
    acquire_rule (Ensures IsWellFormed) now demand priority s (λ e. cc) (λ e. cc) (λ e. tt)
      λ p _ _.
        let r = try_level s.limits now s.outstanding demand p s.levels in
        let q = try_level-SameQueues s.limits now s.outstanding demand p s.levels in
        acquire_at_rule (Ensures IsWellFormed) now demand p s
          (λ _. slow_path-IsWellFormed now demand p s s.levels w (SameQueues-refl s.levels))
          (λ _ e.
            fast_path-IsWellFormed now demand p s r.0 w q
              (try_level-room s.limits now s.outstanding demand p s.levels w.scaled e))
          (λ _ _. slow_path-IsWellFormed now demand p s r.0 w q)
