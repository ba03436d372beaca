-- ===== src/Backpressure/Semaphore/Start.antt =====
-- backpressure/semaphore.go: what `NewSemaphore` makes.
use native.Mathlib.Nat.{le_refl, zero-sub}
use catfish.Prelude.{
  ℕ, ◌*◌, ◌<◌, ◌≡◌, refl, sym, ap, subst, true, not, some, Option-cases, inl, inr, List, [], ◌∷◌,
  arith,
}
use catfish.Prelude.Int.{pos}
use catfish.Backpressure.Semaphore.{Limits, Level, Semaphore}
use catfish.Backpressure.Waiter.{new_waiter}
use catfish.Backpressure.Codel.{empty}
use catfish.Backpressure.Codel.View.{Shows-nil, Shows-contents, new_codel_lem, empty-true}
use catfish.Backpressure.Semaphore.{Options, new_levels, new_semaphore, creates, fresh}
use catfish.Backpressure.Semaphore.Levels.{AllSound, all_empty}
use catfish.Backpressure.Semaphore.Invariant.{IsWellFormed}
use catfish.Backpressure.Semaphore.Moves.{queued}
use catfish.Backpressure.Semaphore.Waiting.{and_split}
use catfish.Backpressure.Semaphore.Debts.{RisesFrom}
use catfish.Backpressure.Semaphore.Order.{IsOrdered}

abbrev pub AllPositive : List ℕ → Type 0
AllPositive [] = Unit {0}
AllPositive (n ∷ ns) = (0 < n) × AllPositive ns

abbrev limits_of : Options → ℕ → Limits
limits_of o capacity = record {
  capacity = capacity;
  long_timeout = o.long_timeout;
  forgive_num = o.forgive_num;
  forgive_den = o.forgive_den;
  debt_decay_interval = o.debt_decay_interval;
}

record Fresh (o : Options) (capacity now : ℕ) (ls : List Level) : Type 0 where
  sound : AllSound ls
  idle : all_empty ls ≡ true
  ordered : RisesFrom (limits_of o capacity) now 0 ls

new_levels-Fresh :
    (o : Options) (capacity now : ℕ) (sizes : List ℕ)
    → AllPositive sizes
    → (ls : List Level) × (new_levels o capacity now sizes ≡ some ls) × Fresh o capacity now ls
unfolding new_levels
new_levels-Fresh o capacity now [] h = ([], refl, record { sound = tt; idle = refl; ordered = tt })
new_levels-Fresh o capacity now (size ∷ sizes) h =
    let (q, eq, k) = new_codel_lem o.short_timeout o.long_timeout size now h.0 in
    let (ls, els, f) = new_levels-Fresh o capacity now sizes h.1 in
    (
      record {
        queue = q;
        debt = record {
          x = 0;
          last = now;
          decay_per_ns = capacity * o.forgive_den;
          max = capacity * (o.debt_decay_interval * o.forgive_den);
        };
      }
          ∷ ls,
      rw (eq, els, new_levels),
      record {
        sound = (k.valid, f.sound);
        idle = rw (empty-true q k) f.idle;
        ordered = (
          record { rate = refl; top = refl; past = le_refl now; bounded = omega arith },
          omega arith,
          rw zero-sub f.ordered,
        );
      },
    )

-- On a capacity that is not negative, positive queue sizes and options with a positive decay interval
-- `NewSemaphore` makes a semaphore with the invariant, no tokens out and the debts in order.
pub new_semaphore_lem :
    (o : Options) (sizes : List ℕ) (capacity now : ℕ)
    → 0 < o.debt_decay_interval * o.forgive_den
    → AllPositive sizes
    → (s : Semaphore) × (new_semaphore o sizes (pos capacity) now ≡ creates s)
      × IsWellFormed s
      × IsOrdered now s
      × (s.outstanding ≡ 0)
unfolding new_semaphore
new_semaphore_lem o sizes capacity now h hs =
    let (ls, e, f) = new_levels-Fresh o capacity now sizes hs in
    (
      fresh o capacity ls,
      rw (e, new_semaphore),
      record {
        scaled = h;
        within = omega arith;
        sound = f.sound;
        armed = record { truth = ap not (sym f.idle); ticking = refl };
      },
      f.ordered,
      refl,
    )

queued-empty : (ls : List Level) → AllSound ls → all_empty ls ≡ true → queued ls ≡ []
queued-empty [] v e = refl
queued-empty (l ∷ ls) v e =
    let (e0, e1) = and_split (empty l.queue) (all_empty ls) e in
    rw ((Shows-nil l.queue (Shows-contents l.queue v.0) e0).items) (queued-empty ls v.1 e1)

-- A new semaphore has an empty store, whose next address is 1.
pub new_semaphore-store :
    (o : Options) (sizes : List ℕ) (capacity now : ℕ) (s : Semaphore)
    → new_semaphore o sizes (pos capacity) now ≡ creates s
    → s.store ≡ record { next = 1; at = λ a. new_waiter 0 0 }
unfolding new_semaphore fresh
new_semaphore-store o sizes capacity now s e =
    elim (Option-cases (new_levels o capacity now sizes)) [
      | inl k ↦ absurd (cc (e, k))
      | inr (ls, k) ↦ let p : fresh o capacity ls ≡ s = cc (e, k) in ap (λ t. t.store) (sym p)
    ]

-- Its queues are empty, and nothing is out.
pub new_semaphore-IsWellFormed :
    (o : Options) (sizes : List ℕ) (capacity now : ℕ) (s : Semaphore)
    → 0 < o.debt_decay_interval * o.forgive_den
    → AllPositive sizes
    → new_semaphore o sizes (pos capacity) now ≡ creates s
    → IsWellFormed s × (s.outstanding ≡ 0) × (queued s.levels ≡ []) × (s.limits.capacity ≡ capacity)
unfolding new_semaphore fresh
new_semaphore-IsWellFormed o sizes capacity now s h hs e =
    let (ls, k, f) = new_levels-Fresh o capacity now sizes hs in
    let (t, e', w, _, z) = new_semaphore_lem o sizes capacity now h hs in
    let p : fresh o capacity ls ≡ s = cc (e, k) in
    (
      subst IsWellFormed (cc (e, e')) w,
      subst (λ t. t.outstanding ≡ 0) p refl,
      subst (λ t. queued t.levels ≡ []) p (queued-empty ls f.sound f.idle),
      subst (λ t. t.limits.capacity ≡ capacity) p refl,
    )
