-- ===== src/Backpressure/Callers/Fair.antt =====
-- backpressure/codel.go: what a waiter's state and channel say to its caller.
use catfish.Prelude.{
  ℕ, ◌≤◌, ◌≡◌, ◌≢◌, refl, sym, subst, Bool, true, false, Option, none, some, [], ◌∷◌, arith,
}
use catfish.Backpressure.Waiter.{
  Store, Waiter, waiting, admitted, expired, Answer, WaitError, context_error, rejected, send,
  write, Wake, context_done, signalled, wait,
}
use catfish.Backpressure.Waiter.Cases.{
  write_same, write_other, done_waits, done_admitted, signalled_nil, signalled_true,
  signalled_false,
}
use catfish.Backpressure.Callers.{charge, told_charge}

-- A waiter and the answer that its caller has had: the caller is told nil only of an admitted waiter,
-- and an error only of one that is not admitted and will not be.
pub data Fair (w : Waiter) (r : Option Answer) : Type 0 where
  waits : w.state ≡ waiting → w.signals ≡ [] → r ≡ none → Fair w r
  dropped : w.state ≡ waiting → w.signals ≡ false ∷ [] → r ≡ none → Fair w r
  chosen : w.state ≡ admitted → w.signals ≡ true ∷ [] → r ≡ none → Fair w r
  holds : w.state ≡ admitted → r ≡ some none → Fair w r
  gave_up : w.state ≡ expired → r ≡ some (some context_error) → Fair w r
  turned_away : w.state ≡ waiting → r ≡ some (some rejected) → Fair w r

-- A waiter that is still in a queue: no signal was sent, and its caller waits or gave up.
pub data Queued (w : Waiter) (r : Option Answer) : Type 0 where
  idle : w.state ≡ waiting → w.signals ≡ [] → r ≡ none → Queued w r
  late : w.state ≡ expired → w.signals ≡ [] → r ≡ some (some context_error) → Queued w r

pub Queued-Fair : {w : Waiter} {r : Option Answer} → Queued w r → Fair w r
Queued-Fair (idle e f g) = waits e f g
Queued-Fair (late e f g) = gave_up e g

-- `drop` of a queued waiter.
pub drop-Fair : {w : Waiter} {r : Option Answer} → Queued w r → Fair (send false w) r
drop-Fair (idle e f g) = dropped e (rw f) g
drop-Fair (late e f g) = gave_up e g

pub charge-admitted : (w : Waiter) → w.state ≡ admitted → charge w ≡ w.payload
charge-admitted w e = rw e

pub charge-waiting : (w : Waiter) → w.state ≡ waiting → charge w ≡ 0
charge-waiting w e = rw e

pub charge-expired : (w : Waiter) → w.state ≡ expired → charge w ≡ 0
charge-expired w e = rw e

pub Queued-charge : {w : Waiter} {r : Option Answer} → Queued w r → charge w ≡ 0
Queued-charge {w} (idle e f g) = charge-waiting w e
Queued-charge {w} (late e f g) = charge-expired w e

-- What a caller has been told is charged.
pub told-le-charge : {w : Waiter} {r : Option Answer} → Fair w r → told_charge r w ≤ charge w
told-le-charge {w} (waits e f g) = rw g (omega arith)
told-le-charge {w} (dropped e f g) = rw g (omega arith)
told-le-charge {w} (chosen e f g) = rw g (omega arith)
told-le-charge {w} (holds e g) = rw (g, charge-admitted w e) (omega arith)
told-le-charge {w} (gave_up e g) = rw g (omega arith)
told-le-charge {w} (turned_away e g) = rw g (omega arith)

pub Fair-answers :
    {w : Waiter} {r : Option Answer}
    → Fair w r
    → (r ≡ some none → w.state ≡ admitted)
      × ((e : WaitError) → r ≡ some (some e) → w.state ≢ admitted)
Fair-answers (waits i f g) = (λ k. absurd (cc (g, k)), λ x k j. cc (i, j))
Fair-answers (dropped i f g) = (λ k. absurd (cc (g, k)), λ x k j. cc (i, j))
Fair-answers (chosen i f g) = (λ k. i, λ x k j. cc (g, k))
Fair-answers (holds i g) = (λ k. i, λ x k j. cc (g, k))
Fair-answers (gave_up i g) = (λ k. absurd (cc (g, k)), λ x k j. cc (i, j))
Fair-answers (turned_away i g) = (λ k. absurd (cc (g, k)), λ x k j. cc (i, j))

-- What a wake of the caller of `a` does to the store and the answers.
pub record Wakes (a : ℕ) (s st : Store) (x : Answer) : Type 0 where
  pub kept : st.next ≡ s.next
  pub others : (b : ℕ) → a ≢ b → st.at b ≡ s.at b
  pub told_so : Fair (st.at a) (some x)
  pub charged : charge (st.at a) ≡ charge (s.at a)
  pub queue : Queued (s.at a) none → Queued (st.at a) (some x)

wrote :
    {a : ℕ} {s : Store} (w : Waiter) (x : Answer)
    → Fair w (some x)
    → charge w ≡ charge (s.at a)
    → (Queued (s.at a) none → Queued w (some x))
    → Wakes a s (write a w s) x
wrote {a} {s} w x f c q = record {
  kept = refl;
  others = λ b n. write_other a b w s n;
  told_so = rw (write_same a w s) f;
  charged = rw (write_same a w s) c;
  queue = rw (write_same a w s) q;
}

result-Wakes :
    {o : Option (Store × Answer)} {a : ℕ} {s : Store} (r r' : Store × Answer)
    → o ≡ some r
    → o ≡ some r'
    → Wakes a s r.0 r.1
    → Wakes a s r'.0 r'.1
result-Wakes {a} {s} r r' e e' k = let p : r ≡ r' = cc (e, e') in subst (λ q. Wakes a s q.0 q.1) p k

gives_up :
    (a : ℕ) (s : Store)
    → (s.at a).state ≡ waiting
    → Wakes a s (write a (record (s.at a) { state = expired }) s) (some context_error)
gives_up a s i =
    wrote (record (s.at a) { state = expired }) (some context_error) (gave_up refl refl)
      (sym (charge-waiting (s.at a) i)) λ q. expired_queue q
  where
    expired_queue :
        Queued (s.at a) none
        → Queued (record (s.at a) { state = expired }) (some (some context_error))
    expired_queue (idle e f g) = late refl f refl
    expired_queue (late e f g) = absurd (cc g)

not-Queued :
    {w v : Waiter} {r : Option Answer} {b : Bool} → w.signals ≡ b ∷ [] → Queued w none → Queued v r
not-Queued f (idle e k g) = absurd (cc (f, k))
not-Queued f (late e k g) = absurd (cc g)

-- The caller of a waiter that has had no answer is woken: by its context, or by the waiter's channel.
pub wait-Wakes :
    (w : Wake) (a : ℕ) (s st : Store) (x : Answer)
    → wait w a s ≡ some (st, x)
    → Fair (s.at a) none
    → Wakes a s st x
wait-Wakes context_done a s st x e (waits i f g) =
    result-Wakes _ (st, x) (done_waits a s i) e (gives_up a s i)
wait-Wakes context_done a s st x e (dropped i f g) =
    result-Wakes _ (st, x) (done_waits a s i) e (gives_up a s i)
wait-Wakes context_done a s st x e (chosen i f g) =
    result-Wakes (s, none) (st, x) (done_admitted a s i) e
      (record {
        kept = refl;
        others = λ b n. refl;
        told_so = holds i refl;
        charged = refl;
        queue = not-Queued f;
      })
wait-Wakes context_done a s st x e (holds i g) = absurd (cc g)
wait-Wakes context_done a s st x e (gave_up i g) = absurd (cc g)
wait-Wakes context_done a s st x e (turned_away i g) = absurd (cc g)
wait-Wakes signalled a s st x e (waits i f g) = absurd (cc (e, signalled_nil a s f))
wait-Wakes signalled a s st x e (dropped i f g) =
    result-Wakes _ (st, x) (signalled_false a s [] f) e
      (wrote (record (s.at a) { signals = [] }) (some rejected) (turned_away i refl) refl
        (not-Queued f))
wait-Wakes signalled a s st x e (chosen i f g) =
    result-Wakes _ (st, x) (signalled_true a s [] f) e
      (wrote (record (s.at a) { signals = [] }) none (holds i refl) refl (not-Queued f))
wait-Wakes signalled a s st x e (holds i g) = absurd (cc g)
wait-Wakes signalled a s st x e (gave_up i g) = absurd (cc g)
wait-Wakes signalled a s st x e (turned_away i g) = absurd (cc g)
