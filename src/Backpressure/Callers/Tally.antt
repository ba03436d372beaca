-- ===== src/Backpressure/Callers/Tally.antt =====
-- The tokens of the callers against the semaphore's, while waiters are removed from the queues.
use catfish.Prelude.{
  ℕ, ◌+◌, ◌<◌, ◌≡◌, ◌≢◌, refl, sym, ap, subst, ◌∙◌, inl, inr, false, Option, none, some, List,
  arith,
}
use catfish.Backpressure.Waiter.{Store, Waiter, Answer, admit, drop, send, write}
use catfish.Backpressure.Waiter.Cases.{
  admitted_as, admit_waits, admit_expired, admit_cases, drop_lem, write_same, write_other,
  write_all,
}
use catfish.Backpressure.Semaphore.Moves.{Removes, Moves, done, drops, admits, charged}
use catfish.Backpressure.Callers.{charge, owed, told, told_charge, total}
use catfish.Backpressure.Callers.Sums.{total-eq, total-change}
use catfish.Backpressure.Callers.Pending.{All, Distinct, All-zip, All-Removes, Distinct-Removes}
use catfish.Backpressure.Callers.Fair.{Fair, Queued, idle, late, chosen, drop-Fair, Queued-charge}

pub owed-write :
    (a : ℕ) (w : Waiter) (s : Store)
    → a < s.next
    → owed (write a w s) + charge (s.at a) ≡ owed s + charge w
owed-write a w s l =
    total-change (λ b. charge ((write a w s).at b)) (λ b. charge (s.at b)) s.next a l
      (λ b n. ap charge (write_other a b w s n))
    ∙ ap (λ v. owed s + charge v) (write_same a w s)

-- A queued waiter of the store.
abbrev pub Waits : (ℕ → Option Answer) → Store → ℕ → Type 0
Waits r s y = (y < s.next) × Queued (s.at y) (r y)

-- The waiters `ps` are queued, each once, and every waiter is fair to its caller; the `o` tokens out
-- and the `k` given back are the `g` granted at once and those that admitted waiters stand for.
pub record Tallied (r : ℕ → Option Answer) (g k : ℕ) (ps : List ℕ) (s : Store) (o : ℕ)
    : Type 0 where
  pub queued : All (Waits r s) ps
  pub distinct : Distinct ps
  pub fair : (b : ℕ) → Fair (s.at b) (r b)
  pub balance : o + k ≡ g + owed s

module _ (r : ℕ → Option Answer) (g k : ℕ) where
  -- The waiter `a` leaves the queues and becomes `w`.
  removed :
      {a : ℕ} {ps qs : List ℕ} {s : Store} {o : ℕ} (w : Waiter) (o' : ℕ)
      → Removes a ps qs
      → Tallied r g k ps s o
      → Fair w (r a)
      → o' ≡ o + charge w
      → Tallied r g k qs (write a w s) o'
  removed {a} {ps} {qs} {s} {o} w o' m t f e =
      let (q, qs') = All-Removes (Waits r s) m t.queued in
      let (apart, d) = Distinct-Removes m t.distinct in
      record {
        queued =
            All-zip (λ y. a ≢ y) (Waits r s) (Waits r (write a w s)) qs
              (λ y n h. (h.0, subst (λ v. Queued v (r y)) (sym (write_other a y w s n)) h.1)) apart
              qs';
        distinct = d;
        fair = write_all (λ b v. Fair v (r b)) a w s f t.fair;
        balance = omega (arith, owed-write a w s q.0, Queued-charge q.1, t.balance, e);
      }

  -- The waiter `a` leaves the queues as it is.
  forgotten :
      {a : ℕ} {ps qs : List ℕ} {s : Store} {o : ℕ}
      → Removes a ps qs
      → Tallied r g k ps s o
      → Tallied r g k qs s o
  forgotten {s} m t = record {
    queued = (All-Removes (Waits r s) m t.queued).1;
    distinct = (Distinct-Removes m t.distinct).1;
    fair = t.fair;
    balance = t.balance;
  }

  dropped-Tallied :
      {a : ℕ} {ps qs : List ℕ} {s : Store} {o : ℕ}
      → Removes a ps qs
      → Tallied r g k ps s o
      → Tallied r g k qs (drop a s) o
  dropped-Tallied {a} {s} {o} m t =
      let q = (All-Removes (Waits r s) m t.queued).0.1 in
      rw (drop_lem a s)
        (removed (send false (s.at a)) o m t (drop-Fair q) (omega (arith, Queued-charge q)))

  chosen-Tallied :
      {a : ℕ} {ps qs : List ℕ} {s : Store} {o : ℕ}
      → Removes a ps qs
      → Tallied r g k ps s o
      → Queued (s.at a) (r a)
      → Tallied r g k qs (admit a s).0 (charged o (s.at a).payload (admit a s).1)
  chosen-Tallied {a} {s} {o} m t (idle e f h) =
      rw (admit_waits a s e)
        (removed (admitted_as (s.at a)) (o + (s.at a).payload) m t (chosen refl (rw f) h) refl)
  chosen-Tallied {a} {s} {o} m t (late e f h) = rw (admit_expired a s e) (forgotten m t)

  admitted-Tallied :
      {a : ℕ} {ps qs : List ℕ} {s : Store} {o : ℕ}
      → Removes a ps qs
      → Tallied r g k ps s o
      → Tallied r g k qs (admit a s).0 (charged o (s.at a).payload (admit a s).1)
  admitted-Tallied {s} m t = chosen-Tallied m t (All-Removes (Waits r s) m t.queued).0.1

  pub Moves-Tallied :
      {ps ps' : List ℕ} {s s' : Store} {o o' : ℕ}
      → Moves ps s o ps' s' o'
      → Tallied r g k ps s o
      → Tallied r g k ps' s' o'
  Moves-Tallied done t = t
  Moves-Tallied (drops a m ms) t = Moves-Tallied ms (dropped-Tallied m t)
  Moves-Tallied (admits a m ms) t = Moves-Tallied ms (admitted-Tallied m t)

-- The addresses in use and the payloads, which no removal changes.
abbrev pub Steady : Store → Store → Type 0
Steady s t = (t.next ≡ s.next) × ((b : ℕ) → (t.at b).payload ≡ (s.at b).payload)

pub write-Steady :
    (a : ℕ) (w : Waiter) (s : Store) → w.payload ≡ (s.at a).payload → Steady s (write a w s)
write-Steady a w s e = (refl, write_all (λ b v. v.payload ≡ (s.at b).payload) a w s e (λ b. refl))

Steady-trans : (s t u : Store) → Steady s t → Steady t u → Steady s u
Steady-trans s t u h k = (k.0 ∙ h.0, λ b. k.1 b ∙ h.1 b)

admit-Steady : (a : ℕ) (s : Store) → Steady s (admit a s).0
admit-Steady a s = elim (admit_cases a s) [
  | inl e ↦ rw e (write-Steady a (admitted_as (s.at a)) s refl)
  | inr e ↦ rw e (refl, λ b. refl)
]

pub Moves-Steady :
    {ps ps' : List ℕ} {s s' : Store} {o o' : ℕ} → Moves ps s o ps' s' o' → Steady s s'
Moves-Steady done = (refl, λ b. refl)
Moves-Steady {s} {s'} (drops a m ms) =
    Steady-trans s (drop a s) s' (rw (drop_lem a s) (write-Steady a (send false (s.at a)) s refl))
      (Moves-Steady ms)
Moves-Steady {s} {s'} (admits a m ms) =
    Steady-trans s (admit a s).0 s' (admit-Steady a s) (Moves-Steady ms)

told_charge-eq :
    (x : Option Answer) (v w : Waiter) → v.payload ≡ w.payload → told_charge x v ≡ told_charge x w
told_charge-eq none v w e = refl
told_charge-eq (some none) v w e = e
told_charge-eq (some (some x)) v w e = refl

pub told-Steady : (r : ℕ → Option Answer) (s t : Store) → Steady s t → told r t ≡ told r s
told-Steady r s t h =
    ap (total (λ a. told_charge (r a) (t.at a))) h.0
    ∙ total-eq _ _ s.next (λ a. told_charge-eq (r a) (t.at a) (s.at a) (h.1 a))
