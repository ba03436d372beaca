-- ===== src/Backpressure/Callers/Answers.antt =====
-- backpressure/: a new waiter, and the answer to a caller, against the tally of the tokens.
use catfish.Prelude.{
  ℕ, suc, ◌≤◌, ◌≡◌, ◌≢◌, refl, subst, ap, ◌∙◌, inl, inr, Option, none, some, List, [], arith, ◌==◌,
  Bool-cases,
}
use catfish.Backpressure.Waiter.{Store, Waiter, alloc, new_waiter, waiting, write}
use catfish.Backpressure.Codel.View.{idle}
use catfish.Backpressure.Waiter.{Answer}
use catfish.Backpressure.Waiter.Cases.{
  new_waiter_lem, alloc_lem, write_same, write_other, write_all,
}
use catfish.Backpressure.Semaphore.Entries.{Joins}
use catfish.Backpressure.Callers.{charge, told_charge, owed, told, answered, total}
use catfish.Backpressure.Callers.Sums.{total-eq, total-le, total-eq_below}
use catfish.Backpressure.Callers.Pending.{All, All-map, All-insert, Distinct-insert}
use catfish.Backpressure.Callers.Fair.{Fair, Queued, waits, idle, charge-waiting, Wakes}
use catfish.Backpressure.Callers.Tally.{Waits, Tallied}

module _ (r : ℕ → Option Answer) (g k : ℕ) where
  -- A new waiter that joins the queues, or finds its queue full.
  pub alloc-Tallied :
      {ps qs : List ℕ} {s : Store} {o : ℕ} (time payload : ℕ)
      → r s.next ≡ none
      → Joins s.next ps qs
      → Tallied r g k qs s o
      → Tallied r g k ps (alloc (new_waiter time payload) s) o
  alloc-Tallied {ps} {qs} {s} {o} time payload n j t = rw (alloc_lem w s) (record {
    queued = elim j [
      | inl e ↦ rw e kept
      | inr m ↦ All-insert (Waits r s') m (omega arith, made) kept
    ];
    distinct = elim j [
      | inl e ↦ rw e t.distinct
      | inr m ↦
          Distinct-insert m
            (All-map (Waits r s) (λ y. s.next ≢ y) qs (λ y h e. omega (arith, h.0, e)) t.queued)
            t.distinct
    ];
    fair = write_all (λ b v. Fair v (r b)) s.next w s (waits f.0 f.1 n) t.fair;
    balance = omega (arith, t.balance, fresh_charge, old_charges);
  })
    where
      w : Waiter
      w = new_waiter time payload

      s' : Store
      s' = record (write s.next w s) { next = suc s.next }

      f : (w.state ≡ waiting) × (w.signals ≡ []) × (w.payload ≡ payload)
      f = new_waiter_lem time payload

      made : Queued (s'.at s.next) (r s.next)
      made = rw (write_same s.next w s) (idle f.0 f.1 n)

      kept : All (Waits r s') qs
      kept =
          All-map (Waits r s) (Waits r s') qs
            (λ y h.
              (omega (arith, h.0), rw (write_other s.next y w s (λ e. omega (arith, h.0, e))) h.1))
            t.queued

      fresh_charge : charge (s'.at s.next) ≡ 0
      fresh_charge = rw (write_same s.next w s) (charge-waiting w f.0)

      old_charges : total (λ a. charge (s'.at a)) s.next ≡ owed s
      old_charges =
          total-eq_below (λ a. charge (s'.at a)) (λ a. charge (s.at a)) s.next
            (λ a l. ap charge (write_other s.next a w s (λ e. omega (arith, l, e))))

  -- What holds at each address, after the caller of `a` has its answer.
  after_answer :
      (P : ℕ → Waiter → Option Answer → Type 0) {s st : Store} (a : ℕ) (x : Answer)
      → Wakes a s st x
      → P a (st.at a) (some x)
      → ((b : ℕ) → a ≢ b → P b (s.at b) (r b))
      → (b : ℕ) → P b (st.at b) (answered a x r b)
  after_answer P {s} {st} a x w h others b = elim (Bool-cases (a == b)) [
    | inl e ↦ rw e (subst (λ c. P c (st.at c) (some x)) (ground arith) h)
    | inr e ↦ rw (e, w.others b (ground arith)) (others b (ground arith))
  ]

  pub answered-Tallied :
      {ps : List ℕ} {s st : Store} {o : ℕ} (a : ℕ) (x : Answer)
      → r a ≡ none
      → Wakes a s st x
      → Tallied r g k ps s o
      → Tallied (answered a x r) g k ps st o
  answered-Tallied {ps} {s} {st} {o} a x n w t = record {
    queued =
        All-map (Waits r s) (Waits (answered a x r) st) ps (λ y h. (rw w.kept h.0, queue y h.1))
          t.queued;
    distinct = t.distinct;
    fair = after_answer (λ b v o. Fair v o) a x w w.told_so (λ b n. t.fair b);
    balance = omega (arith, t.balance, same);
  }
    where
      queue : (y : ℕ) → Queued (s.at y) (r y) → Queued (st.at y) (answered a x r y)
      queue =
          after_answer (λ y v o. Queued (s.at y) (r y) → Queued v o) a x w
            (λ h. w.queue (rw n at h)) (λ y m h. h)

      same : owed st ≡ owed s
      same =
          ap (total (λ b. charge (st.at b))) w.kept
          ∙ total-eq (λ b. charge (st.at b)) (λ b. charge (s.at b)) s.next
              (after_answer (λ b v o. charge v ≡ charge (s.at b)) a x w w.charged (λ b m. refl))

  -- An answer never lowers what the callers know to hold.
  pub told-answered :
      {s st : Store} (a : ℕ) (x : Answer)
      → r a ≡ none
      → Wakes a s st x
      → told r s ≤ told (answered a x r) st
  told-answered {s} {st} a x n w = rw w.kept (
      total-le (λ b. told_charge (r b) (s.at b)) (λ b. told_charge (answered a x r b) (st.at b))
        s.next
        (after_answer (λ b v o. told_charge (r b) (s.at b) ≤ told_charge o v) a x w
          (rw n (omega arith)) (λ b m. omega arith)))

  -- Nor does a new waiter.
  pub told-alloc :
      (s : Store) (time payload : ℕ)
      → r s.next ≡ none
      → told r (alloc (new_waiter time payload) s) ≡ told r s
  told-alloc s time payload n =
      rw (alloc_lem (new_waiter time payload) s, n)
        (omega (
          arith,
          total-eq_below (λ b. told_charge (r b) ((write s.next (new_waiter time payload) s).at b))
              (λ b. told_charge (r b) (s.at b)) s.next
              (λ b l.
                ap (told_charge (r b))
                  (write_other s.next b (new_waiter time payload) s (λ e. omega (arith, l, e)))),
        ))
