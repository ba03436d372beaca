-- ===== src/Backpressure/Codel/Reap.antt =====
-- backpressure/codel.go: `reap` on the list of the waiters.
use catfish.Prelude.{
  ℕ, zero, suc, ◌-◌, ◌≤◌, ◌≡◌, refl, sym, subst, ap, ◌∙◌, inl, inr, Bool, true, false, ◌&&◌, Option,
  none, some, List, [], ◌∷◌, arith, length, ltb, if◌then◌else◌, Bool-cases, lt→ltb,
}
use mathlib.Core.Option
use native.Mathlib.Nat.{le_of_eq}
use catfish.Deque.{Deque, len, pop_front, front_item}
use catfish.Deque.Bounded
use catfish.Deque.Pops.{Pops, panics, takes, pop_front_refines, front_refines}
use catfish.Backpressure.Waiter.{Store, drop}
use catfish.Backpressure.Codel.{Codel, nil, set_mode, reap, reap_loop, stale_front, timeout_of}
use catfish.Backpressure.Codel.View.{Lists, Shows, Lists-len, set_mode-Shows}

module _ (now timeout : ℕ) where
  abbrev pub is_stale : Store → ℕ → Bool
  is_stale s a = ltb timeout (now - (s.at a).enqueued)

  -- The loop over the list of waiters, oldest first.
  unfoldable pub reap_list : List ℕ → Store → List ℕ × Store
  reap_list [] s = ([], s)
  reap_list (a ∷ l) s = if is_stale s a then reap_list l (drop a s) else (a ∷ l, s)

  front_is_stale : Store → Option ℕ → Bool
  front_is_stale s none = false
  front_is_stale s (some a) = is_stale s a

  test : Deque ℕ → Store → Bool
  test q s = ltb 0 (len q) && stale_front now timeout q s

  test_nil : {size : ℕ} (q : Deque ℕ) (s : Store) → Lists size [] q → test q s ≡ false
  unfolding test
  test_nil q s h = rw (Lists-len h)

  test_cons :
      {size : ℕ} (a : ℕ) (l : List ℕ) (q : Deque ℕ) (s : Store)
      → Lists size (a ∷ l) q
      → test q s ≡ is_stale s a
  unfolding test stale_front
  test_cons a l q s h =
      rw (Lists-len h, lt→ltb 0 (suc (length l)) (omega arith), front_cons, stale_front)
    where
      front_cons : front_item nil q ≡ some a
      front_cons =
          front_refines nil h.valid
          ∙ ap (λ k. Option.map (λ p. p.0) (Bounded.pop_front k)) h.items
          ∙ ap (Option.map (λ p. p.0)) (Bounded.pop_front-cons a l)

  loop_ends : (q : Deque ℕ) (s : Store) → reap_loop 0 now timeout q s ≡ (q, s)
  unfolding reap_loop
  loop_ends q s = refl

  loop_stops :
      (f : ℕ) (q : Deque ℕ) (s : Store)
      → test q s ≡ false
      → reap_loop (suc f) now timeout q s ≡ (q, s)
  unfolding reap_loop test
  loop_stops f q s e = rw (e, reap_loop)

  loop_goes :
      (f : ℕ) (q : Deque ℕ) (s : Store) (a : ℕ) (q' : Deque ℕ)
      → test q s ≡ true
      → pop_front nil q ≡ some (a, q')
      → reap_loop (suc f) now timeout q s ≡ reap_loop f now timeout q' (drop a s)
  unfolding reap_loop test
  loop_goes f q s a q' e e' = rw (e, e', reap_loop)

  popped :
      {size : ℕ} (a : ℕ) (l : List ℕ) (q : Deque ℕ)
      → Lists size (a ∷ l) q
      → (q' : Deque ℕ) × (pop_front nil q ≡ some (a, q')) × Lists size l q'
  popped {size} a l q h =
      take (pop_front nil q) refl
        (rw (h.room, h.items, Bounded.pop_front-cons a l) at (pop_front_refines nil h.valid))
    where
      take :
          (r : Option (ℕ × Deque ℕ))
          → pop_front nil q ≡ r
          → Pops nil size r (some (a, l))
          → (q' : Deque ℕ) × (pop_front nil q ≡ some (a, q')) × Lists size l q'
      take r e (panics es er) = cc
      take r e (takes b q' l' es er k) = (q', cc, subst (λ m. Lists size m q') (cc) k)

  pub reap_loop_lem :
      (f size : ℕ) (l : List ℕ) (q : Deque ℕ) (s : Store)
      → length l ≤ f
      → Lists size l q
      → Lists size (reap_list l s).0 (reap_loop f now timeout q s).0
        × ((reap_loop f now timeout q s).1 ≡ (reap_list l s).1)
  unfolding reap_list
  reap_loop_lem zero size [] q s hf h = rw (loop_ends q s) (h, refl)
  reap_loop_lem zero size (a ∷ l) q s hf h = absurd (omega arith)
  reap_loop_lem (suc f) size [] q s hf h = rw (loop_stops f q s (test_nil q s h)) (h, refl)
  reap_loop_lem (suc f) size (a ∷ l) q s hf h = elim (Bool-cases (is_stale s a)) [
    | inl old ↦
        let (q', e, k) = popped a l q h in
        rw (loop_goes f q s a q' (test_cons a l q s h ∙ old) e, old)
          (reap_loop_lem f size l q' (drop a s) (omega arith) k)
    | inr fresh ↦ rw (loop_stops f q s (test_cons a l q s h ∙ fresh), fresh) (h, refl)
  ]

-- `reap` sets the mode, runs the loop with that mode's timeout, and sets the mode again.
pub reap-Shows :
    {size : ℕ} {l : List ℕ} (c : Codel) (s : Store) (now : ℕ)
    → Shows size l c
    → let r = reap_list now (timeout_of (set_mode now c)) l s in
      Shows size r.0 (reap now c s).0 × ((reap now c s).1 ≡ r.1)
unfolding reap
reap-Shows {size} {l} c s now h =
    let c' = set_mode now c in
    let k = set_mode-Shows c now h in
    let (q, e) =
      reap_loop_lem now (timeout_of c') (len c'.items) size l c'.items s
        (le_of_eq (sym (Lists-len k))) k in
    (
      set_mode-Shows
          (record c' { items = (reap_loop (len c'.items) now (timeout_of c') c'.items s).0 }) now q,
      e,
    )

-- Nothing happens to an empty queue.
pub reap_nil :
    {size : ℕ} (c : Codel) (s : Store) (now : ℕ)
    → Shows size [] c
    → Shows size [] (reap now c s).0 × ((reap now c s).1 ≡ s)
unfolding reap_list
reap_nil c s now h = reap-Shows c s now h
