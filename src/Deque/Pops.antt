-- ===== src/Deque/Pops.antt =====
-- The removals and reads of deque.go against the bounded list.
use catfish.Prelude.{
  ℕ, zero, suc, ◌+◌, ◌%◌, ◌≤◌, ◌<◌, ◌≡◌, refl, sym, Option, none, some, List, [], arith, length,
  get_or, set, window, length-window, window-suc, window-set_before, window-pop_back,
}
use mathlib.Core.Option
use catfish.Deque.Bounded
use catfish.Deque.{Deque, cells, len, pop_front, pop_back, front_item, back_item}
use catfish.Deque.Inv.{ring_at, IsValid, ring, unallocated, len-ring_at}
use catfish.Deque.Steps.{
  pop_front-last, pop_front-more, pop_back-last, pop_back-more, front_item-ring_at,
  back_item-ring_at,
}
use catfish.Deque.Refine.{contents, bound, Holds, Holds-set, contents-ring_at, bound-ring_at}

module _ {ℓ} {A : Type ℓ} (nil : A) where
  -- A removal `r` from a deque of `size` cells does what `s` does to the list.
  pub data Pops (size : ℕ) (r : Option (A × Deque A)) (s : Option (A × List A)) : Type ℓ where
    panics : s ≡ none → r ≡ none → Pops size r s
    takes :
        (x : A) (d : Deque A) (q : List A)
        → s ≡ some (x, q)
        → r ≡ some (x, d)
        → Holds nil size q d
        → Pops size r s

  pop_front-ring :
      (xs : List A) (f n : ℕ)
      → f < length xs
      → n ≤ length xs
      → Pops
          (length xs)
          (pop_front nil (ring_at xs f n))
          (Bounded.pop_front (window nil (length xs) xs f n))
  unfolding Bounded.pop_front pop_front
  pop_front-ring xs f zero hf hn = panics refl (rw (len-ring_at xs f 0 hf hn))
  pop_front-ring xs f (suc zero) hf hn =
      takes (get_or xs f nil) (ring_at (set xs f nil) 0 0) [] refl (pop_front-last nil xs f hf)
        (Holds-set nil xs f nil 0 0 [] (omega arith) (omega arith) refl)
  pop_front-ring xs f (suc (suc k)) hf hn =
      takes (get_or xs f nil) (ring_at (set xs f nil) ((f + 1) % length xs) (suc k)) _ refl
        (pop_front-more nil xs f hf k (omega arith))
        (Holds-set nil xs f nil ((f + 1) % length xs) (suc k)
          (window nil (length xs) xs ((f + 1) % length xs) (suc k)) (omega arith) (omega arith)
          (window-set_before nil (length xs) xs nil f (suc k) hf (omega arith)))

  pop_back-window :
      (size : ℕ) (xs : List A) (f n : ℕ)
      → f < size
      → Bounded.pop_back (window nil size xs f (suc n))
        ≡ some (get_or xs ((f + n) % size) nil, window nil size xs f n)
  pop_back-window size xs f n hf =
      rw (window-suc nil size xs f n hf)
        (Bounded.pop_back-append (window nil size xs f n) (get_or xs ((f + n) % size) nil))

  pop_back-ring :
      (xs : List A) (f n : ℕ)
      → f < length xs
      → n ≤ length xs
      → Pops
          (length xs)
          (pop_back nil (ring_at xs f n))
          (Bounded.pop_back (window nil (length xs) xs f n))
  unfolding Bounded.pop_back pop_back
  pop_back-ring xs f zero hf hn = panics refl (rw (len-ring_at xs f 0 hf hn))
  pop_back-ring xs f (suc zero) hf hn =
      takes (get_or xs f nil) (ring_at (set xs f nil) 0 0) [] refl (pop_back-last nil xs f hf)
        (Holds-set nil xs f nil 0 0 [] (omega arith) (omega arith) refl)
  pop_back-ring xs f (suc (suc k)) hf hn =
      let i = (f + suc k) % length xs in
      takes (get_or xs i nil) (ring_at (set xs i nil) f (suc k))
        (window nil (length xs) xs f (suc k)) (pop_back-window (length xs) xs f (suc k) hf)
        (pop_back-more nil xs f hf k (omega arith))
        (Holds-set nil xs i nil f (suc k) (window nil (length xs) xs f (suc k)) hf (omega arith)
          (window-pop_back nil (length xs) xs nil f (suc k) hf (omega arith)))

  -- `PopFront` on a valid deque panics on the empty list only, and else takes its head.
  pub pop_front_refines :
      {d : Deque A}
      → IsValid d
      → Pops (bound nil d) (pop_front nil d) (Bounded.pop_front (contents nil d))
  unfolding Bounded.pop_front pop_front len
  pop_front_refines (unallocated e) = rw e (panics refl refl)
  pop_front_refines (ring xs f n hf hn e) =
      rw (e, contents-ring_at nil xs f n hf hn, bound-ring_at nil xs f n)
        (pop_front-ring xs f n hf hn)

  pub pop_back_refines :
      {d : Deque A}
      → IsValid d
      → Pops (bound nil d) (pop_back nil d) (Bounded.pop_back (contents nil d))
  unfolding Bounded.pop_back pop_back len
  pop_back_refines {d} (unallocated e) = rw e (panics refl refl)
  pop_back_refines (ring xs f n hf hn e) =
      rw (e, contents-ring_at nil xs f n hf hn, bound-ring_at nil xs f n)
        (pop_back-ring xs f n hf hn)

  pub len-contents : {d : Deque A} → IsValid d → len d ≡ length (contents nil d)
  len-contents {d} v = sym (length-window nil (length (cells d)) (cells d) d.front (len d))

  -- The reads return what a removal would take.
  pub front_refines :
      {d : Deque A}
      → IsValid d
      → front_item nil d ≡ Option.map (λ p. p.0) (Bounded.pop_front (contents nil d))
  unfolding Bounded.pop_front front_item len
  front_refines (unallocated e) = rw e
  front_refines (ring xs f n hf hn e) = rw (e, contents-ring_at nil xs f n hf hn) (read n hn)
    where
      read :
          (n : ℕ)
          → n ≤ length xs
          → front_item nil (ring_at xs f n)
            ≡ Option.map (λ p. p.0) (Bounded.pop_front (window nil (length xs) xs f n))
      read zero hn = refl
      read (suc k) hn = front_item-ring_at nil xs f hf k (omega arith)

  pub back_refines :
      {d : Deque A}
      → IsValid d
      → back_item nil d ≡ Option.map (λ p. p.0) (Bounded.pop_back (contents nil d))
  unfolding back_item len
  back_refines {d} (unallocated e) = rw (e, Bounded.pop_back-nil A)
  back_refines (ring xs f n hf hn e) = rw (e, contents-ring_at nil xs f n hf hn) (read n hn)
    where
      read :
          (n : ℕ)
          → n ≤ length xs
          → back_item nil (ring_at xs f n)
            ≡ Option.map (λ p. p.0) (Bounded.pop_back (window nil (length xs) xs f n))
      read zero hn = rw (Bounded.pop_back-nil A)
      read (suc k) hn =
          rw (pop_back-window (length xs) xs f k hf) (back_item-ring_at nil xs f hf k (omega arith))
