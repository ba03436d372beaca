-- ===== src/Deque/Steps.antt =====
-- What each operation of deque.go does to a deque that holds `n` items from index `f` on.
use native.Mathlib.Nat.{mod-add-mod, mod-eq_of_lt, add-zero, add_assoc}
use catfish.Prelude.{
  ℕ, zero, suc, ◌+◌, ◌%◌, ◌≤◌, ◌<◌, ◌≡◌, refl, none, some, List, arith, length, ◌==◌, if◌then◌else◌,
  get_or, set, replicate, length-set, step-mod, mod-below,
}
use catfish.Deque.{
  Deque, deque_full, next_back, put_front, step_back, len, is_full, new, prepare, push_front,
  push_back, pop_front, pop_back, front_item, back_item, default_capacity,
}
use catfish.Deque.Inv.{ring_at, zero_deque, back_of, len-ring_at, step_back_lem}

step_back-mod :
    (size f k : ℕ) → f < size → suc k < size → step_back ((f + suc k) % size) size ≡ (f + k) % size
step_back-mod size f k hf hk = ground (
  arith,
  mod-below size (f + suc k) (omega arith),
  mod-below size (f + k) (omega arith),
  step_back_lem ((f + suc k) % size) size (omega arith),
)

pub step_back-lt : (f size : ℕ) → f < size → step_back f size < size
step_back-lt f size h = omega (arith, step_back_lem f size h)

pub step_back-next : (f size : ℕ) → f < size → (step_back f size + 1) % size ≡ f
step_back-next f size h = omega (
  arith,
  step_back_lem f size h,
  mod-below size (step_back f size + 1) (omega (arith, step_back_lem f size h)),
)

module _ {ℓ} {A : Type ℓ} (nil : A) where
  pub new_lem : (c : ℕ) → 0 < c → new nil c ≡ some (ring_at (replicate c nil) 0 0)
  unfolding new
  new_lem c h = ground arith

  pub new_zero : new nil 0 ≡ none
  unfolding new
  new_zero = refl

  pub prepare-ring_at : (xs : List A) (f n : ℕ) → prepare nil (ring_at xs f n) ≡ ring_at xs f n
  unfolding prepare
  prepare-ring_at xs f n = refl

  -- The lazily allocated deque is the empty ring of the default capacity.
  pub prepare-zero_deque : prepare nil zero_deque ≡ ring_at (replicate default_capacity nil) 0 0
  unfolding prepare
  prepare-zero_deque = refl

module _ {ℓ} {A : Type ℓ} (nil : A) (xs : List A) (f : ℕ) (hf : f < length xs) where
  next_back-ring_at : (n : ℕ) → n < length xs → next_back nil (ring_at xs f n) ≡ (f + n) % length xs
  unfolding next_back
  next_back-ring_at zero hn = rw (len-ring_at xs f 0 hf (omega arith), add-zero, mod-eq_of_lt hf)
  next_back-ring_at (suc k) hn =
      rw (len-ring_at xs f (suc k) hf (omega arith), mod-add-mod) (ground (arith, add_assoc f k 1))

module _ {ℓ} {A : Type ℓ} (nil : A) (xs : List A) (f n : ℕ) (hf : f < length xs) where
  pub is_full-ring_at : n ≤ length xs → is_full (ring_at xs f n) ≡ (n == length xs)
  unfolding is_full
  is_full-ring_at hn = rw (len-ring_at xs f n hf hn)

  pub push_back-ring_at :
      (x : A)
      → n < length xs
      → push_back nil (ring_at xs f n) x
        ≡ (ring_at (set xs ((f + n) % length xs) x) f (suc n), none)
  unfolding push_back
  push_back-ring_at x hn =
      rw
        (
          prepare-ring_at nil xs f n,
          is_full-ring_at (omega arith),
          next_back-ring_at nil xs f hf n hn,
        )
        (ground (arith, length-set xs ((f + n) % length xs) x))

  pub push_back-full :
      (x : A) → n ≡ length xs → push_back nil (ring_at xs f n) x ≡ (ring_at xs f n, some deque_full)
  unfolding push_back
  push_back-full x hn =
      rw (prepare-ring_at nil xs f n, is_full-ring_at (omega arith)) (ground arith)

module _ {ℓ} {A : Type ℓ} (nil : A) (xs : List A) (f : ℕ) (hf : f < length xs) where
  -- Taking the last item resets the deque.
  pub pop_front-last :
      pop_front nil (ring_at xs f 1) ≡ some (get_or xs f nil, ring_at (set xs f nil) 0 0)
  unfolding pop_front
  pop_front-last = rw (len-ring_at xs f 1 hf (omega arith))

  pub pop_front-more :
      (k : ℕ)
      → suc k < length xs
      → pop_front nil (ring_at xs f (suc (suc k)))
        ≡ some (get_or xs f nil, ring_at (set xs f nil) ((f + 1) % length xs) (suc k))
  unfolding pop_front
  pop_front-more k hk =
      rw
        (
          len-ring_at xs f (suc (suc k)) hf (omega arith),
          length-set xs f nil,
          step-mod (length xs) f k,
        )
        (ground arith)

  pub pop_back-last :
      pop_back nil (ring_at xs f 1) ≡ some (get_or xs f nil, ring_at (set xs f nil) 0 0)
  unfolding pop_back
  pop_back-last = rw (len-ring_at xs f 1 hf (omega arith), add-zero, mod-eq_of_lt hf)

  pub pop_back-more :
      (k : ℕ)
      → suc k < length xs
      → pop_back nil (ring_at xs f (suc (suc k)))
        ≡ some (
          get_or xs ((f + suc k) % length xs) nil,
          ring_at (set xs ((f + suc k) % length xs) nil) f (suc k),
        )
  unfolding pop_back
  pop_back-more k hk =
      rw
        (
          len-ring_at xs f (suc (suc k)) hf (omega arith),
          length-set xs ((f + suc k) % length xs) nil,
          step_back-mod (length xs) f k hf hk,
        )
        (ground arith)

  pub front_item-ring_at :
      (n : ℕ) → n < length xs → front_item nil (ring_at xs f (suc n)) ≡ some (get_or xs f nil)
  unfolding front_item
  front_item-ring_at n hn = rw (len-ring_at xs f (suc n) hf (omega arith)) (ground arith)

  pub back_item-ring_at :
      (n : ℕ)
      → n < length xs
      → back_item nil (ring_at xs f (suc n)) ≡ some (get_or xs ((f + n) % length xs) nil)
  unfolding back_item
  back_item-ring_at n hn = rw (len-ring_at xs f (suc n) hf (omega arith)) (ground arith)

  -- `len` after the front has moved: it still counts the old items when there were none.
  len_moved :
      (ys : List A) (g n : ℕ)
      → length ys ≡ length xs
      → g < length xs
      → (g + 1) % length xs ≡ f
      → n < length xs
      → (let e : Deque A = record (ring_at ys g 0) { back = back_of (length xs) f n } in
          if len e == 0 then record e { back = some g } else e)
        ≡ ring_at ys g (suc n)
  len_moved ys g zero el hg e hn =
      rw (len-ring_at ys g 0 (omega arith) (omega arith), add-zero, el, mod-eq_of_lt hg)
  len_moved ys g (suc k) el hg e hn =
      rw
        (
          ← e,
          step-mod (length xs) g k,
          ← el,
          len-ring_at ys g (suc (suc k)) (omega arith) (omega arith),
        )
        (ground arith)

  pub push_front-ring_at :
      (n : ℕ) (x : A)
      → n < length xs
      → push_front nil (ring_at xs f n) x
        ≡ (ring_at (set xs (step_back f (length xs)) x) (step_back f (length xs)) (suc n), none)
  unfolding push_front put_front
  push_front-ring_at n x hn =
      let g = step_back f (length xs) in
      rw (prepare-ring_at nil xs f n, is_full-ring_at nil xs f n hf (omega arith))
        (ground (
          arith,
          len_moved (set xs g x) g n (length-set xs g x) (step_back-lt f (length xs) hf)
              (step_back-next f (length xs) hf) hn,
        ))

  pub push_front-full :
      (n : ℕ) (x : A)
      → n ≡ length xs
      → push_front nil (ring_at xs f n) x ≡ (ring_at xs f n, some deque_full)
  unfolding push_front
  push_front-full n x hn =
      rw (prepare-ring_at nil xs f n, is_full-ring_at nil xs f n hf (omega arith)) (ground arith)
