-- ===== src/Deque/Refine.antt =====
-- A deque of deque.go against a bounded list: the front of the deque is the head of the list.
use catfish.Prelude.{
  ℕ, suc, ◌+◌, ◌%◌, ◌≤◌, ◌<◌, ◌≡◌, refl, subst, ◌∙◌, List, [], ◌∷◌, ◌++◌, arith, length, ==-eq_true,
  ==-eq_false, set, replicate, length-set, length-replicate, window, length-window,
  window-push_back, window-push_front,
}
use catfish.Deque.Bounded
use native.Mathlib.Decide.{ℕ_discrete}
use catfish.Deque.{Deque, step_back, cells, len, prepare, push_front, push_back, default_capacity}
use catfish.Deque.Inv.{ring_at, IsValid, ring, unallocated, len-ring_at}
use catfish.Deque.Steps.{
  prepare-ring_at, prepare-zero_deque, push_back-ring_at, push_back-full, push_front-ring_at,
  push_front-full, step_back-lt, step_back-next,
}

module _ {ℓ} {A : Type ℓ} (nil : A) where
  -- the items, front first
  abbrev pub contents : Deque A → List A
  contents d = window nil (length (cells d)) (cells d) d.front (len d)

  -- how many items fit
  abbrev pub bound : Deque A → ℕ
  bound d = length (cells (prepare nil d))

  pub contents-ring_at :
      (xs : List A) (f n : ℕ)
      → f < length xs
      → n ≤ length xs
      → contents (ring_at xs f n) ≡ window nil (length xs) xs f n
  contents-ring_at xs f n hf hn = rw (len-ring_at xs f n hf hn)

  pub bound-ring_at : (xs : List A) (f n : ℕ) → bound (ring_at xs f n) ≡ length xs
  bound-ring_at xs f n = rw (prepare-ring_at nil xs f n)

  -- What an operation that leaves the items `q` in the deque guarantees of it.
  pub record Holds (size : ℕ) (q : List A) (d : Deque A) : Type ℓ where
    pub valid : IsValid d
    pub room : bound d ≡ size
    pub items : contents d ≡ q

  pub Holds-ring_at :
      (xs : List A) (f n : ℕ) (q : List A)
      → f < length xs
      → n ≤ length xs
      → window nil (length xs) xs f n ≡ q
      → Holds (length xs) q (ring_at xs f n)
  Holds-ring_at xs f n q hf hn e = record {
    valid = ring xs f n hf hn refl;
    room = bound-ring_at xs f n;
    items = contents-ring_at xs f n hf hn ∙ e;
  }

  pub Holds-set :
      (xs : List A) (i : ℕ) (x : A) (f n : ℕ) (q : List A)
      → f < length xs
      → n ≤ length xs
      → window nil (length xs) (set xs i x) f n ≡ q
      → Holds (length xs) q (ring_at (set xs i x) f n)
  Holds-set xs i x f n q hf hn e =
      subst (λ k. Holds k q (ring_at (set xs i x) f n)) (length-set xs i x)
        (Holds-ring_at (set xs i x) f n q (rw (length-set xs i x) hf) (rw (length-set xs i x) hn)
          (rw (length-set xs i x) e))

  -- A valid deque is a ring once a push has prepared it, and holds the same items before and after.
  record Prepared (d : Deque A) : Type ℓ where
    xs : List A
    f : ℕ
    n : ℕ
    inside : f < length xs
    fits : n ≤ length xs
    ready : prepare nil d ≡ ring_at xs f n
    same : contents d ≡ window nil (length xs) xs f n

  prepared : {d : Deque A} → IsValid d → Prepared d
  unfolding len
  prepared (unallocated e) = rw e (record {
    xs = replicate default_capacity nil;
    f = 0;
    n = 0;
    inside = omega (arith, length-replicate default_capacity nil);
    fits = omega arith;
    ready = prepare-zero_deque nil;
    same = refl;
  })
  prepared (ring xs f n hf hn e) = rw e (record {
    xs = xs;
    f = f;
    n = n;
    inside = hf;
    fits = hn;
    ready = prepare-ring_at nil xs f n;
    same = contents-ring_at xs f n hf hn;
  })

  push_back-prepare :
      (d : Deque A) (x : A) (xs : List A) (f n : ℕ)
      → prepare nil d ≡ ring_at xs f n
      → push_back nil d x ≡ push_back nil (ring_at xs f n) x
  unfolding push_back
  push_back-prepare d x xs f n e = rw (e, prepare-ring_at nil xs f n)

  push_front-prepare :
      (d : Deque A) (x : A) (xs : List A) (f n : ℕ)
      → prepare nil d ≡ ring_at xs f n
      → push_front nil d x ≡ push_front nil (ring_at xs f n) x
  unfolding push_front
  push_front-prepare d x xs f n e = rw (e, prepare-ring_at nil xs f n)

  push_back-ring :
      (xs : List A) (f n : ℕ) (x : A)
      → f < length xs
      → n ≤ length xs
      → let q = window nil (length xs) xs f n in
        Holds (length xs) (Bounded.push_back (length xs) q x).0 (push_back nil (ring_at xs f n) x).0
        × ((push_back nil (ring_at xs f n) x).1 ≡ (Bounded.push_back (length xs) q x).1)
  unfolding Bounded.push_back
  push_back-ring xs f n x hf hn = elim (ℕ_discrete n (length xs)) [
    | yes e ↦
        rw
          (
            push_back-full nil xs f n hf x e,
            length-window nil (length xs) xs f n,
            ==-eq_true n (length xs) e,
          )
          (Holds-ring_at xs f n (window nil (length xs) xs f n) hf hn refl, refl)
    | no ne ↦
        rw
          (
            push_back-ring_at nil xs f n hf x (omega arith),
            length-window nil (length xs) xs f n,
            ==-eq_false n (length xs) ne,
          )
          (
            Holds-set xs ((f + n) % length xs) x f (suc n)
                (window nil (length xs) xs f n ++ (x ∷ [])) hf (omega arith)
                (window-push_back nil (length xs) xs x f n refl hf (omega arith)),
            refl,
          )
  ]

  push_front-ring :
      (xs : List A) (f n : ℕ) (x : A)
      → f < length xs
      → n ≤ length xs
      → let q = window nil (length xs) xs f n in
        Holds
          (length xs)
          (Bounded.push_front (length xs) q x).0
          (push_front nil (ring_at xs f n) x).0
        × ((push_front nil (ring_at xs f n) x).1 ≡ (Bounded.push_front (length xs) q x).1)
  unfolding Bounded.push_front
  push_front-ring xs f n x hf hn = elim (ℕ_discrete n (length xs)) [
    | yes e ↦
        rw
          (
            push_front-full nil xs f hf n x e,
            length-window nil (length xs) xs f n,
            ==-eq_true n (length xs) e,
          )
          (Holds-ring_at xs f n (window nil (length xs) xs f n) hf hn refl, refl)
    | no ne ↦
        rw
          (
            push_front-ring_at nil xs f hf n x (omega arith),
            length-window nil (length xs) xs f n,
            ==-eq_false n (length xs) ne,
          )
          (
            Holds-set xs (step_back f (length xs)) x (step_back f (length xs)) (suc n)
                (x ∷ window nil (length xs) xs f n) (step_back-lt f (length xs) hf) (omega arith)
                (window-push_front nil (length xs) xs x (step_back f (length xs)) f n refl
                  (step_back-lt f (length xs) hf) (step_back-next f (length xs) hf) (omega arith)),
            refl,
          )
  ]

  -- `PushBack` on a valid deque: the outcome and the items are those of the bounded list.
  pub push_back_refines :
      {d : Deque A} (x : A)
      → IsValid d
      → Holds (bound d) (Bounded.push_back (bound d) (contents d) x).0 (push_back nil d x).0
        × ((push_back nil d x).1 ≡ (Bounded.push_back (bound d) (contents d) x).1)
  push_back_refines {d} x v =
      let p = prepared v in
      rw (p.ready, p.same, push_back-prepare d x p.xs p.f p.n p.ready)
        (push_back-ring p.xs p.f p.n x p.inside p.fits)

  pub push_front_refines :
      {d : Deque A} (x : A)
      → IsValid d
      → Holds (bound d) (Bounded.push_front (bound d) (contents d) x).0 (push_front nil d x).0
        × ((push_front nil d x).1 ≡ (Bounded.push_front (bound d) (contents d) x).1)
  push_front_refines {d} x v =
      let p = prepared v in
      rw (p.ready, p.same, push_front-prepare d x p.xs p.f p.n p.ready)
        (push_front-ring p.xs p.f p.n x p.inside p.fits)
