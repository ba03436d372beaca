-- ===== src/Deque/Bounded.antt =====
-- The abstract deque: a list of at most `size` items, front first.
use catfish.Prelude.{
  ◌≡◌, refl, ap, arith, ℕ, Option, none, some, List, [], ◌∷◌, ◌++◌, length, ◌==◌, if◌then◌else◌,
}
use catfish.Deque.{DequeError, deque_full}

module _ {ℓ} {A : Type ℓ} where
  unfoldable pub push_back : ℕ → List A → A → List A × Option DequeError
  push_back size q x = if length q == size then (q, some deque_full) else (q ++ (x ∷ []), none)

  unfoldable pub push_front : ℕ → List A → A → List A × Option DequeError
  push_front size q x = if length q == size then (q, some deque_full) else (x ∷ q, none)

  unfoldable pub pop_front : List A → Option (A × List A)
  pop_front [] = none
  pop_front (x ∷ q) = some (x, q)

  -- the list without its last item, and that item
  unfoldable pub pop_back : List A → Option (A × List A)
  pop_back [] = none
  pop_back (x ∷ q) = elim (pop_back q) [ none ↦ some (x, []) | some (y, r) ↦ some (y, x ∷ r) ]

  pub pop_back-append : (q : List A) (x : A) → pop_back (q ++ (x ∷ [])) ≡ some (x, q)
  unfolding pop_back
  pop_back-append [] x = refl
  pop_back-append (y ∷ q) x = ground (arith, pop_back-append q x)

module _ {ℓ} {A : Type ℓ} where
  pub pop_front-cons : (x : A) (q : List A) → pop_front (x ∷ q) ≡ some (x, q)
  unfolding pop_front
  pop_front-cons x q = refl

  -- `pop_back` splits off the last item of a list that has one.
  pub pop_back-cons :
      (x : A) (q : List A)
      → (y : A) × (r : List A) × (pop_back (x ∷ q) ≡ some (y, r)) × (x ∷ q ≡ r ++ (y ∷ []))
  unfolding pop_back
  pop_back-cons x [] = (x, [], refl, refl)
  pop_back-cons x (z ∷ q) =
      let (y, r, e, e') = pop_back-cons z q in (y, x ∷ r, ground (arith, e), ap (◌∷◌ x) e')

pub pop_back-nil {ℓ} : (A : Type ℓ) → pop_back {A = A} [] ≡ none
unfolding pop_back
pop_back-nil A = refl
