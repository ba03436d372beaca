-- ===== src/Deque/Script.antt =====
-- Any sequence of calls on a deque against the same calls on the bounded list.
use catfish.Prelude.{
  ℕ, ◌<◌, ◌≡◌, refl, ap, ap₂, ◌∙◌, Option, none, some, List, [], ◌∷◌, arith, length, replicate,
  length-replicate,
}
use mathlib.Core.Option
use catfish.Deque.Bounded
use catfish.Deque.{
  Deque, DequeError, default_capacity, len, new, push_front, push_back, pop_front, pop_back,
  front_item, back_item,
}
use catfish.Deque.Inv.{len-zero_deque, IsValid, ring_at, unallocated, zero_deque}
use catfish.Deque.Steps.{new_lem, prepare-zero_deque}
use catfish.Deque.Refine.{
  contents, bound, Holds, Holds-ring_at, push_back_refines, push_front_refines,
}
use catfish.Deque.Pops.{
  Pops, panics, takes, pop_front_refines, pop_back_refines, len-contents, front_refines,
  back_refines,
}

module _ {ℓ} (A : Type ℓ) where
  pub data Op : Type ℓ where
    adds_front adds_back : A → Op
    takes_front takes_back reads_front reads_back counts : Op

  -- what the caller sees: the error of a push, the item of a removal or a read (`none` for a panic)
  pub data Reply : Type ℓ where
    pushed : Option DequeError → Reply
    item : Option A → Reply
    total : ℕ → Reply

-- a removal that panics leaves the deque as it was
abbrev pub after {ℓ} : {A S : Type ℓ} → S → Option (A × S) → S
after s none = s
after s (some (x, t)) = t

abbrev pub item_of {ℓ} : {A S : Type ℓ} → Option (A × S) → Option A
item_of none = none
item_of (some (x, t)) = some x

module _ {ℓ} {A : Type ℓ} where
  pub run_bounded : ℕ → List A → List (Op A) → List (Reply A)
  run_bounded size q [] = []
  run_bounded size q (adds_front x ∷ ops) =
      let (q', e) = Bounded.push_front size q x in pushed e ∷ run_bounded size q' ops
  run_bounded size q (adds_back x ∷ ops) =
      let (q', e) = Bounded.push_back size q x in pushed e ∷ run_bounded size q' ops
  run_bounded size q (takes_front ∷ ops) =
      let r = Bounded.pop_front q in item (item_of r) ∷ run_bounded size (after q r) ops
  run_bounded size q (takes_back ∷ ops) =
      let r = Bounded.pop_back q in item (item_of r) ∷ run_bounded size (after q r) ops
  run_bounded size q (reads_front ∷ ops) =
      item (item_of (Bounded.pop_front q)) ∷ run_bounded size q ops
  run_bounded size q (reads_back ∷ ops) =
      item (item_of (Bounded.pop_back q)) ∷ run_bounded size q ops
  run_bounded size q (counts ∷ ops) = total (length q) ∷ run_bounded size q ops

module _ {ℓ} {A : Type ℓ} (nil : A) where
  unfoldable pub run : Deque A → List (Op A) → List (Reply A)
  run d [] = []
  run d (adds_front x ∷ ops) = let (d', e) = push_front nil d x in pushed e ∷ run d' ops
  run d (adds_back x ∷ ops) = let (d', e) = push_back nil d x in pushed e ∷ run d' ops
  run d (takes_front ∷ ops) = let r = pop_front nil d in item (item_of r) ∷ run (after d r) ops
  run d (takes_back ∷ ops) = let r = pop_back nil d in item (item_of r) ∷ run (after d r) ops
  run d (reads_front ∷ ops) = item (front_item nil d) ∷ run d ops
  run d (reads_back ∷ ops) = item (back_item nil d) ∷ run d ops
  run d (counts ∷ ops) = total (len d) ∷ run d ops

  abbrev Refines : Deque A → ℕ → List A → List (Op A) → Type ℓ
  Refines d size q ops = run d ops ≡ run_bounded size q ops

  Holds-IsValid : {d : Deque A} → IsValid d → Holds nil (bound nil d) (contents nil d) d
  Holds-IsValid v = record { valid = v; room = refl; items = refl }

  after_removal :
      (d : Deque A) (size : ℕ) (q : List A) (r : Option (A × Deque A)) (s : Option (A × List A))
      (ops : List (Op A))
      → ((d' : Deque A) (q' : List A) → Holds nil size q' d' → Refines d' size q' ops)
      → Holds nil size q d
      → Pops nil size r s
      → ◌≡◌ {A = List (Reply A)}
          (item (item_of r) ∷ run (after d r) ops)
          (item (item_of s) ∷ run_bounded size (after q s) ops)
  after_removal d size q r s ops ih h (panics es er) = rw (es, er) (ap (◌∷◌ (item none)) (ih d q h))
  after_removal d size q r s ops ih h (takes x d' q' es er h') =
      rw (es, er) (ap (◌∷◌ (item (some x))) (ih d' q' h'))

  pub item-eq : (r : Option (A × List A)) → Option.map (λ p. p.0) r ≡ item_of r
  item-eq none = refl
  item-eq (some (x, q)) = refl

  run-Holds :
      (ops : List (Op A)) (d : Deque A) (size : ℕ) (q : List A)
      → Holds nil size q d
      → Refines d size q ops
  unfolding run run_bounded
  run-Holds [] d size q h = refl
  run-Holds (adds_front x ∷ ops) d size q h =
      let (k, e) = (rw (h.room, h.items) at (push_front_refines nil x h.valid)) in
      ap₂ ◌∷◌ (ap pushed e) (run-Holds ops _ size _ k)
  run-Holds (adds_back x ∷ ops) d size q h =
      let (k, e) = (rw (h.room, h.items) at (push_back_refines nil x h.valid)) in
      ap₂ ◌∷◌ (ap pushed e) (run-Holds ops _ size _ k)
  run-Holds (takes_front ∷ ops) d size q h =
      after_removal d size q _ _ ops (λ d' q'. run-Holds ops d' size q') h
        (rw (h.room, h.items) at (pop_front_refines nil h.valid))
  run-Holds (takes_back ∷ ops) d size q h =
      after_removal d size q _ _ ops (λ d' q'. run-Holds ops d' size q') h
        (rw (h.room, h.items) at (pop_back_refines nil h.valid))
  run-Holds (reads_front ∷ ops) d size q h =
      ap₂ ◌∷◌ (ap item (rw (front_refines nil h.valid, h.items, item-eq (Bounded.pop_front q))))
        (run-Holds ops d size q h)
  run-Holds (reads_back ∷ ops) d size q h =
      ap₂ ◌∷◌ (ap item (rw (back_refines nil h.valid, h.items, item-eq (Bounded.pop_back q))))
        (run-Holds ops d size q h)
  run-Holds (counts ∷ ops) d size q h =
      ap₂ ◌∷◌ (ap total (rw (len-contents nil h.valid, h.items))) (run-Holds ops d size q h)

  -- On a valid deque every sequence of calls returns what it returns on the bounded list of its
  -- items: the same errors, items, panics and lengths.
  pub run_refines :
      {d : Deque A} (ops : List (Op A))
      → IsValid d
      → run d ops ≡ run_bounded (bound nil d) (contents nil d) ops
  run_refines {d} ops v = run-Holds ops d (bound nil d) (contents nil d) (Holds-IsValid v)

  new-Holds : (c : ℕ) → 0 < c → Holds nil c [] (ring_at (replicate c nil) 0 0)
  new-Holds c h =
      let hl : c ≡ length (replicate c nil) = omega (arith, length-replicate c nil) in
      rw (length-replicate c nil) at
        (Holds-ring_at nil (replicate c nil) 0 0 [] (omega arith) (omega arith) refl)

  pub new-Holds-some : (c : ℕ) → 0 < c → (d : Deque A) × (new nil c ≡ some d) × Holds nil c [] d
  new-Holds-some c h = (ring_at (replicate c nil) 0 0, new_lem nil c h, new-Holds c h)

  -- Go's zero value of the struct behaves as the empty list bounded by the default capacity.
  pub run-zero_deque :
      (ops : List (Op A)) → run zero_deque ops ≡ run_bounded default_capacity [] ops
  run-zero_deque ops =
      run_refines ops (unallocated refl)
      ∙ ap₂ (λ k q. run_bounded k q ops)
          (rw (prepare-zero_deque nil) (length-replicate default_capacity nil))
          (rw (len-zero_deque A))
