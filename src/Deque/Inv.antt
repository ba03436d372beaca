-- ===== src/Deque/Inv.antt =====
-- The states that a deque of deque.go can be in, and what each operation does in such a state.
use catfish.Prelude.{
  ℕ, zero, suc, ◌+◌, ◌%◌, ◌≤◌, ◌<◌, ◌≡◌, refl, ◌⊎◌, true, false, Option, none, some, List, arith,
  length, mod-below,
}
use catfish.Deque.{Deque, step_back, len}

-- the index of the last of `n` items that begin at index `f`
abbrev pub back_of : ℕ → ℕ → ℕ → Option ℕ
back_of size f zero = none
back_of size f (suc k) = some ((f + k) % size)

module _ {ℓ} {A : Type ℓ} where
  -- the deque that holds `n` items in the array `xs`, from index `f` on
  abbrev pub ring_at : List A → ℕ → ℕ → Deque A
  ring_at xs f n = record {
    slots = some xs;
    front = f;
    back = back_of (length xs) f n;
    initialised = true;
  }

  -- Go's zero value of the struct
  abbrev pub zero_deque : Deque A
  zero_deque = record { slots = none; front = 0; back = some 0; initialised = false }

  pub data IsValid (d : Deque A) : Type ℓ where
    unallocated : d ≡ zero_deque → IsValid d
    ring : (xs : List A) (f n : ℕ) → f < length xs → n ≤ length xs → d ≡ ring_at xs f n → IsValid d

  pub len-ring_at :
      (xs : List A) (f n : ℕ) → f < length xs → n ≤ length xs → len (ring_at xs f n) ≡ n
  unfolding len
  len-ring_at xs f zero hf hn = refl
  len-ring_at xs f (suc k) hf hn = ground (arith, mod-below (length xs) (f + k) (omega arith))

pub len-zero_deque {ℓ} : (A : Type ℓ) → len (zero_deque {A = A}) ≡ 0
unfolding len
len-zero_deque A = refl

-- One step back from the first index is the last, and else the index below.
pub step_back_lem :
    (i n : ℕ) → i < n → ((i ≡ 0) × (step_back i n + 1 ≡ n)) ⊎ (step_back i n + 1 ≡ i)
unfolding step_back
step_back_lem zero n h = ground (arith, mod-below n 1 (omega arith))
step_back_lem (suc i) n h = ground (arith, mod-below n i (omega arith))
