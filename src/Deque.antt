-- ===== src/Deque.antt =====
-- utils/deque/deque.go: a double-ended queue in a circular slice.
-- An operation on `*d` returns the new deque beside its result; a call that panics returns `none`.
pub mod Inv
pub mod Bounded
pub mod Steps
pub mod Refine
pub mod Pops
pub mod Script
pub mod Tests
use catfish.Prelude.{
  ℕ, zero, suc, ◌+◌, ◌-◌, ◌%◌, ◌≡◌, Bool, true, false, Option, none, some, List, [], ltb, leb, ◌==◌,
  if◌then◌else◌, length, get_or, set, replicate,
}
use catfish.Prelude.Int.{ℤ, pos, negsuc, pos_part, ◌+ℤ◌, neg_ℕ, ltb_ℤ}

abbrev pub default_capacity : ℕ
default_capacity = 200

-- `slots` is the field `a`, with `none` for a nil slice; `back` is `none` where the source has -1.
pub record Deque {ℓ} (A : Type ℓ) : Type ℓ where
  pub slots : Option (List A)
  pub front : ℕ
  pub back : Option ℕ
  pub initialised : Bool

pub data DequeError : Type 0 where
  deque_full : DequeError

-- Go's `%` has the sign of its left side.
pub go_rem : ℤ → ℕ → ℤ
go_rem (pos n) d = pos (n % d)
go_rem (negsuc n) d = neg_ℕ (suc n % d)

pub positive_mod : ℤ → ℕ → ℤ
unfolding go_rem
positive_mod l d = let x = go_rem l d in if ltb_ℤ x (pos 0) then x +ℤ pos d else x

-- `positiveMod(i-1, n)` as an index.
pub step_back : ℕ → ℕ → ℕ
unfolding positive_mod
step_back i n = pos_part (positive_mod (pos i +ℤ negsuc 0) n)

module _ {ℓ} {A : Type ℓ} where
  abbrev pub array : Option (List A) → List A
  array none = []
  array (some xs) = xs

  -- the cells of the slice, none for a nil slice
  abbrev pub cells : Deque A → List A
  cells d = array d.slots

  pub span : List A → ℕ → Option ℕ → ℕ
  span xs front none = 0
  span xs front (some b) = if leb front b then b - front + 1 else length xs - front + b + 1

  pub slots_len : Option (List A) → ℕ → Option ℕ → ℕ
  unfolding span
  slots_len none front back = 0
  slots_len (some xs) front back = span xs front back

  pub len : Deque A → ℕ
  unfolding slots_len
  len d = slots_len d.slots d.front d.back

  pub is_full_slots : Option (List A) → ℕ → Bool
  is_full_slots none n = false
  is_full_slots (some xs) n = n == length xs

  pub is_full : Deque A → Bool
  unfolding is_full_slots
  is_full d = is_full_slots d.slots (len d)

module _ {ℓ} {A : Type ℓ} (nil : A) where
  pub new : ℕ → Option (Deque A)
  new capacity =
      if leb capacity 0
      then none
      else some (record {
        slots = some (replicate capacity nil);
        front = 0;
        back = none;
        initialised = true;
      })

  pub ensure_init : Deque A → Deque A
  ensure_init d = if d.initialised then d else record d {
    slots = some (replicate default_capacity nil);
    back = none;
    initialised = true;
  }

  pub alloc : Option (List A) → Option (List A)
  alloc none = some (replicate default_capacity nil)
  alloc (some xs) = some xs

  -- the preparation that both pushes begin with
  pub prepare : Deque A → Deque A
  unfolding ensure_init alloc
  prepare d = let e = ensure_init d in record e { slots = alloc e.slots }

  abbrev pub write : Deque A → ℕ → A → Deque A
  write d i x = record d { slots = some (set (cells d) i x) }

  pub put_front : Deque A → A → Deque A
  put_front d x =
      let f = step_back d.front (length (cells d)) in
      let e = write (record d { front = f }) f x in
      if len e == 0 then record e { back = some f } else e

  pub push_front : Deque A → A → Deque A × Option DequeError
  push_front d x =
      let e = prepare d in if is_full e then (e, some deque_full) else (put_front e x, none)

  pub next_back : Deque A → ℕ
  next_back d =
      if len d == 0 then d.front else elim d.back [ none ↦ 0 | some b ↦ (b + 1) % length (cells d) ]

  pub push_back : Deque A → A → Deque A × Option DequeError
  push_back d x =
      let e = prepare d in
      let b = next_back e in
      if is_full e then (e, some deque_full) else (write (record e { back = some b }) b x, none)

  pub pop_front : Deque A → Option (A × Deque A)
  pop_front d =
      let item = get_or (cells d) d.front nil in
      let e = write d d.front nil in
      if len d == 0
      then none
      else if len d == 1
      then some (item, record e { front = 0; back = none })
      else some (item, record e { front = (d.front + 1) % length (cells d) })

  pub back_index : Option ℕ → ℕ
  back_index none = 0
  back_index (some b) = b

  pub pop_back : Deque A → Option (A × Deque A)
  unfolding back_index
  pop_back d =
      let b = back_index d.back in
      let item = get_or (cells d) b nil in
      let e = write d b nil in
      if len d == 0
      then none
      else if len d == 1
      then some (item, record e { front = 0; back = none })
      else some (item, record e { back = some (step_back b (length (cells d))) })

  pub front_item : Deque A → Option A
  front_item d = if len d == 0 then none else some (get_or (cells d) d.front nil)

  pub back_item : Deque A → Option A
  unfolding back_index
  back_item d = if len d == 0 then none else some (get_or (cells d) (back_index d.back) nil)
