-- ===== src/Deque/Tests.antt =====
-- Runs of deque.go, and the theorems about it at concrete deques.
use catfish.Prelude.{ℕ, ◌≡◌, refl, false, none, some, List, [], ◌∷◌, arith}
use mathlib.Core.Option
use catfish.Deque.{
  Deque, deque_full, len, is_full, push_front, push_back, pop_front, pop_back, front_item, prepare,
  put_front, next_back, step_back, ensure_init, alloc, slots_len, span, is_full_slots, back_index,
}
use catfish.Deque.Inv.{IsValid, ring, ring_at}
use catfish.Deque.Refine.{contents, bound, Holds, push_back_refines}
use catfish.Deque.Pops.{Pops, pop_back_refines}
use catfish.Deque.Bounded
use catfish.Deque.Script.{
  Op, adds_front, adds_back, takes_front, takes_back, reads_front, counts, Reply, pushed, item,
  total, run, run_bounded, run_refines, run-zero_deque,
}

-- 8, then 9, round the end of the array
abbrev wrapped : Deque ℕ
wrapped = ring_at (9 ∷ 7 ∷ 8 ∷ []) 2 2

wrapped-IsValid : IsValid wrapped
wrapped-IsValid = ring (9 ∷ 7 ∷ 8 ∷ []) 2 2 (omega arith) (omega arith) refl

abbrev script : List (Op ℕ)
script = adds_front 5 ∷ adds_back 6 ∷ takes_back ∷ reads_front ∷ takes_front ∷ counts ∷ []

abbrev replies : List (Reply ℕ)
replies =
    pushed none
    ∷ pushed (some deque_full)
    ∷ item (some 9)
    ∷ item (some 5)
    ∷ item (some 5)
    ∷ total 1
    ∷ []

run-wrapped : run 0 wrapped script ≡ replies
unfolding run push_front push_back pop_front pop_back front_item len is_full prepare put_front
    next_back step_back ensure_init alloc slots_len span is_full_slots back_index
run-wrapped = refl

run_refines_example :
    run 0 wrapped script ≡ run_bounded (bound 0 wrapped) (contents 0 wrapped) script
run_refines_example = run_refines 0 script wrapped-IsValid

run-zero_deque_example :
    run 0 (record { slots = none; front = 0; back = some 0; initialised = false }) script
    ≡ run_bounded 200 [] script
run-zero_deque_example = run-zero_deque 0 script

push_back_refines_example :
    Holds 0
      (bound 0 wrapped)
      (Bounded.push_back (bound 0 wrapped) (contents 0 wrapped) 4).0
      (push_back 0 wrapped 4).0
    × ((push_back 0 wrapped 4).1 ≡ (Bounded.push_back (bound 0 wrapped) (contents 0 wrapped) 4).1)
push_back_refines_example = push_back_refines 0 4 wrapped-IsValid

pop_back_refines_example :
    Pops 0 (bound 0 wrapped) (pop_back 0 wrapped) (Bounded.pop_back (contents 0 wrapped))
pop_back_refines_example = pop_back_refines 0 wrapped-IsValid
