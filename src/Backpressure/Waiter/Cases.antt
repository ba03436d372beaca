-- ===== src/Backpressure/Waiter/Cases.antt =====
-- backpressure/codel.go, coDelWaiter: the branches of admit, drop and wait.
use catfish.Prelude.{
  ◌≡◌, ◌≢◌, refl, subst, ◌==◌, ==-eq_true, ==-eq_false, Bool-cases, ◌⊎◌, inl, inr, ℕ, suc, Bool,
  true, false, none, some, List, [], ◌∷◌, arith,
}
use catfish.Backpressure.Waiter.{
  Store, Waiter, State, waiting, admitted, expired, context_error, rejected, context_done,
  signalled, swap_waiting, received, admit, drop, send, write, wait, new_waiter, alloc,
}

-- the waiter that `admit` leaves if it wins
abbrev pub admitted_as : Waiter → Waiter
admitted_as w = send true (record w { state = admitted })

swap_waits :
    (to : State) (w : Waiter)
    → w.state ≡ waiting
    → swap_waiting to w ≡ some (record w { state = to })
unfolding swap_waiting
swap_waits to w e = ground (arith, e)

swap_admitted : (to : State) (w : Waiter) → w.state ≡ admitted → swap_waiting to w ≡ none
unfolding swap_waiting
swap_admitted to w e = ground (arith, e)

swap_expired : (to : State) (w : Waiter) → w.state ≡ expired → swap_waiting to w ≡ none
unfolding swap_waiting
swap_expired to w e = ground (arith, e)

State-cases : (x : State) → (x ≡ waiting) ⊎ ((x ≡ admitted) ⊎ (x ≡ expired))
State-cases waiting = inl refl
State-cases admitted = inr (inl refl)
State-cases expired = inr (inr refl)

module _ (a : ℕ) (s : Store) where
  pub admit_waits : (s.at a).state ≡ waiting → admit a s ≡ (write a (admitted_as (s.at a)) s, true)
  unfolding admit
  admit_waits e = rw (admit, swap_waits admitted (s.at a) e)

  pub admit_expired : (s.at a).state ≡ expired → admit a s ≡ (s, false)
  unfolding admit
  admit_expired e = rw (admit, swap_expired admitted (s.at a) e)

  pub admit_cases :
      (admit a s ≡ (write a (admitted_as (s.at a)) s, true)) ⊎ (admit a s ≡ (s, false))
  unfolding admit
  admit_cases = elim (State-cases (s.at a).state) [
    | inl e ↦ inl (admit_waits e)
    | inr (inl e) ↦ inr (rw (admit, swap_admitted admitted (s.at a) e))
    | inr (inr e) ↦ inr (admit_expired e)
  ]

  pub drop_lem : drop a s ≡ write a (send false (s.at a)) s
  unfolding drop
  drop_lem = refl

  pub done_waits :
      (s.at a).state ≡ waiting
      → wait context_done a s
        ≡ some (write a (record (s.at a) { state = expired }) s, some context_error)
  unfolding wait
  done_waits e = rw (wait, swap_waits expired (s.at a) e)

  pub done_admitted : (s.at a).state ≡ admitted → wait context_done a s ≡ some (s, none)
  unfolding wait
  done_admitted e = rw (wait, swap_admitted expired (s.at a) e)

  pub signalled_nil : (s.at a).signals ≡ [] → wait signalled a s ≡ none
  unfolding wait received
  signalled_nil e = ground (arith, e)

  pub signalled_true :
      (r : List Bool)
      → (s.at a).signals ≡ true ∷ r
      → wait signalled a s ≡ some (write a (record (s.at a) { signals = r }) s, none)
  unfolding wait received
  signalled_true r e = ground (arith, e)

  pub signalled_false :
      (r : List Bool)
      → (s.at a).signals ≡ false ∷ r
      → wait signalled a s ≡ some (write a (record (s.at a) { signals = r }) s, some rejected)
  unfolding wait received
  signalled_false r e = ground (arith, e)

pub new_waiter_lem :
    (time payload : ℕ)
    → ((new_waiter time payload).state ≡ waiting)
      × ((new_waiter time payload).signals ≡ [])
      × ((new_waiter time payload).payload ≡ payload)
unfolding new_waiter
new_waiter_lem time payload = (refl, refl, refl)

pub alloc_lem :
    (w : Waiter) (s : Store) → alloc w s ≡ record (write s.next w s) { next = suc s.next }
unfolding alloc
alloc_lem w s = refl

pub write_same : (a : ℕ) (w : Waiter) (s : Store) → (write a w s).at a ≡ w
write_same a w s = rw (==-eq_true a a refl)

pub write_other : (a b : ℕ) (w : Waiter) (s : Store) → a ≢ b → (write a w s).at b ≡ s.at b
write_other a b w s n = rw (==-eq_false a b n)

-- What holds at one address before and after a write.
pub write_all {ℓ} :
    (P : ℕ → Waiter → Type ℓ) (a : ℕ) (w : Waiter) (s : Store)
    → P a w
    → ((b : ℕ) → P b (s.at b))
    → (b : ℕ) → P b ((write a w s).at b)
write_all P a w s h k b = elim (Bool-cases (a == b)) [
  | inl e ↦ rw e (subst (λ c. P c w) (ground arith) h)
  | inr e ↦ rw e (k b)
]
