-- ===== src/Prelude/Windows.antt =====
-- Runs of cells in a circular array: `window xs h n` is the `n` cells from index `h` on, going round
-- at the end of the array.
use Prim.Native.Nat.{ℕ, zero, suc, ◌+◌, ◌-◌, ◌%◌, ◌≤◌, ◌<◌}
use mathlib.Core.Path.{◌≡◌, refl, ap, ap₂, sym, ◌∙◌}
use mathlib.Core.Logic.{◌≢◌, ◌⊎◌, inl, inr}
use mathlib.Core.List.{List, [], ◌∷◌, ◌++◌}
use native.Mathlib.Nat.{mod-add-mod, mod-eq_of_lt, mod-eq-sub-mod, add-zero}
use native.Mathlib.Decide.{dec_lt}
use native.Mathlib.Omega.{arith}
use catfish.Prelude.Lists.{length, get_or, set, get_or-set_self, get_or-set_ne}

-- One turn of `%` at most.
pub mod-below :
    (size x : ℕ)
    → x < size + size
    → ((x < size) × (x % size ≡ x)) ⊎ ((size ≤ x) × (x % size + size ≡ x))
mod-below size x h = elim (dec_lt x size) [
  | yes p ↦ inl (p, mod-eq_of_lt p)
  | no p ↦ inr (
    omega arith,
    omega (
      arith,
      mod-eq-sub-mod {n = x} {m = size} (omega arith),
      mod-eq_of_lt {n = x - size} {m = size} (omega arith),
    ),
  )
]

-- Cells fewer than a whole turn apart are different.
pub mod-add-ne : (size h k n : ℕ) → h < size → k < n → n < size → (h + n) % size ≢ (h + k) % size
mod-add-ne size h k n hh hk hn =
    omega (arith, mod-below size (h + n) (omega arith), mod-below size (h + k) (omega arith))

pub step-mod : (size h n : ℕ) → ((h + 1) % size + n) % size ≡ (h + suc n) % size
step-mod size h n = rw mod-add-mod (ap (λ k. k % size) (omega arith))

module _ {ℓ} {A : Type ℓ} (nil : A) where
  abbrev pub window : (size : ℕ) → List A → ℕ → ℕ → List A
  window size xs h zero = []
  window size xs h (suc n) = get_or xs h nil ∷ window size xs ((h + 1) % size) n

  pub length-window : (size : ℕ) (xs : List A) (h n : ℕ) → length (window size xs h n) ≡ n
  length-window size xs h zero = refl
  length-window size xs h (suc n) = ap suc (length-window size xs ((h + 1) % size) n)

  -- A window read from its end: the last cell stands `n` steps from its start.
  pub window-suc :
      (size : ℕ) (xs : List A) (h n : ℕ)
      → h < size
      → window size xs h (suc n) ≡ window size xs h n ++ (get_or xs ((h + n) % size) nil ∷ [])
  window-suc size xs h zero hh = rw (add-zero, mod-eq_of_lt hh)
  window-suc size xs h (suc n) hh = ap (◌∷◌ (get_or xs h nil)) (
      window-suc size xs ((h + 1) % size) n (omega arith)
      ∙ ap (λ k. window size xs ((h + 1) % size) n ++ (get_or xs k nil ∷ [])) (step-mod size h n))

  -- A write outside a window leaves it as it was.
  pub window-set_ne :
      (size : ℕ) (xs : List A) (v : A) (h n i : ℕ)
      → h < size
      → ((k : ℕ) → k < n → i ≢ (h + k) % size)
      → window size (set xs i v) h n ≡ window size xs h n
  window-set_ne size xs v h zero i hh out = refl
  window-set_ne size xs v h (suc n) i hh out =
      ap₂ ◌∷◌
        (get_or-set_ne xs i h v nil (λ e. out 0 (omega arith) (rw (add-zero, mod-eq_of_lt hh) e)))
        (window-set_ne size xs v ((h + 1) % size) n i (omega arith)
          (λ k hk e. out (suc k) (omega arith) (e ∙ step-mod size h k)))

  -- A write to the cell before a window, which does not fill the array.
  pub window-set_before :
      (size : ℕ) (xs : List A) (v : A) (h n : ℕ)
      → h < size
      → n < size
      → window size (set xs h v) ((h + 1) % size) n ≡ window size xs ((h + 1) % size) n
  window-set_before size xs v h n hh hn =
      window-set_ne size xs v ((h + 1) % size) n h (omega arith) (λ k hk e.
        mod-add-ne size h 0 (suc k) hh (omega arith) (omega arith)
          (sym (step-mod size h k) ∙ sym e ∙ sym (rw add-zero (mod-eq_of_lt hh))))

  -- What the other updates at the ends of a window do to it.
  pub window-push_back :
      (size : ℕ) (xs : List A) (x : A) (h n : ℕ)
      → size ≡ length xs
      → h < size
      → n < size
      → window size (set xs ((h + n) % size) x) h (suc n) ≡ window size xs h n ++ (x ∷ [])
  window-push_back size xs x h n es hh hn =
      window-suc size (set xs ((h + n) % size) x) h n hh
      ∙ ap₂ (λ l y. l ++ (y ∷ []))
          (window-set_ne size xs x h n ((h + n) % size) hh (λ k hk. mod-add-ne size h k n hh hk hn))
          (get_or-set_self xs ((h + n) % size) x nil (omega arith))

  pub window-push_front :
      (size : ℕ) (xs : List A) (x : A) (g h n : ℕ)
      → size ≡ length xs
      → g < size
      → (g + 1) % size ≡ h
      → n < size
      → window size (set xs g x) g (suc n) ≡ x ∷ window size xs h n
  window-push_front size xs x g h n es hg e hn =
      ap₂ ◌∷◌ (get_or-set_self xs g x nil (omega arith))
        (rw (← e) (window-set_before size xs x g n hg hn))

  pub window-pop_back :
      (size : ℕ) (xs : List A) (v : A) (h n : ℕ)
      → h < size
      → n < size
      → window size (set xs ((h + n) % size) v) h n ≡ window size xs h n
  window-pop_back size xs v h n hh hn =
      window-set_ne size xs v h n ((h + n) % size) hh (λ k hk. mod-add-ne size h k n hh hk hn)
