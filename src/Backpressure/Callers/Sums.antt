-- ===== src/Backpressure/Callers/Sums.antt =====
-- Sums over the addresses of a store.
use catfish.Prelude.{ℕ, zero, suc, ◌+◌, ◌≤◌, ◌<◌, ◌≡◌, ◌≢◌, refl, inl, inr, arith, ◌==◌, Bool-cases}
use catfish.Backpressure.Callers.{total}

pub total-eq : (f g : ℕ → ℕ) (n : ℕ) → ((a : ℕ) → f a ≡ g a) → total f n ≡ total g n
total-eq f g zero h = refl
total-eq f g (suc n) h = omega (arith, h n, total-eq f g n h)

pub total-le : (f g : ℕ → ℕ) (n : ℕ) → ((a : ℕ) → f a ≤ g a) → total f n ≤ total g n
total-le f g zero h = omega arith
total-le f g (suc n) h = omega (arith, h n, total-le f g n h)

pub total-eq_below : (f g : ℕ → ℕ) (n : ℕ) → ((a : ℕ) → a < n → f a ≡ g a) → total f n ≡ total g n
total-eq_below f g zero h = refl
total-eq_below f g (suc n) h =
    omega (arith, h n (omega arith), total-eq_below f g n (λ a l. h a (omega (arith, l))))

-- Two functions that differ at one place below `n`.
pub total-change :
    (f g : ℕ → ℕ) (n a : ℕ)
    → a < n
    → ((b : ℕ) → a ≢ b → f b ≡ g b)
    → total f n + g a ≡ total g n + f a
total-change f g zero a l h = absurd (omega (arith, l))
total-change f g (suc n) a l h = elim (Bool-cases (a == n)) [
  | inl e ↦
      let p : a ≡ n = ground arith in
      let same = total-eq_below f g n (λ b k. h b (λ q. omega (arith, p, k, q))) in
      rw p (omega (arith, same))
  | inr e ↦ omega (arith, total-change f g n a (ground arith) h, h n (ground arith))
]
