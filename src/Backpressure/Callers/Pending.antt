-- ===== src/Backpressure/Callers/Pending.antt =====
-- Lists of queued waiters, and the removal of one.
use catfish.Prelude.{ℕ, ◌≢◌, sym, List, [], ◌∷◌}
use catfish.Backpressure.Semaphore.Moves.{Removes, here, there}

abbrev pub All {ℓ} : (ℕ → Type ℓ) → List ℕ → Type ℓ
All P [] = Unit
All P (x ∷ xs) = P x × All P xs

abbrev pub Distinct : List ℕ → Type 0
Distinct [] = Unit
Distinct (x ∷ xs) = All (λ y. x ≢ y) xs × Distinct xs

pub All-map : (P Q : ℕ → Type 0) (xs : List ℕ) → ((x : ℕ) → P x → Q x) → All P xs → All Q xs
All-map P Q [] f h = tt
All-map P Q (x ∷ xs) f h = (f x h.0, All-map P Q xs f h.1)

pub All-zip :
    (P Q R : ℕ → Type 0) (xs : List ℕ)
    → ((x : ℕ) → P x → Q x → R x)
    → All P xs
    → All Q xs
    → All R xs
All-zip P Q R [] f h k = tt
All-zip P Q R (x ∷ xs) f h k = (f x h.0 k.0, All-zip P Q R xs f h.1 k.1)

pub All-Removes :
    (P : ℕ → Type 0) {a : ℕ} {ps qs : List ℕ} → Removes a ps qs → All P ps → P a × All P qs
All-Removes P here h = h
All-Removes P (there r) h = let k = All-Removes P r h.1 in (k.0, (h.0, k.1))

pub All-insert :
    (P : ℕ → Type 0) {a : ℕ} {ps qs : List ℕ} → Removes a ps qs → P a → All P qs → All P ps
All-insert P here h k = (h, k)
All-insert P (there r) h k = (k.0, All-insert P r h k.1)

pub Distinct-Removes :
    {a : ℕ} {ps qs : List ℕ} → Removes a ps qs → Distinct ps → All (λ y. a ≢ y) qs × Distinct qs
Distinct-Removes here d = d
Distinct-Removes (there {b} r) d =
    let k = Distinct-Removes r d.1 in
    let h = All-Removes (λ y. b ≢ y) r d.0 in ((λ e. h.0 (sym e), k.0), (h.1, k.1))

pub Distinct-insert :
    {a : ℕ} {ps qs : List ℕ} → Removes a ps qs → All (λ y. a ≢ y) qs → Distinct qs → Distinct ps
Distinct-insert here h d = (h, d)
Distinct-insert {a} (there {b} r) h d =
    (All-insert (λ y. b ≢ y) r (λ e. h.0 (sym e)) d.0, Distinct-insert r h.1 d.1)
