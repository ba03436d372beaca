-- ===== src/Backpressure/Decay/Laws.antt =====
-- backpressure/decay.go: reads of a debt over time, its bounds and its changes.
use catfish.Prelude.{ℕ, ◌+◌, ◌-◌, ◌*◌, ◌≤◌, ◌≡◌, refl, ap, List, [], ◌∷◌, arith}
use Prim.Native.Nat.{min}
use catfish.Prelude.Int.{neg_ℕ, ◌+ℤ◌, ℤ, pos}
use catfish.Backpressure.Decay.{LinearDecay, decayed, get, add, set_max, floor, clamp}

decayed-later :
    (d : LinearDecay) (t u : ℕ)
    → d.last ≤ t
    → t ≤ u
    → decayed d u ≡ decayed d t - (u - t) * d.decay_per_ns
decayed-later d t u h k = ground (arith, split, ap (λ n. n * d.decay_per_ns) split)
  where
    split : u - d.last ≡ (t - d.last) + (u - t)
    split = omega arith

-- Reading at `t`, then at a later time, is reading at the later time.
pub get-get : (d : LinearDecay) (t u : ℕ) → d.last ≤ t → t ≤ u → get u (get t d) ≡ get u d
unfolding get
get-get d t u h k = ground (arith, decayed-later d t u h k)

-- A second read at the same time changes nothing.
pub get-again : (d : LinearDecay) (now : ℕ) → get now (get now d) ≡ get now d
unfolding get
get-again d now = ground arith

-- Reads at the times of a list, in order.
pub get_all : List ℕ → LinearDecay → LinearDecay
get_all [] d = d
get_all (t ∷ ts) d = get_all ts (get t d)

abbrev pub Rising : ℕ → List ℕ → ℕ → Type 0
Rising lo [] hi = lo ≤ hi
Rising lo (t ∷ ts) hi = (lo ≤ t) × Rising t ts hi

-- A value never rises by itself, and is back to 0 once `x` is paid off at the rate.
pub get-le : (d : LinearDecay) (t u : ℕ) → t ≤ u → decayed d u ≤ decayed d t
get-le d t u h = grind arith

pub get-paid_off : (d : LinearDecay) (k : ℕ) → d.x ≤ k * d.decay_per_ns → decayed d (d.last + k) ≡ 0
get-paid_off d k h = omega (arith, ap (λ n. n * d.decay_per_ns) shift)
  where
    shift : d.last + k - d.last ≡ k
    shift = omega arith

pub clamp-le : (m : ℕ) (x : ℤ) → clamp m x ≤ m
unfolding clamp
clamp-le m x = ground arith

pub clamp_inside : (m n : ℕ) → n ≤ m → clamp m (pos n) ≡ n
unfolding clamp
clamp_inside m n h = ground arith

-- A debt within its maximum stays there.
abbrev pub IsBounded : LinearDecay → Type 0
IsBounded d = d.x ≤ d.max

pub get-IsBounded : (d : LinearDecay) (now : ℕ) → IsBounded d → IsBounded (get now d)
unfolding get
get-IsBounded d now h = omega arith

pub add-IsBounded : (d : LinearDecay) (now : ℕ) (x : ℤ) → IsBounded (add now x d)
unfolding add get
add-IsBounded d now x = clamp-le d.max (pos (decayed d now) +ℤ x)

pub set_max-IsBounded : (d : LinearDecay) (now m : ℕ) → IsBounded (set_max now m d)
unfolding set_max
set_max-IsBounded d now m = ground arith

pub floor-IsBounded :
    (d : LinearDecay) (now low : ℕ) → IsBounded d → low ≤ d.max → IsBounded (floor now low d)
unfolding floor
floor-IsBounded d now low h k = ground arith

pub decayed_mono :
    (d e : LinearDecay) (t u : ℕ)
    → d.decay_per_ns ≡ e.decay_per_ns
    → d.last ≤ t
    → e.last ≤ t
    → t ≤ u
    → decayed d t ≤ decayed e t
    → decayed d u ≤ decayed e u
decayed_mono d e t u r hd he h k =
    omega (arith, decayed-later d t u hd h, decayed-later e t u he h, ap (λ n. (u - t) * n) r)

pub add-value :
    (d : LinearDecay) (now n : ℕ)
    → ((add now (pos n) d).x ≡ min (decayed d now + n) d.max)
      × ((add now (neg_ℕ n) d).x ≡ min (decayed d now) (d.max + n) - n)
unfolding add clamp get
add-value d now n = (ground arith, ground arith)

-- The fields after each operation.
pub get_fields :
    (now : ℕ) (d : LinearDecay)
    → ((get now d).x ≡ decayed d now)
      × ((get now d).last ≡ now)
      × ((get now d).decay_per_ns ≡ d.decay_per_ns)
      × ((get now d).max ≡ d.max)
unfolding get
get_fields now d = (refl, refl, refl, refl)

pub add_fields :
    (now : ℕ) (x : ℤ) (d : LinearDecay)
    → ((add now x d).last ≡ now)
      × ((add now x d).decay_per_ns ≡ d.decay_per_ns)
      × ((add now x d).max ≡ d.max)
      × ((add now x d).x ≤ d.max)
unfolding add get
add_fields now x d = (refl, refl, refl, clamp-le d.max (pos (decayed d now) +ℤ x))

-- At the time of its last change a debt's value is its field.
pub decayed_now : (d : LinearDecay) (now : ℕ) → d.last ≡ now → decayed d now ≡ d.x
decayed_now d now h = ground (arith, self)
  where
    self : now - d.last ≡ 0
    self = omega arith

pub floor_fields :
    (now low : ℕ) (d : LinearDecay)
    → ((floor now low d).last ≡ now)
      × ((floor now low d).decay_per_ns ≡ d.decay_per_ns)
      × ((floor now low d).max ≡ d.max)
      × (low ≤ (floor now low d).x)
      × (d.x ≤ d.max → low ≤ d.max → (floor now low d).x ≤ d.max)
unfolding floor get
floor_fields now low d = (refl, refl, refl, ground arith, λ h k. ground arith)

pub set_max_fields :
    (now m : ℕ) (d : LinearDecay)
    → ((set_max now m d).last ≡ now)
      × ((set_max now m d).decay_per_ns ≡ d.decay_per_ns)
      × ((set_max now m d).max ≡ m)
      × ((set_max now m d).x ≡ min (decayed d now) m)
unfolding set_max get
set_max_fields now m d = (refl, refl, refl, ground arith)
