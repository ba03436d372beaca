-- ===== src/Backpressure/Decay.antt =====
-- backpressure/decay.go: a value that falls linearly towards zero.
-- The float64 values are exact here: natural numbers in a fraction of a token that the semaphore
-- chooses (`Semaphore.Limits`), so a rate is a number of those per nanosecond. Times are in
-- nanoseconds. Only the argument of `add` can be negative.
pub mod Laws
pub mod Tests
use catfish.Prelude.{ℕ, ◌+◌, ◌-◌, ◌*◌, ltb, if◌then◌else◌, Bool}
use catfish.Prelude.Int.{ℤ, pos, pos_part, ◌+ℤ◌, ltb_ℤ}

pub record LinearDecay : Type 0 where
  pub x : ℕ
  pub last : ℕ
  pub decay_per_ns : ℕ
  pub max : ℕ

-- `-` stops at 0, as both calls of `math.Max(0, …)` do.
abbrev pub decayed : LinearDecay → ℕ → ℕ
decayed d now = d.x - (now - d.last) * d.decay_per_ns

-- `get` updates the value, which is then the field `x`.
pub get : ℕ → LinearDecay → LinearDecay
get now d = record d { x = decayed d now; last = now }

-- the two clamps of `add`
pub clamp : ℕ → ℤ → ℕ
clamp max x =
    let top = if ltb_ℤ (pos max) x then pos max else x in
    if ltb_ℤ top (pos 0) then 0 else pos_part top

pub add : ℕ → ℤ → LinearDecay → LinearDecay
unfolding get clamp
add now x d = let d' = get now d in record d' { x = clamp d'.max (pos d'.x +ℤ x) }

pub set_decay_per_sec : ℕ → ℕ → LinearDecay → LinearDecay
unfolding get
set_decay_per_sec now rate d = record (get now d) { decay_per_ns = rate }

pub set_max : ℕ → ℕ → LinearDecay → LinearDecay
unfolding get
set_max now max d =
    let d' = get now d in record d' { max = max; x = if ltb max d'.x then max else d'.x }

pub floor : ℕ → ℕ → LinearDecay → LinearDecay
unfolding get
floor now low d = let d' = get now d in record d' { x = if ltb d'.x low then low else d'.x }
