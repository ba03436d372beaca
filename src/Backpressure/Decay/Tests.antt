-- ===== src/Backpressure/Decay/Tests.antt =====
-- Runs of decay.go, and the theorems about it at a concrete debt.
use catfish.Prelude.{◌≡◌, refl}
use catfish.Prelude.Int.{pos, negsuc}
use catfish.Backpressure.Decay.{LinearDecay, get, add}

-- 50 units, falling by 2 every nanosecond, last looked at at time 10
abbrev half_paid : LinearDecay
half_paid = record { x = 50; last = 10; decay_per_ns = 2; max = 60 }

get_runs : (get 20 half_paid).x ≡ 30
unfolding get
get_runs = refl

add_runs : (add 20 (pos 100) half_paid).x ≡ 60
unfolding add
add_runs = refl

-- forgiving more than there is
forgive_runs : (add 20 (negsuc 99) half_paid).x ≡ 0
unfolding add
forgive_runs = refl
