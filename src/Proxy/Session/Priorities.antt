-- ===== src/Proxy/Session/Priorities.antt =====
-- proxy/proxy.go: the priority at which a session asks for its tokens.
use Prim.Native.String.{String}
use catfish.Prelude.{ℕ, ◌<◌, ◌≡◌, List, length, get_or}
use catfish.Prelude.Int.{pos}
use catfish.Config.{Config, User}
use catfish.Proxy.Session.{target_priority}

-- `i` is the place of a tier of the name `t`.
abbrev pub Places : List String → String → ℕ → Type 0
Places names t i = (i < length names) × (get_or names i "" ≡ t)

-- A user's requests have a priority among the semaphore's, that of a tier with the user's tier name.
abbrev pub HasPriority : List String → User → Type 0
HasPriority names u = (i : ℕ) × (target_priority names u.tier ≡ pos i) × Places names u.tier i
