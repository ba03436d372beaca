-- ===== src/Proxy/Server/Opening.antt =====
-- proxy/proxy.go: New, which pools it opens, and which ones it closes when it fails.
use Prim.Native.String.{String}
use catfish.Prelude.{
  ℕ, suc, ◌+◌, ◌≡◌, refl, subst, ◌⊎◌, inl, inr, Option, none, List, [], ◌∷◌, ◌++◌, arith, length,
}
use catfish.Prelude.Int.{ℤ}
use catfish.Config
use catfish.Config.{User}
use catfish.Pool
use catfish.Proxy.Server.{
  Pools, insert, Server, Opened, creation_failed, opened, created, Statuses, or_ask, pool_config,
  open_all, new,
}
use catfish.Proxy.Server.Keys.{insert-Has, below, key_of, UsesKey, Has}

module _ (decimal : ℤ → String) (open_pool : ℕ → Pool.Config → Opened) (cfg : Config.Config) where
  -- The pools of these users are opened, by the calls from number `n` on.
  abbrev pub AllOpen : ℕ → List User → Type 0
  AllOpen n [] = Unit
  AllOpen n (u ∷ us) =
      ((answer : Option Statuses) × (open_pool n (pool_config decimal open_pool cfg u)
          ≡ opened answer))
      × AllOpen (suc n) us

  -- The first user whose pool is not opened, among those tried from call number `n` on, and what is
  -- closed.
  pub record Failure (us : List User) (n : ℕ) (username database : String) (closed : List ℕ)
      : Type 0 where
    pub before : List User
    pub failing : User
    pub later : List User
    pub listed : us ≡ before ++ failing ∷ later
    pub named : (failing.username ≡ username) × (failing.database ≡ database)
    pub earlier : AllOpen n before
    pub failed :
        open_pool (n + length before) (pool_config decimal open_pool cfg failing) ≡ creation_failed
    pub all_closed : closed ≡ below (n + length before)

  Opened-cases : (o : Opened) → (o ≡ creation_failed) ⊎ ((a : Option Statuses) × (o ≡ opened a))
  Opened-cases creation_failed = inl refl
  Opened-cases (opened a) = inr (a, refl)

  open_all-Has :
      (us : List User) (n : ℕ) (pools : Pools) (st : Option Statuses) (server : Server) (k : String)
      → open_all decimal open_pool cfg us n pools st ≡ created server
      → Has k pools ⊎ UsesKey k us
      → Has k server.pools
  unfolding open_all
  open_all-Has [] n pools st server k h (inl (p, e)) = (p, ground arith)
  open_all-Has [] n pools st server k h (inr a) = absurd a
  open_all-Has (u ∷ us) n pools st server k h a =
      elim (Opened-cases (open_pool n (pool_config decimal open_pool cfg u))) [
        | inl e ↦ absurd (ground arith)
        | inr (answer, e) ↦
            open_all-Has us (suc n) (insert (key_of u) n pools) (or_ask st answer) server k
              (ground arith) (keep a)
      ]
    where
      keep : Has k pools ⊎ UsesKey k (u ∷ us) → Has k (insert (key_of u) n pools) ⊎ UsesKey k us
      keep (inl b) = inl (insert-Has k (key_of u) n pools (inr b))
      keep (inr (inl e)) = inl (insert-Has k (key_of u) n pools (inl e))
      keep (inr (inr b)) = inr b

  open_all-users :
      (us : List User) (n : ℕ) (pools : Pools) (st : Option Statuses) (server : Server)
      → open_all decimal open_pool cfg us n pools st ≡ created server
      → server.users ≡ cfg.users
  unfolding open_all
  open_all-users [] n pools st server h = ground arith
  open_all-users (u ∷ us) n pools st server h =
      elim (Opened-cases (open_pool n (pool_config decimal open_pool cfg u))) [
        | inl e ↦ absurd (ground arith)
        | inr (answer, e) ↦
            open_all-users us (suc n) (insert (key_of u) n pools) (or_ask st answer) server
              (ground arith)
      ]

  -- a server that `New` returns
  pub new-Has :
      (server : Server) (k : String)
      → new decimal open_pool cfg ≡ created server
      → (server.users ≡ cfg.users) × (UsesKey k server.users → Has k server.pools)
  unfolding new
  new-Has server k h =
      let users = open_all-users cfg.users 0 [] none server h in
      (users, λ a. open_all-Has cfg.users 0 [] none server k h (inr (subst (UsesKey k) users a)))
