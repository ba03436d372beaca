-- ===== src/Proxy/Server/Keys.antt =====
-- proxy/proxy.go: the map of the pools by their keys, and the keys of the users.
use Prim.Native.String.{String}
use mathlib.Core.Bool.{false≢true}
use text.Mathlib.Text.{◌==◌}
use text.Mathlib.TextEquality.{eq_iff}
use catfish.Prelude.{
  ℕ, zero, suc, ◌≡◌, ◌≢◌, refl, sym, ap, ◌∙◌, Bool, true, false, Bool-cases, ◌⊎◌, inl, inr, Option,
  none, some, List, [], ◌∷◌, ◌++◌, map, arith, if◌then◌else◌,
}
use catfish.Config.{User}
use catfish.Proxy.Server.{pool_key, Pools, lookup, insert, handle_of}

pub lookup-insert :
    (j k : String) (v : ℕ) (m : Pools)
    → lookup j (insert k v m) ≡ (if k == j then some v else lookup j m)
unfolding lookup insert
lookup-insert j k v [] = refl
lookup-insert j k v ((i, p) ∷ m) = elim (Bool-cases (i == k)) [
  | inl e ↦ let same : i ≡ k = (eq_iff i k).0 e in rw (e, same) (if_same (k == j) _ _ _)
  | inr e ↦ elim (Bool-cases (i == j)) [
    | inl f ↦ elim (Bool-cases (k == j)) [
      | inl g ↦
          absurd (false≢true (sym e ∙ (eq_iff i k).1 ((eq_iff i j).0 f ∙ sym ((eq_iff k j).0 g))))
      | inr g ↦ rw (e, f, g)
    ]
    | inr f ↦ rw (e, f) (lookup-insert j k v m)
  ]
]
  where
    if_same :
        (b : Bool) (x y z : Option ℕ) → (if b then x else y) ≡ (if b then x else if b then z else y)
    if_same true x y z = refl
    if_same false x y z = refl

pub map-insert :
    (k : String) (v : ℕ) (m : Pools)
    → lookup k m ≡ none
    → map handle_of (insert k v m) ≡ map handle_of m ++ v ∷ []
unfolding lookup insert
map-insert k v [] h = refl
map-insert k v ((j, p) ∷ m) h = elim (Bool-cases (j == k)) [
  | inl e ↦ absurd (ground arith)
  | inr e ↦ rw e (ap (λ (l : List ℕ). p ∷ l) (map-insert k v m (ground arith)))
]

-- the numbers below `n`
abbrev pub below : ℕ → List ℕ
below zero = []
below (suc n) = below n ++ n ∷ []

abbrev pub key_of : User → String
key_of u = pool_key u.username u.database

abbrev pub NoKey : String → List User → Type 0
NoKey k [] = Unit
NoKey k (u ∷ us) = (key_of u ≢ k) × NoKey k us

-- No two users of the list share a pool.
abbrev pub IsApart : List User → Type 0
IsApart [] = Unit
IsApart (u ∷ us) = NoKey (key_of u) us × IsApart us

-- Some user of the list has the key.
abbrev pub UsesKey : String → List User → Type 0
UsesKey k [] = ⊥
UsesKey k (u ∷ us) = (key_of u ≡ k) ⊎ UsesKey k us

-- The map has a pool under the key.
abbrev pub Has : String → Pools → Type 0
Has k m = (p : ℕ) × (lookup k m ≡ some p)

pub insert-Has : (j k : String) (v : ℕ) (m : Pools) → (k ≡ j) ⊎ Has j m → Has j (insert k v m)
insert-Has j k v m h = elim (Bool-cases (k == j)) [
  | inl e ↦ (v, lookup-insert j k v m ∙ rw e)
  | inr e ↦ elim h [
    | inl f ↦ absurd (false≢true (sym e ∙ (eq_iff k j).1 f))
    | inr (p, f) ↦ (p, lookup-insert j k v m ∙ rw e f)
  ]
]

abbrev pub AreNew : Pools → List User → Type 0
AreNew m [] = Unit
AreNew m (u ∷ us) = (lookup (key_of u) m ≡ none) × AreNew m us

pub AreNew-insert :
    (m : Pools) (k : String) (v : ℕ) (us : List User)
    → AreNew m us
    → NoKey k us
    → AreNew (insert k v m) us
AreNew-insert m k v [] h a = tt
AreNew-insert m k v (u ∷ us) h a = (
  ground (
    arith,
    lookup-insert (key_of u) k v m,
    eq_iff k (key_of u),
    h.0,
    λ (e : k ≡ key_of u). a.0 (sym e),
  ),
  AreNew-insert m k v us h.1 a.1,
)

pub AreNew-nil : (us : List User) → AreNew [] us
unfolding lookup
AreNew-nil [] = tt
AreNew-nil (u ∷ us) = (refl, AreNew-nil us)
