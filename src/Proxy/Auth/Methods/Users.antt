-- ===== src/Proxy/Auth/Methods/Users.antt =====
-- proxy/proxy.go: the index of the users that New makes and doAuth reads.
use Prim.Native.String.{String}
use text.Mathlib.Text.{◌==◌}
use text.Mathlib.TextEquality.{eq_iff}
use catfish.Prelude.{
  ◌≡◌, ◌≢◌, none, some, List, [], ◌∷◌, ◌++◌, arith, Bool-cases, Option-cases, inl, inr,
}
use catfish.Config.{User}
use catfish.Proxy.Auth.Methods.{user_index}

-- No user of the list has the name.
abbrev pub HasNo : String → List User → Type 0
HasNo name [] = Unit
HasNo name (u ∷ us) = (u.username ≢ name) × HasNo name us

-- the user that the configuration names last by that name
pub record IsLast (name : String) (entry : User) (users : List User) : Type 0 where
  pub before : List User
  pub later : List User
  pub listed : users ≡ before ++ entry ∷ later
  pub named : entry.username ≡ name
  pub shadowed : HasNo name later

user_index-HasNo : (us : List User) (name : String) → user_index us name ≡ none → HasNo name us
unfolding user_index
user_index-HasNo [] name h = tt
user_index-HasNo (u ∷ us) name h = elim (Option-cases (user_index us name)) [
  | inl e ↦ (λ p. absurd (ground (arith, eq_iff u.username name)), user_index-HasNo us name e)
  | inr (v, e) ↦ absurd (ground arith)
]

pub user_index-IsLast :
    (us : List User) (name : String) (entry : User)
    → user_index us name ≡ some entry
    → IsLast name entry us
unfolding user_index
user_index-IsLast [] name entry h = absurd (cc)
user_index-IsLast (u ∷ us) name entry h = elim (Option-cases (user_index us name)) [
  | inl e ↦ elim (Bool-cases (u.username == name)) [
    | inl n ↦
        let same_user : u ≡ entry = ground arith in
        record {
          before = [];
          later = us;
          listed = cc;
          named = cc ((eq_iff u.username name).0 n);
          shadowed = user_index-HasNo us name e;
        }
    | inr n ↦ absurd (ground arith)
  ]
  | inr (v, e) ↦
      let r = user_index-IsLast us name entry (ground arith) in
      record {
        before = u ∷ r.before;
        later = r.later;
        listed = cc (r.listed);
        named = r.named;
        shadowed = r.shadowed;
      }
]
