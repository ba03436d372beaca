-- ===== src/Config/Rules.antt =====
-- config/config.go: what `validate` and the loop over the users accept.
use Prim.Native.String.{String}
use text.Mathlib.Text.{◌==◌}
use text.Mathlib.TextEquality.{eq_iff}
use catfish.Prelude.{
  ◌+◌, ◌≤◌, ◌≡◌, ◌≢◌, refl, sym, ◌∙◌, ◌⊎◌, inl, inr, true, false, Option, none, some, List, [], ◌∷◌,
  map, arith, Bool-cases, ltb→lt,
}
use mathlib.Core.Bool.{false≢true}
use catfish.Prelude.Int.{ℤ, ltb_ℤ, pos_part, neg_part}
use catfish.Config.{
  File, TierFile, UserFile, ConfigError, check_users, check_tiers, validate, postgres_host_required,
  at_least_one_tier_required, at_least_one_user_required, user_missing_password_env,
  tiers_not_ordered, is_empty,
}

abbrev pub Every {ℓ} : {A : Type ℓ} → (A → Type 0) → List A → Type 0
Every P [] = Unit
Every P (x ∷ xs) = P x × Every P xs

abbrev pub Occurs : String → List String → Type 0
Occurs n [] = ⊥
Occurs n (m ∷ ms) = (n ≡ m) ⊎ Occurs n ms

abbrev pub AtMost : ℤ → ℤ → Type 0
AtMost a b = pos_part a + neg_part b ≤ pos_part b + neg_part a

-- the weights of a list of tiers never rise
abbrev pub IsFalling : List ℤ → Type 0
IsFalling [] = Unit
IsFalling (w ∷ []) = Unit
IsFalling (w ∷ v ∷ ws) = AtMost v w × IsFalling (v ∷ ws)

pub equal_or_not : (s t : String) → (((s == t) ≡ true) × (s ≡ t)) ⊎ (((s == t) ≡ false) × (s ≢ t))
equal_or_not s t = elim (Bool-cases (s == t)) [
  | inl e ↦ inl (e, (eq_iff s t).0 e)
  | inr n ↦ inr (n, λ p. absurd (false≢true (sym n ∙ (eq_iff s t).1 p)))
]

-- A check passes and its condition holds, or it fails and the condition does not.
abbrev pub Verdict : Option ConfigError → Type 0 → Type 0
Verdict r P = ((r ≡ none) × P) ⊎ ((e : ConfigError) × (r ≡ some e) × ¬ P)

abbrev pub Named : UserFile → Type 0
Named u = u.password_env ≢ ""

pub check_users_lem : (us : List UserFile) → Verdict (check_users us) (Every Named us)
unfolding check_users
check_users_lem [] = inl (refl, tt)
check_users_lem (u ∷ us) = elim (equal_or_not u.password_env "") [
  | inl (e, p) ↦ inr (user_missing_password_env u.username, rw e, λ h. h.0 p)
  | inr (n, p) ↦ elim (check_users_lem us) [
    | inl (e, h) ↦ inl (rw n e, (p, h))
    | inr (x, e, h) ↦ inr (x, rw n e, λ k. h k.1)
  ]
]

pub check_tiers_lem :
    (ts : List TierFile) → Verdict (check_tiers ts) (IsFalling (map (λ t. t.weight) ts))
unfolding check_tiers
check_tiers_lem [] = inl (refl, tt)
check_tiers_lem (t ∷ []) = inl (refl, tt)
check_tiers_lem (t ∷ u ∷ ts) = elim (Bool-cases (ltb_ℤ t.weight u.weight)) [
  | inl e ↦ inr (tiers_not_ordered u.name t.name, rw e, λ h. omega (arith, h.0, ltb→lt _ _ e))
  | inr n ↦ elim (check_tiers_lem (u ∷ ts)) [
    | inl (e, h) ↦ inl (rw n e, (ground arith, h))
    | inr (x, e, h) ↦ inr (x, rw n e, λ k. h k.1)
  ]
]

-- What `validate` asks of a file.
pub record IsValid (f : File) : Type 0 where
  pub host : f.postgres_host ≢ ""
  pub has_tiers : is_empty f.tiers ≡ false
  pub has_users : is_empty f.users ≡ false
  pub named : Every Named f.users
  pub falling : IsFalling (map (λ t. t.weight) f.tiers)

pub validate_lem : (f : File) → Verdict (validate f) (IsValid f)
unfolding validate
validate_lem f = elim (equal_or_not f.postgres_host "") [
  | inl (e, p) ↦ inr (postgres_host_required, rw e, λ v. v.host p)
  | inr (n, p) ↦ elim (Bool-cases (is_empty f.tiers)) [
    | inl e ↦ inr (at_least_one_tier_required, rw (n, e), λ v. false≢true (sym v.has_tiers ∙ e))
    | inr nt ↦ elim (Bool-cases (is_empty f.users)) [
      | inl e ↦
          inr (at_least_one_user_required, rw (n, nt, e), λ v. false≢true (sym v.has_users ∙ e))
      | inr nu ↦ elim (check_users_lem f.users) [
        | inr (x, e, h) ↦ inr (x, rw (n, nt, nu, e), λ v. h v.named)
        | inl (eu, hu) ↦ elim (check_tiers_lem f.tiers) [
          | inr (x, e, h) ↦ inr (x, rw (n, nt, nu, eu) e, λ v. h v.falling)
          | inl (e, h) ↦ inl (
            rw (n, nt, nu, eu) e,
            record { host = p; has_tiers = nt; has_users = nu; named = hu; falling = h },
          )
        ]
      ]
    ]
  ]
]
