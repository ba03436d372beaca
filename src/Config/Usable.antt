-- ===== src/Config/Usable.antt =====
-- config/config.go: which files `Load` turns into a configuration, and what a configuration promises.
use Prim.Native.String.{String}
use text.Mathlib.Text.{◌==◌}
use text.Mathlib.TextEquality.{eq_iff}
use mathlib.Core.Bool.{false≢true}
use catfish.Prelude.{
  ℕ, zero, suc, ◌≡◌, ◌≢◌, refl, subst, ap, ◌∙◌, ◌⊎◌, inl, inr, true, false, Option, List, [], ◌∷◌,
  map, arith, Option-cases, if◌then◌else◌,
}
use catfish.Prelude.Int.{ℤ, pos, negsuc, pos_part, neg_part}
use catfish.Config.{
  Config, File, TierFile, UserFile, ConfigError, failed, returned, unknown_tier,
  password_env_missing, or_default, seconds, pool_defaults, tier_defaults, is_empty, known,
  tier_names, resolved_user, resolve_users, configured, resolve, load,
}
use catfish.Config.Rules.{Every, Occurs, AtMost, IsFalling, equal_or_not, IsValid, validate_lem}

pub known_lem :
    (n : String) (ms : List String)
    → ((known n ms ≡ true) × Occurs n ms) ⊎ ((known n ms ≡ false) × ¬ Occurs n ms)
unfolding known
known_lem n [] = inr (refl, λ x. x)
known_lem n (m ∷ ms) = elim (equal_or_not n m) [
  | inl (e, p) ↦ inl (rw e, inl p)
  | inr (e, p) ↦ elim (known_lem n ms) [
    | inl (k, o) ↦ inl (rw (e, k), inr o)
    | inr (k, o) ↦ inr (rw (e, k), λ h. elim h [ inl q ↦ p q | inr q ↦ o q ])
  ]
]

-- What every configuration promises: there are tiers, in order of weight; there are users, with
-- one of these tiers and a password each; and no field with a default is 0.
pub record IsUsable (c : Config) : Type 0 where
  pub host : c.postgres_host ≢ ""
  pub has_tiers : is_empty c.tiers ≡ false
  pub falling : IsFalling (map (λ t. t.weight) c.tiers)
  pub tiers_set : Every (λ t. (t.weight ≢ pos 0) × (t.queue_size ≢ pos 0)) c.tiers
  pub has_users : is_empty c.users ≡ false
  pub users_resolved :
      Every (λ u. Occurs u.tier (map (λ t. t.name) c.tiers) × (u.password ≢ "")) c.users
  pub listens : c.listener_addr ≢ ""
  pub port : c.postgres_port ≢ pos 0
  pub conns : (c.pool.min_conns ≢ pos 0) × (c.pool.max_conns ≢ pos 0)
  pub times :
      (c.shutdown_timeout ≢ pos 0)
      × (c.pool.max_conn_lifetime ≢ pos 0)
      × (c.pool.max_conn_idle_time ≢ pos 0)
  pub concurrent : c.max_concurrent ≢ pos 0

-- A default that is not 0 is never 0.
pub or_default-ne : (d x : ℤ) → d ≢ pos 0 → or_default d x ≢ pos 0
or_default-ne d (pos zero) h = h
or_default-ne d (pos (suc n)) h = λ e. absurd (omega (arith, ap pos_part e))
or_default-ne d (negsuc n) h = λ e. absurd (omega (arith, ap neg_part e))

pos-ne : (n : ℕ) → pos (suc n) ≢ pos 0
pos-ne n e = absurd (omega (arith, ap pos_part e))

-- The default weight keeps the order: there is no integer between 0 and 1.
or_default_mono : (a b : ℤ) → AtMost a b → AtMost (or_default (pos 1) a) (or_default (pos 1) b)
or_default_mono (pos zero) (pos zero) h = omega (arith, h)
or_default_mono (pos zero) (pos (suc n)) h = omega (arith, h)
or_default_mono (pos zero) (negsuc n) h = omega (arith, h)
or_default_mono (pos (suc m)) (pos zero) h = omega (arith, h)
or_default_mono (pos (suc m)) (pos (suc n)) h = omega (arith, h)
or_default_mono (pos (suc m)) (negsuc n) h = omega (arith, h)
or_default_mono (negsuc m) (pos zero) h = omega (arith, h)
or_default_mono (negsuc m) (pos (suc n)) h = omega (arith, h)
or_default_mono (negsuc m) (negsuc n) h = omega (arith, h)

defaults-IsFalling :
    (ts : List TierFile)
    → IsFalling (map (λ t. t.weight) ts)
    → IsFalling (map (λ t. t.weight) (map tier_defaults ts))
unfolding tier_defaults
defaults-IsFalling [] h = tt
defaults-IsFalling (t ∷ []) h = tt
defaults-IsFalling (t ∷ u ∷ ts) h =
    (or_default_mono u.weight t.weight h.0, defaults-IsFalling (u ∷ ts) h.1)

tiers_set_lem :
    (ts : List TierFile)
    → Every (λ t. (t.weight ≢ pos 0) × (t.queue_size ≢ pos 0)) (map tier_defaults ts)
unfolding tier_defaults
tiers_set_lem [] = tt
tiers_set_lem (t ∷ ts) = (
  (or_default-ne (pos 1) t.weight (pos-ne 0), or_default-ne (pos 200) t.queue_size (pos-ne 199)),
  tiers_set_lem ts,
)

names_kept : (ts : List TierFile) → map (λ t. t.name) (map tier_defaults ts) ≡ tier_names ts
unfolding tier_defaults
names_kept [] = refl
names_kept (t ∷ ts) = ap (◌∷◌ t.name) (names_kept ts)

is_empty-map {ℓ} : {A B : Type ℓ} (f : A → B) (xs : List A) → is_empty (map f xs) ≡ is_empty xs
is_empty-map f [] = refl
is_empty-map f (x ∷ xs) = refl

listen_default : (s : String) → (if s == "" then ":6432" else s) ≢ ""
listen_default s = elim (equal_or_not s "") [
  | inl (e, p) ↦ rw e (λ q. false≢true ((eq_iff ":6432" "").1 q))
  | inr (n, p) ↦ rw n p
]

module _ (getenv : String → String) where
  -- A user whose tier exists and whose password is set.
  abbrev pub Resolves : List String → UserFile → Type 0
  Resolves names u = Occurs u.tier names × (getenv u.password_env ≢ "")

  pub resolve_users_lem :
      (names : List String) (us : List UserFile)
      → ((resolve_users getenv names us ≡ returned (map (resolved_user getenv) us))
          × Every (Resolves names) us)
        ⊎ ((e : ConfigError) × (resolve_users getenv names us ≡ failed e)
            × ¬ Every (Resolves names) us)
  unfolding resolve_users
  resolve_users_lem names [] = inl (refl, tt)
  resolve_users_lem names (u ∷ us) = elim (known_lem u.tier names) [
    | inr (k, o) ↦ inr (unknown_tier u.username u.tier, rw k, λ h. o h.0.0)
    | inl (k, o) ↦ elim (equal_or_not (getenv u.password_env) "") [
      | inl (e, p) ↦ inr (password_env_missing u.password_env u.username, rw (k, e), λ h. h.0.1 p)
      | inr (n, p) ↦ elim (resolve_users_lem names us) [
        | inl (e, h) ↦ inl (rw (k, n, e), ((o, p), h))
        | inr (x, e, h) ↦ inr (x, rw (k, n, e), λ j. h j.1)
      ]
    ]
  ]

  -- What `Load` asks of a parsed file.
  abbrev pub Loads : File → Type 0
  Loads f = IsValid f × Every (Resolves (tier_names f.tiers)) f.users

  pub resolve_lem :
      (f : File)
      → (Loads f
          × (resolve getenv f
              ≡ returned (configured getenv f (map (resolved_user getenv) f.users))))
        ⊎ (¬ Loads f × ((e : ConfigError) × (resolve getenv f ≡ failed e)))
  unfolding resolve
  resolve_lem f = elim (validate_lem f) [
    | inr (x, e, h) ↦ inr (λ l. h l.0, (x, rw (e, resolve)))
    | inl (e, v) ↦ elim (resolve_users_lem (tier_names f.tiers) f.users) [
      | inl (k, us) ↦ inl ((v, us), rw (e, resolve, k))
      | inr (x, k, h) ↦ inr (λ l. h l.1, (x, rw (e, resolve, k)))
    ]
  ]

  users_resolved_lem :
      (names : List String) (us : List UserFile)
      → Every (Resolves names) us
      → Every (λ u. Occurs u.tier names × (u.password ≢ "")) (map (resolved_user getenv) us)
  users_resolved_lem names [] h = tt
  users_resolved_lem names (u ∷ us) h = (h.0, users_resolved_lem names us h.1)

  configured-IsUsable :
      (f : File) → Loads f → IsUsable (configured getenv f (map (resolved_user getenv) f.users))
  unfolding configured pool_defaults
  configured-IsUsable f (v, us) = record {
    host = v.host;
    has_tiers = is_empty-map tier_defaults f.tiers ∙ v.has_tiers;
    falling = defaults-IsFalling f.tiers v.falling;
    tiers_set = tiers_set_lem f.tiers;
    has_users = is_empty-map (resolved_user getenv) f.users ∙ v.has_users;
    users_resolved = rw (names_kept f.tiers) (users_resolved_lem (tier_names f.tiers) f.users us);
    listens = listen_default f.listen;
    port = or_default-ne (pos 5432) f.postgres_port (pos-ne 5431);
    conns = (
      or_default-ne (pos 5) f.pool.min_conns (pos-ne 4),
      or_default-ne (pos 20) f.pool.max_conns (pos-ne 19),
    );
    times = (
      or_default-ne (pos (seconds 10)) f.shutdown_timeout (pos-ne 9999999999),
      or_default-ne (pos (seconds 3600)) f.pool.max_conn_lifetime (pos-ne 3599999999999),
      or_default-ne (pos (seconds 1800)) f.pool.max_conn_idle_time (pos-ne 1799999999999),
    );
    concurrent = or_default-ne (pos 20) f.max_concurrent (pos-ne 19);
  }

  pub resolve-IsUsable : (f : File) (c : Config) → resolve getenv f ≡ returned c → IsUsable c
  resolve-IsUsable f c r = elim (resolve_lem f) [
    | inl (l, e) ↦ subst IsUsable (cc (e, r)) (configured-IsUsable f l)
    | inr (n, (x, e)) ↦ absurd (cc (e, r))
  ]

  module _ {ℓ} {Data : Type ℓ} (read_file : String → Option Data)
      (unmarshal : Data → Option File) where
    -- A configuration that `Load` returns is usable: it has a host, its tiers are in falling order of
    -- weight, defaults included, its users have one of these tiers and a password that is not empty,
    -- and none of the fields with a default is 0.
    pub load-IsUsable :
        (path : String) (c : Config)
        → load getenv read_file unmarshal path ≡ returned c
        → IsUsable c
    unfolding load
    load-IsUsable path c r = elim (Option-cases (read_file path)) [
      | inl e ↦ absurd (cc (e, r))
      | inr (bytes, e) ↦ elim (Option-cases (unmarshal bytes)) [
        | inl k ↦ absurd (cc (e, k, r))
        | inr (f, k) ↦ resolve-IsUsable f c (cc (e, k, r))
      ]
    ]
