-- ===== src/Config.antt =====
-- config/config.go: the check of a parsed file, its defaults and the passwords of the users. The file
-- system, the YAML parser and the environment are parameters.
use Prim.Native.String.{String}
use text.Mathlib.Text.{◌==◌}
use catfish.Prelude.{
  ℕ, zero, suc, ◌*◌, Bool, true, false, not, ◌||◌, Option, none, some, List, [], ◌∷◌, map,
  if◌then◌else◌,
}
use catfish.Prelude.Int.{ℤ, pos, negsuc, ltb_ℤ}
pub mod Rules
pub mod Usable
pub mod Tests

pub record Tier : Type 0 where
  pub name : String
  pub weight : ℤ
  pub queue_size : ℤ

pub record User : Type 0 where
  pub username : String
  pub database : String
  pub password : String
  pub tier : String
  pub auth_method : String

pub record PoolConfig : Type 0 where
  pub min_conns : ℤ
  pub max_conns : ℤ
  pub max_conn_lifetime : ℤ
  pub max_conn_idle_time : ℤ

pub record Config : Type 0 where
  pub listener_addr : String
  pub postgres_host : String
  pub postgres_port : ℤ
  pub shutdown_timeout : ℤ
  pub tiers : List Tier
  pub users : List User
  pub pool : PoolConfig
  pub max_concurrent : ℤ

pub record PoolFile : Type 0 where
  pub min_conns : ℤ
  pub max_conns : ℤ
  pub max_conn_lifetime : ℤ
  pub max_conn_idle_time : ℤ

pub record TierFile : Type 0 where
  pub name : String
  pub weight : ℤ
  pub queue_size : ℤ

pub record UserFile : Type 0 where
  pub username : String
  pub database : String
  pub tier : String
  pub password_env : String
  pub auth_method : String

pub record File : Type 0 where
  pub listen : String
  pub postgres_host : String
  pub postgres_port : ℤ
  pub shutdown_timeout : ℤ
  pub tiers : List TierFile
  pub users : List UserFile
  pub pool : PoolFile
  pub max_concurrent : ℤ

-- The errors of config/errors.go with the values that they are wrapped with.
pub data ConfigError : Type 0 where
  read_config_file parse_config_file : ConfigError
  unknown_tier : (user tier : String) → ConfigError
  password_env_missing : (env user : String) → ConfigError
  postgres_host_required at_least_one_tier_required at_least_one_user_required : ConfigError
  user_missing_password_env : (user : String) → ConfigError
  tiers_not_ordered : (later earlier : String) → ConfigError

pub data Result {ℓ} (A : Type ℓ) : Type ℓ where
  failed : ConfigError → Result A
  returned : A → Result A

-- the first user that names no environment variable
pub check_users : List UserFile → Option ConfigError
check_users [] = none
check_users (u ∷ us) =
    let rest = check_users us in
    if u.password_env == "" then some (user_missing_password_env u.username) else rest

-- the first tier that is heavier than the one before it
pub check_tiers : List TierFile → Option ConfigError
check_tiers [] = none
check_tiers (t ∷ []) = none
check_tiers (t ∷ u ∷ ts) =
    let rest = check_tiers (u ∷ ts) in
    if ltb_ℤ t.weight u.weight then some (tiers_not_ordered u.name t.name) else rest

abbrev pub is_empty {ℓ} : {A : Type ℓ} → List A → Bool
is_empty [] = true
is_empty (x ∷ xs) = false

pub validate : File → Option ConfigError
validate f =
    if f.postgres_host == ""
    then some postgres_host_required
    else if is_empty f.tiers
    then some at_least_one_tier_required
    else if is_empty f.users
    then some at_least_one_user_required
    else elim (check_users f.users) [ some e ↦ some e | none ↦ check_tiers f.tiers ]

-- `x`, or `d` where the file leaves the field at Go's zero value
abbrev pub or_default : ℤ → ℤ → ℤ
or_default d (pos zero) = d
or_default d (pos (suc n)) = pos (suc n)
or_default d (negsuc n) = negsuc n

abbrev pub seconds : ℕ → ℕ
seconds n = n * 1000000000

pub pool_defaults : PoolFile → PoolConfig
pool_defaults p = record {
  min_conns = or_default (pos 5) p.min_conns;
  max_conns = or_default (pos 20) p.max_conns;
  max_conn_lifetime = or_default (pos (seconds 3600)) p.max_conn_lifetime;
  max_conn_idle_time = or_default (pos (seconds 1800)) p.max_conn_idle_time;
}

pub tier_defaults : TierFile → Tier
tier_defaults t = record {
  name = t.name;
  weight = or_default (pos 1) t.weight;
  queue_size = or_default (pos 200) t.queue_size;
}

-- the keys of the map `tierNames`, and the lookup in it
abbrev pub tier_names : List TierFile → List String
tier_names ts = map (λ t. t.name) ts

pub known : String → List String → Bool
known n [] = false
known n (m ∷ ms) = (n == m) || known n ms

module _ (getenv : String → String) where
  abbrev pub resolved_user : UserFile → User
  resolved_user u = record {
    username = u.username;
    database = u.database;
    password = getenv u.password_env;
    tier = u.tier;
    auth_method = u.auth_method;
  }

  abbrev pub cons_user : User → Result (List User) → Result (List User)
  cons_user u (failed e) = failed e
  cons_user u (returned us) = returned (u ∷ us)

  pub resolve_users : List String → List UserFile → Result (List User)
  resolve_users names [] = returned []
  resolve_users names (u ∷ us) =
      let rest = resolve_users names us in
      if not (known u.tier names)
      then failed (unknown_tier u.username u.tier)
      else if getenv u.password_env == ""
      then failed (password_env_missing u.password_env u.username)
      else cons_user (resolved_user u) rest

  -- the configuration with its defaults and the given users
  pub configured : File → List User → Config
  configured f users = record {
    listener_addr = if f.listen == "" then ":6432" else f.listen;
    postgres_host = f.postgres_host;
    postgres_port = or_default (pos 5432) f.postgres_port;
    shutdown_timeout = or_default (pos (seconds 10)) f.shutdown_timeout;
    tiers = map tier_defaults f.tiers;
    users = users;
    pool = pool_defaults f.pool;
    max_concurrent = or_default (pos 20) f.max_concurrent;
  }

  abbrev pub with_users : File → Result (List User) → Result Config
  with_users f (failed e) = failed e
  with_users f (returned us) = returned (configured f us)

  -- `Load` from the parsed file on
  pub resolve : File → Result Config
  resolve f = elim (validate f) [
    | some e ↦ failed e
    | none ↦ with_users f (resolve_users (tier_names f.tiers) f.users)
  ]

  module _ {ℓ} {Data : Type ℓ} (read_file : String → Option Data)
      (unmarshal : Data → Option File) where
    pub load : String → Result Config
    load path = elim (read_file path) [
      | none ↦ failed read_config_file
      | some bytes ↦ elim (unmarshal bytes) [ none ↦ failed parse_config_file | some f ↦ resolve f ]
    ]
