-- ===== src/Config/Tests.antt =====
-- The theorems about config.go at a concrete file, and a run of it.
use Prim.Native.String.{String}
use text.Mathlib.Text.{◌==◌}
use catfish.Prelude.{◌≡◌, refl, Option, none, some, [], ◌∷◌, map, if◌then◌else◌}
use catfish.Prelude.Int.{pos}
use catfish.Config.{
  Config, File, UserFile, ConfigError, returned, check_users, check_tiers, validate, known,
  resolved_user, resolve_users, configured, resolve, load,
}
use catfish.Config.Usable.{IsUsable, load-IsUsable}

abbrev environment : String → String
environment v = if v == "APP_PASSWORD" then "secret" else ""

abbrev app_user : UserFile
app_user = record {
  username = "app";
  database = "products";
  tier = "low";
  password_env = "APP_PASSWORD";
  auth_method = "";
}

abbrev sample : File
sample = record {
  listen = "";
  postgres_host = "localhost";
  postgres_port = pos 0;
  shutdown_timeout = pos 0;
  tiers =
      record { name = "critical"; weight = pos 5; queue_size = pos 50 }
      ∷ record { name = "low"; weight = pos 0; queue_size = pos 0 }
      ∷ [];
  users = app_user ∷ [];
  pool = record {
    min_conns = pos 0;
    max_conns = pos 8;
    max_conn_lifetime = pos 0;
    max_conn_idle_time = pos 0;
  };
  max_concurrent = pos 0;
}

abbrev pub sample_config : Config
sample_config = configured environment sample (map (resolved_user environment) sample.users)

-- A file that heeds the path: only one path can be read.
abbrev read_sample : String → Option String
read_sample path = if path == "catfish.yml" then some "tiers: …" else none

abbrev unmarshal_sample : String → Option File
unmarshal_sample text = if text == "" then none else some sample

sample_loads : load environment read_sample unmarshal_sample "catfish.yml" ≡ returned sample_config
unfolding load resolve validate check_users check_tiers resolve_users known
sample_loads = refl

pub sample-IsUsable : IsUsable sample_config
sample-IsUsable =
    load-IsUsable environment read_sample unmarshal_sample "catfish.yml" sample_config sample_loads

load-IsUsable_example : IsUsable sample_config
load-IsUsable_example =
    load-IsUsable environment read_sample unmarshal_sample "catfish.yml" sample_config sample_loads

-- `tiers:` in rising order is refused, with the names of the two tiers.
rising_tiers :
    check_tiers (
      record { name = "low"; weight = pos 1; queue_size = pos 9 }
      ∷ record { name = "critical"; weight = pos 5; queue_size = pos 9 }
      ∷ [])
    ≡ some (ConfigError.tiers_not_ordered "critical" "low")
unfolding check_tiers
rising_tiers = refl
