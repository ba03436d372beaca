-- ===== src/Proxy/Server/Tests.antt =====
-- The server on a configuration of two users.
use Prim.Native.String.{String}
use catfish.Prelude.{ℕ, zero, suc, true, false, none, some, [], ◌∷◌}
use catfish.Prelude.Int.{ℤ, pos}
use catfish.Config
use catfish.Config.{User}
use catfish.Pool
use catfish.Proxy.Auth.Wire.{Wire, startup_message, password_message}
use catfish.Proxy.Auth.Methods.{Crypto}
use catfish.Proxy.Session.{Session, terminate, query}
use catfish.Proxy.Server.{Server, Opened, creation_failed, opened}

abbrev reader : User
reader = record {
  username = "app";
  database = "products";
  password = "pw";
  tier = "low";
  auth_method = "cleartext";
}

abbrev writer : User
writer = record {
  username = "admin";
  database = "products";
  password = "secret";
  tier = "high";
  auth_method = "";
}

abbrev two_users : Config.Config
two_users = record {
  listener_addr = ":6432";
  postgres_host = "localhost";
  postgres_port = pos 5432;
  shutdown_timeout = pos 30;
  tiers =
      record { name = "high"; weight = pos 10; queue_size = pos 5 }
      ∷ record { name = "low"; weight = pos 1; queue_size = pos 5 }
      ∷ [];
  users = reader ∷ writer ∷ [];
  pool = record {
    min_conns = pos 1;
    max_conns = pos 4;
    max_conn_lifetime = pos 9;
    max_conn_idle_time = pos 9;
  };
  max_concurrent = pos 8;
}

abbrev decimal : ℤ → String
decimal n = "5432"

-- the first `n` calls open a pool, and the first pool has no statuses
abbrev opens_first : ℕ → ℕ → Pool.Config → Opened
opens_first zero i c = creation_failed
opens_first (suc n) zero c = opened none
opens_first (suc n) (suc i) c = opens_second n i
  where
    opens_second : ℕ → ℕ → Opened
    opens_second zero i = creation_failed
    opens_second (suc n) i = opened (some (("server_version", "16.1") ∷ []))

abbrev started : Server
started = record {
  users = reader ∷ writer ∷ [];
  tiers = "high" ∷ "low" ∷ [];
  pools = ("app/products", 0) ∷ ("admin/products", 1) ∷ [];
  parameter_statuses = ("server_version", "16.1") ∷ [];
}

abbrev plain : Crypto
plain = record {
  bytes = λ s. b'p' ∷ [];
  md5 = λ s. s;
  hex = λ s. s;
  encode = λ s. s;
  decode = λ s. some s;
  pbkdf2 = λ p s n k. p;
  hmac = λ k t. t;
  sha256 = λ t. t;
}

abbrev hello : Wire
hello = record {
  incoming = startup_message "app" "products" ∷ password_message (b'p' ∷ []) ∷ [];
  flushes = true ∷ true ∷ true ∷ [];
  randoms = [];
  sent = [];
  client = record { username = ""; database = ""; tier = "" };
}

abbrev new_session : Session
new_session = record {
  client = query "SELECT 1" ∷ terminate ∷ [];
  postgres = [];
  flushes = true ∷ [];
  grants = true ∷ [];
  trace = [];
  tx_status = 0;
  query_in_progress = false;
}
