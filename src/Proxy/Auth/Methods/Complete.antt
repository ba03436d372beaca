-- ===== src/Proxy/Auth/Methods/Complete.antt =====
-- proxy/clientAuth.go: doAuth with a client that keeps to RFC 5802 and knows the password.
use Prim.Native.String.{String}
use catfish.Proxy.Auth.Wire.{Wire}
