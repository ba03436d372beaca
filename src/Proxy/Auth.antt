-- ===== src/Proxy/Auth.antt =====
-- proxy/clientAuth.go: doAuth and the three methods of authentication, as exchanges of messages.
pub mod Wire
pub mod Methods
