-- ===== src/KvStore.antt =====
-- The key-value servers: the store (Modularize Key-Value/kvstore_functions.c, and the same code in
-- mini-key-value/server.c and key-value/server.c), the requests that they read, and the servers.
pub mod Store
pub mod Scan
pub mod Server
mod Tests
