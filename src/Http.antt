-- ===== src/Http.antt =====
-- The HTTP server, src/httpd, and the hosts that it serves, src/daemon/VhostManager.cpp and src/hosts.
pub mod Connections
pub mod Daemon
pub mod Config
pub mod Request
pub mod Vhosts
pub mod Hosts
pub mod Reply
pub mod Session
pub mod Parser
pub mod Lexer
mod Tests
