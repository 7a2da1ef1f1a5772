-- ===== src/Ssh.antt =====
-- merlya/ssh: the circuit breakers and the connection pool.
pub mod Circuit
pub mod Types
pub mod Pool
mod Examples
