-- ===== src/Resilience.antt =====
-- merlya/core/resilience.py: the circuit breaker and the retry decorator.
pub mod Breaker
pub mod Retry
mod Examples
