-- ===== src/Http.antt =====
-- http/http.go and http/breaker.go: the JSON client with retries and a circuit breaker.
pub mod Breaker
pub mod Client
mod Examples
