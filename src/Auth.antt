-- ===== src/Auth.antt =====
-- auth/: token stores, the issuer of token pairs and the middleware that checks them.
pub mod Claims
mod Bearer
pub mod Store
pub mod Memory
pub mod Issuer
pub mod Middleware
mod Signed
mod Examples
