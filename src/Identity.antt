-- ===== src/Identity.antt =====
-- Verified identity (identity/): the inbound middleware, the JWKS verifier and its discovery, and
-- the outbound transport.
pub mod Config
pub mod Code
pub mod Errors
pub mod Context
pub mod Claims
pub mod Token
pub mod Middleware
pub mod Transport
pub mod Jwx
pub mod Verifier
pub mod Discovery
mod Tests
