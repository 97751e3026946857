-- ===== src/Web.antt =====
-- packages/web/src/index.ts: the WebAuthn adapter.
pub mod Base64
pub mod Mode
pub mod Extensions
pub mod Controller
pub mod Outcome
pub mod Options
pub mod Credential
pub mod Passkey
mod Tests
