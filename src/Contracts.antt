-- ===== src/Contracts.antt =====
-- packages/contracts/src/index.ts: the validators of layouts, themes and native events.
pub mod Patterns
pub mod Checks
pub mod Reports
pub mod Events
pub mod Layout
pub mod Policy
pub mod Theme
pub mod Defaults
mod Tests
