-- ===== src/ServerNode.antt =====
-- packages/server-node/src/index.ts: the Fetch handler in front of the OPAQUE delegate.
pub mod Http
pub mod Evidence
pub mod Replay
pub mod Body
pub mod Response
pub mod Stages
pub mod Handler
mod Tests
