-- ===== src/ReactNative.antt =====
-- packages/react-native/src/index.ts: the props, the events and the wrapped view.
pub mod Props
pub mod Events
pub mod View
mod Tests
