-- ===== src/Evidence.antt =====
-- The release scripts that check the evidence of a device run.
pub mod Text
pub mod Symlinks
pub mod Checks
pub mod Secrets
pub mod TestCases
pub mod HostModes
pub mod Artifacts
pub mod Platform
pub mod Origin
pub mod Device
pub mod Files
pub mod Tests
