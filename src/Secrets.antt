-- ===== src/Secrets.antt =====
-- `VersionedSecretsManager` of services/orchestrator/src/auth/VersionedSecretsManager.ts, over a
-- store of texts whose calls may fail. JSON is a parameter.
pub mod Store
pub mod Manager
pub mod Versions
mod Keys
pub mod Commit
pub mod Rotation
pub mod Atomic
pub mod Current
mod Codec
mod Tests
