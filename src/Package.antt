-- ===== src/Package.antt =====
-- src/package: names, archives and signing of packages.
pub mod Names
pub mod Archive
pub mod Store
pub mod Metadata
pub mod Signing
pub mod Declarations
pub mod Contents
pub mod Reader
mod Sample
mod Tests
pub mod Component
