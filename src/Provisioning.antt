-- ===== src/Provisioning.antt =====
-- src/microReticulum/Provisioning: typed settings in namespaces, changed through drafts.
pub mod Index
pub mod Value
pub mod Field
pub mod Namespace
pub mod Registry
