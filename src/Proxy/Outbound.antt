-- ===== src/Proxy/Outbound.antt =====
-- ui/src/features/proxy/outbound-form-model.ts.
pub mod Fields
pub mod Protocols
pub mod Sections
pub mod Change
