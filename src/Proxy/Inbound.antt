-- ===== src/Proxy/Inbound.antt =====
-- ui/src/features/proxy/inbound-form-model.ts.
pub mod Fields
pub mod Sections
pub mod Change
