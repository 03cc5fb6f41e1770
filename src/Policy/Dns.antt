-- ===== src/Policy/Dns.antt =====
-- ui/src/features/policy/dns-form-model.ts and dns-form-cleanup.ts: the DNS forms.
pub mod Cleanup
pub mod Change
pub mod Fields
pub mod ServerFields
pub mod Form
