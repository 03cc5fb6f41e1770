-- ===== src/Proxy.antt =====
-- ui/src/features/proxy: the inbound and outbound forms.
pub mod Kinds
pub mod FormModel
pub mod Inbound
pub mod Outbound
pub mod Update
pub mod ListPage
