-- ===== src/Policy.antt =====
-- ui/src/features/policy: the route and DNS forms.
pub mod Kinds
pub mod FormModel
pub mod Route
pub mod Dns
pub mod Dialog
pub mod Number
pub mod Editor
