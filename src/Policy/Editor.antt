-- ===== src/Policy/Editor.antt =====
-- ui/src/features/policy: the visual editors' lists, and what the policy page saves.
pub mod Items
pub mod RouteRules
pub mod Saved
pub mod Draft
