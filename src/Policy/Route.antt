-- ===== src/Policy/Route.antt =====
-- ui/src/features/policy/route-form-model.ts: route rules, actions and rule sets.
pub mod Fields
pub mod Transition
pub mod Change
pub mod Lists
