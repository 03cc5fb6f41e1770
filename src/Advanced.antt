-- ===== src/Advanced.antt =====
-- ui/src/features/advanced: the forms of the endpoints and of the experimental section.
pub mod Endpoints
pub mod Experimental
