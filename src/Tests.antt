-- ===== src/Tests.antt =====
-- The theorems at concrete objects of the panel's forms.
pub mod Evidence
pub mod Policy
pub mod Rules
pub mod Lists
pub mod Dialog
pub mod Proxy
pub mod Streams
pub mod Stored
pub mod Editors
