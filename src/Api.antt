-- ===== src/Api.antt =====
-- ui/src/lib: the requests to the server, its event streams, and what the browser stores.
pub mod Sse
pub mod Session
pub mod Client
pub mod Auth
pub mod Preferences
pub mod Streams
