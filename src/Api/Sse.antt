-- ===== src/Api/Sse.antt =====
-- ui/src/lib/api/sse.ts: event streams.
pub mod Blocks
pub mod Retry
pub mod Stream
