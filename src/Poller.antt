-- ===== src/Poller.antt =====
-- internal/poller: the two pollers that fill the cache, and how they share out the ports.
pub mod Slots
pub mod Walks
pub mod Names
pub mod Optical
