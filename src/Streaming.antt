-- ===== src/Streaming.antt =====
-- streaming.c: which chunks a peer needs, which offered chunks to accept, what to send, and what to
-- do with a chunk that comes in. The chunk buffer and the sets of chunk ids are GRAPES's.
pub mod Attributes
pub mod Needs
pub mod Accept
pub mod Send
pub mod Receive
pub mod Offer
pub mod Push
pub mod Offering
mod Tests
