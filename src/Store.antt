-- ===== src/Store.antt =====
-- internal/pgstore: the counters of the cards, the writer of card states, the recovery of campaigns and
-- the caches of the worker.
pub mod Counters
pub mod Writer
pub mod Recovery
pub mod Coordination
pub mod Multipart
