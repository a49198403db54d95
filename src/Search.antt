-- ===== src/Search.antt =====
-- server/src/search: the work queue of the search index and its workers.
pub mod Tasks
