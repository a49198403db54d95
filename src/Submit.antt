-- ===== src/Submit.antt =====
-- server/src/tweet_submit: the submission of a batch of users, tweets and media.
pub mod Results
pub mod Writes
pub mod Prepare
pub mod Batch
pub mod Execute
