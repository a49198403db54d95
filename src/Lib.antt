-- ===== src/Lib.antt =====
-- A model of the core of the tweet-db server: the work queues, the transfer of media objects into
-- storage, the queue of the search index, the submission of users, tweets and media, the sessions of
-- requests, the dictionary of strings, the pages of a listing, and the configuration.
--
-- The parts and how they interact. A submission (server/src/tweet_submit) writes batches of items
-- through the store and records for every object what became of its items; media resources that it
-- writes are enqueued as transfer tasks, and the targets it touches as tasks of the search index. Both
-- queues are tables (media.transfer_task and search.index_queue) that workers claim tasks from. A
-- transfer worker downloads the object in ranges and uploads it in parts while it is hashed in order;
-- a search worker brings the index up to date. An administrator retries, cancels and releases
-- transfers. A request gets its session from a cookie, and the guards of the handlers, that of the
-- submission among them, look at the session.
--
-- The files and the code they model:
--   Base               server/src/error.rs (Base.Errors) and what all parts share: tests, lists,
--                      dictionaries for the maps of the code, texts.
--   Queue              the statements that both queues share, from server/src/transfer/queue.rs and
--                      server/src/search/queue.rs: claim_next_task(s), expire_stale_tasks and the
--                      updates of a task. A table is the list of its rows and a statement is a function
--                      on it. Queue.Claims is about which tasks a claim takes, Queue.Attempts about what
--                      every row keeps.
--   Transfer.Tasks     enqueue_tasks, claim_next_task, persist_completed_task and mark_task_failed of
--                      server/src/transfer/queue.rs.
--   Transfer.Transitions  the transitions of server/src/internal_api/v2/transfer.rs.
--   Transfer.Worker    a turn of run_worker_loop of server/src/transfer/worker.rs.
--   Transfer.Source    select_source of server/src/transfer/mod.rs.
--   Transfer.Ranges    build_range_specs of server/src/transfer/range.rs.
--   Transfer.Download  ResponseByteReader and download_range_part of server/src/transfer/download.rs.
--   Transfer.Parts     the active parts and hash_ready_range_parts of server/src/transfer/range.rs.
--   Transfer.RangeUpload  upload_multipart_range_inner of server/src/transfer/upload.rs, as a machine
--                      that takes the order in which its futures become ready as a list of events.
--   Transfer.Sequential  upload_multipart_sequential_inner of the same file, in the same way.
--   Search.Tasks       server/src/search/queue.rs, search.enqueue_targets of
--                      server/migrations/20260426000090_search_outbox.sql, and the batches of
--                      server/src/search/worker.rs.
--   Config             the validation of server/src/config, and the options of a transfer that
--                      server/src/transfer/common.rs takes from it.
--   StringDict         the cache of server/src/string_dict.rs with the table behind it, the function
--                      tweet.dict_id of server/migrations/20260408000030_tweet.sql.
--   Secrets            the compound secrets of server/src/security.rs.
--   Auth               the rows of the schema iam. Auth.Store: the statements of server/src/db.rs;
--                      Auth.Session: the session of a request, of server/src/auth/session.rs;
--                      Auth.Login: server/src/auth/sso.rs, the registration and the logout;
--                      Auth.Roles: the guards and the responses of server/src/auth/responses.rs.
--   Api                limits, pages, cursors and capabilities of
--                      server/src/internal_api/v2/common.rs. docs/api.md and docs/architecture.md say
--                      that all of them need an administrator; the code, which is modelled, gives four
--                      reading capabilities to every user. Api.Audit: the listing of audit events,
--                      server/src/internal_api/v2/audit.rs.
--   Submit.Results     server/src/tweet_submit/result.rs.
--   Submit.Prepare     the loop over the users of server/src/tweet_submit/prepare.rs, with the ids of
--                      server/src/tweet_submit/validate.rs.
--   Submit.Batch       the loops over the media and the tweets of server/src/tweet_submit/prepare.rs.
--   Submit.Writes      the write batches of server/src/tweet_submit/execute whose items have a row each.
--   Submit.Execute     the other batches, the order of all (execute/mod.rs), and the handler
--                      (server/src/tweet_submit/handler.rs). An index outside the results, at which the
--                      code panics, is none.
--   Tests              runs on small inputs and the theorems applied to them.
--
-- Conventions. Numbers are natural numbers; where the code works on u64 the model wraps or saturates as
-- the code does (Transfer.Ranges). Ids, urls and times of the queues are natural numbers. A Result is
-- AppResult, with the error's variant and message. A loop without a structural bound has fuel and
-- answers none when it runs out: 10000 rounds for the ranges, since part 10001 is refused, and as many
-- rounds for a reader as the response has pieces left, plus one. That the fuel suffices is part of what
-- is stated of these loops.
--
-- Parameters of the model. The HTTP client is the list of the pieces of a response, the storage client
-- is the answer to each upload, the search index is the answer to each call, the store of tweets is the
-- answer to each batch, the database chooses new ids, and what Rust reads as an i64 from a text and the
-- conversions of a submission are functions. SHA-256 is a library: the model keeps the bytes
-- that are fed to it, in order. The SSO server is its answer to each call, the keyed hash, the texts of
-- uuids, Rust's `trim` and the comparison of user names in the database are functions, and the readings
-- of the clock and new random values are arguments. The database's NOW() at the creation of a session is
-- an argument of its own, and so is the time that a timeout leads to, which may not be representable.
-- The encoding of cursors and the JSON of a row are functions.
--
-- Not modelled: concurrent transactions inside one statement (FOR UPDATE SKIP LOCKED only lets a claim
-- pass over rows that another claim is taking), statements that fail for another reason than a
-- constraint, the order of the video variants inside the query of enqueue_tasks, the choice between
-- the ways to upload, the conversions of a submission, the attributes of cookies and the redirects, the statements of
-- the listings other than that of audit events, the JSON of all, the reading of the configuration's file, and the web client.
pub mod Api
pub mod Auth
pub mod Base
pub mod Config
pub mod Queue
pub mod Search
pub mod Secrets
pub mod StringDict
pub mod Submit
pub mod Transfer
pub mod Tests
