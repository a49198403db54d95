-- ===== src/Config.antt =====
-- server/src/config: the configuration and its validation, and the options of a transfer that
-- server/src/transfer/common.rs makes of it. The parser of urls and the file system are parameters.
pub mod Accepted
pub mod Options
use tweet_db.Base.{
  ℕ, ◌*◌, Option, none, some, Bool, true, false, not, List, [], ◌∷◌, ltb, leb, max, ◌==◌,
  if◌then◌else◌, String, AppResult, ok, err, ◌>>=◌, ◌>>◌, AppError, config, text, same_text,
}
use tweet_db.Base.Int.{ℤ, is_positive}

pub record AppSection : Type 0 where
  pub base_url : String

pub record ServerTlsSection : Type 0 where
  pub certificate_chain_path : String
  pub private_key_path : String

pub data ServerMode : Type 0 where
  http https : ServerMode

pub record ServerSection : Type 0 where
  pub mode : ServerMode
  pub tls : Option ServerTlsSection

pub record SessionSection : Type 0 where
  pub cookie_name : String
  pub pending_login_cookie_name : String
  pub cookie_secure : Bool
  pub ttl_hours : ℤ
  pub absolute_ttl_hours : ℤ
  pub auto_renew : Bool
  pub pending_login_ttl_seconds : ℤ

pub record SsoSection : Type 0 where
  pub login_redirect_uri : String
  pub authorization_cache_ttl_seconds : ℤ

pub record IngestSection : Type 0 where
  pub max_items_per_batch : ℕ
  pub stats_sample_interval_seconds : ℤ

pub record TransferSection : Type 0 where
  pub enabled : Bool
  pub worker_count : ℕ
  pub chunk_size_mb : ℕ
  pub download_parallelism : ℕ
  pub upload_parallelism : ℕ
  pub max_in_flight_parts : ℕ
  pub attempt_timeout_seconds : ℕ
  pub task_stale_timeout_seconds : ℕ
  pub worker_poll_interval_seconds : ℕ
  pub max_attempts : ℤ

pub record SearchSection : Type 0 where
  pub enabled : Bool
  pub worker_count : ℕ
  pub queue_batch_size : ℕ
  pub writer_memory_mb : ℕ
  pub commit_interval_seconds : ℕ
  pub stale_timeout_seconds : ℕ
  pub max_attempts : ℤ

pub record AppConfig : Type 0 where
  pub app : AppSection
  pub server : ServerSection
  pub session : SessionSection
  pub sso : SsoSection
  pub ingest : IngestSection
  pub transfer : TransferSection
  pub search : SearchSection

-- `if test { return Err(AppError::config(message)); }`
abbrev pub refuse_if : Bool → String → AppResult (Unit {0})
refuse_if test message = if test then err (config (text message ∷ [])) else ok tt

unfoldable pub validate_ingest : IngestSection → AppResult (Unit {0})
validate_ingest s = do
  refuse_if (s.max_items_per_batch == 0) "ingest.max_items_per_batch must be greater than 0"
  refuse_if (not (is_positive s.stats_sample_interval_seconds))
      "ingest.stats_sample_interval_seconds must be greater than 0"

unfoldable pub validate_transfer : TransferSection → AppResult (Unit {0})
validate_transfer s = do
  refuse_if (ltb s.chunk_size_mb 5)
      "transfer.chunk_size_mb must be at least 5 when transfer.enabled = true"
  refuse_if (s.download_parallelism == 0)
      "transfer.download_parallelism must be greater than 0 when transfer.enabled = true"
  refuse_if (s.upload_parallelism == 0)
      "transfer.upload_parallelism must be greater than 0 when transfer.enabled = true"
  refuse_if (s.max_in_flight_parts == 0)
      "transfer.max_in_flight_parts must be greater than 0 when transfer.enabled = true"
  refuse_if (s.worker_poll_interval_seconds == 0)
      "transfer.worker_poll_interval_seconds must be greater than 0 when transfer.enabled = true"
  refuse_if (s.task_stale_timeout_seconds == 0)
      "transfer.task_stale_timeout_seconds must be greater than 0 when transfer.enabled = true"
  refuse_if (not (is_positive s.max_attempts))
      "transfer.max_attempts must be greater than 0 when transfer.enabled = true"

unfoldable pub validate_search : SearchSection → AppResult (Unit {0})
validate_search s = do
  refuse_if (s.worker_count == 0)
      "search.worker_count must be greater than 0 when search.enabled = true"
  refuse_if (s.queue_batch_size == 0)
      "search.queue_batch_size must be greater than 0 when search.enabled = true"
  refuse_if (s.writer_memory_mb == 0)
      "search.writer_memory_mb must be greater than 0 when search.enabled = true"
  refuse_if (s.commit_interval_seconds == 0)
      "search.commit_interval_seconds must be greater than 0 when search.enabled = true"
  refuse_if (s.stale_timeout_seconds == 0)
      "search.stale_timeout_seconds must be greater than 0 when search.enabled = true"
  refuse_if (not (is_positive s.max_attempts))
      "search.max_attempts must be greater than 0 when search.enabled = true"

abbrev pub or_missing : Option ServerTlsSection → AppResult ServerTlsSection
or_missing none =
    err (config (text "server.tls must be configured when server.mode = \"https\"" ∷ []))
or_missing (some tls) = ok tls

unfoldable pub require_tls : ServerSection → AppResult ServerTlsSection
require_tls s = or_missing s.tls

abbrev pub has_scheme : String → String → Option String → AppResult (Unit {0})
has_scheme name expected none = err (config (text "invalid " ∷ text name ∷ []))
has_scheme name expected (some found) =
    if same_text found expected
    then ok tt
    else err (
        config (
          text name
          ∷ text " must use the "
          ∷ text expected
          ∷ text " scheme when server.mode = \"https\""
          ∷ []))

abbrev pub declared : String → String → Option Bool → AppResult (Unit {0})
declared name path none =
    err (config (text name ∷ text " could not be accessed at " ∷ text path ∷ []))
declared name path (some true) = ok tt
declared name path (some false) =
    err (config (text name ∷ text " must reference a file: " ∷ text path ∷ []))

abbrev pub when : Bool → AppResult (Unit {0}) → AppResult (Unit {0})
when test check = if test then check else ok tt

abbrev pub by_mode : ServerMode → AppResult (Unit {0}) → AppResult (Unit {0})
by_mode http check = ok tt
by_mode https check = check

-- The scheme of a url, none if it is not one; whether a path names a file, none if it cannot be read.
module _ (scheme : String → Option String) (is_file : String → Option Bool) where
  unfoldable pub validate_url_scheme : String → String → String → AppResult (Unit {0})
  validate_url_scheme name url expected = has_scheme name expected (scheme url)

  unfoldable pub ensure_file_declared : String → String → AppResult (Unit {0})
  ensure_file_declared name path = declared name path (is_file path)

  -- The checks behind `require_tls`.
  unfoldable pub tls_checks : AppConfig → ServerTlsSection → AppResult (Unit {0})
  tls_checks c tls = do
    validate_url_scheme "app.base_url" c.app.base_url "https"
    validate_url_scheme "sso.login_redirect_uri" c.sso.login_redirect_uri "https"
    refuse_if (not c.session.cookie_secure)
        "session.cookie_secure must be true when server.mode = \"https\""
    ensure_file_declared "server.tls.certificate_chain_path" tls.certificate_chain_path
    ensure_file_declared "server.tls.private_key_path" tls.private_key_path

  unfoldable pub validate_https : AppConfig → AppResult (Unit {0})
  validate_https c = require_tls c.server >>= tls_checks c

  unfoldable pub validate : AppConfig → AppResult (Unit {0})
  validate c = do
    validate_ingest c.ingest
    when c.transfer.enabled (validate_transfer c.transfer)
    when c.search.enabled (validate_search c.search)
    by_mode c.server.mode (validate_https c)

-- The deadline is an `Instant`, here a number.
pub record TransferOptions : Type 0 where
  pub chunk_size_bytes : ℕ
  pub download_parallelism : ℕ
  pub upload_parallelism : ℕ
  pub max_in_flight_parts : ℕ
  pub deadline : Option ℕ

abbrev pub usize_max : ℕ
usize_max = 18446744073709551615

abbrev pub with_deadline_of : TransferSection → ℕ → AppResult (Option ℕ) → AppResult TransferOptions
with_deadline_of s bytes (err e) = err e
with_deadline_of s bytes (ok deadline) = ok (record {
  chunk_size_bytes = bytes;
  download_parallelism = max s.download_parallelism 1;
  upload_parallelism = max s.upload_parallelism 1;
  max_in_flight_parts = max s.max_in_flight_parts 1;
  deadline = deadline;
})

-- What `Instant::now().checked_add` gives, or the error for none.
abbrev pub representable : Option ℕ → AppResult (Option ℕ)
representable none = err (config (text "transfer.attempt_timeout_seconds is too large" ∷ []))
representable (some deadline) = ok (some deadline)

-- `deadline_after` is `Instant::now().checked_add(Duration::from_secs(seconds))`.
unfoldable pub attempt_deadline : (ℕ → Option ℕ) → ℕ → AppResult (Option ℕ)
attempt_deadline deadline_after seconds =
    if seconds == 0 then ok none else representable (deadline_after seconds)

-- `checked_mul(1024 * 1024)`
unfoldable pub from_section : (ℕ → Option ℕ) → TransferSection → AppResult TransferOptions
from_section deadline_after s =
    let bytes = s.chunk_size_mb * 1048576 in
    if leb bytes usize_max
    then with_deadline_of s bytes (attempt_deadline deadline_after s.attempt_timeout_seconds)
    else err (config (text "transfer.chunk_size_mb is too large" ∷ []))
