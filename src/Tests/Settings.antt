-- ===== src/Tests/Settings.antt =====
-- The validation of a configuration on a concrete one.
use tweet_db.Base.{
  ℕ, ◌+◌, ◌≡◌, ◌↔◌, ◌⊎◌, ◌*◌, ◌≤◌, ◌<◌, refl, Option, none, some, true, false, [], ◌∷◌, ok, err,
  config, text,
}
use tweet_db.Base.Int.{pos}
use tweet_db.Config.{
  AppConfig, http, TransferOptions, validate, validate_ingest, validate_transfer, validate_search,
  from_section, usize_max,
}
use tweet_db.Config.Accepted.{IngestUsable, TransferUsable, SearchUsable, HttpsUsable, validate_iff}
use tweet_db.Config.Options.{IsConfigured, from_section_bounds}

abbrev local : AppConfig
local = record {
  app = record { base_url = "http://a" };
  server = record { mode = http; tls = none };
  session = record {
    cookie_name = "session";
    pending_login_cookie_name = "login";
    cookie_secure = false;
    ttl_hours = pos 1;
    absolute_ttl_hours = pos 2;
    auto_renew = true;
    pending_login_ttl_seconds = pos 600;
  };
  sso = record { login_redirect_uri = "http://a"; authorization_cache_ttl_seconds = pos 60 };
  ingest = record { max_items_per_batch = 100; stats_sample_interval_seconds = pos 60 };
  transfer = record {
    enabled = true;
    worker_count = 1;
    chunk_size_mb = 8;
    download_parallelism = 2;
    upload_parallelism = 2;
    max_in_flight_parts = 4;
    attempt_timeout_seconds = 60;
    task_stale_timeout_seconds = 60;
    worker_poll_interval_seconds = 5;
    max_attempts = pos 3;
  };
  search = record {
    enabled = false;
    worker_count = 0;
    queue_batch_size = 0;
    writer_memory_mb = 0;
    commit_interval_seconds = 0;
    stale_timeout_seconds = 0;
    max_attempts = pos 0;
  };
}

local_accepted : validate (λ url. none) (λ path. none) local ≡ ok tt
unfolding validate validate_ingest validate_transfer validate_search
local_accepted = refl

validate_iff_example : (validate (λ url. none) (λ path. none) local ≡ ok tt) ↔ (
    IngestUsable local.ingest
    × ((local.transfer.enabled ≡ false) ⊎ TransferUsable local.transfer)
    × ((local.search.enabled ≡ false) ⊎ SearchUsable local.search)
    × ((local.server.mode ≡ http) ⊎ HttpsUsable (λ url. none) (λ path. none) local))
validate_iff_example = validate_iff (λ url. none) (λ path. none) local

abbrev in_time : ℕ → Option ℕ
in_time seconds = some (1000 + seconds)

from_section_bounds_example :
    ((usize_max < local.transfer.chunk_size_mb * 1048576)
      × (from_section in_time local.transfer
          ≡ err (config (text "transfer.chunk_size_mb is too large" ∷ []))))
    ⊎ (((local.transfer.chunk_size_mb * 1048576 ≤ usize_max)
          × (0 < local.transfer.attempt_timeout_seconds)
          × (in_time local.transfer.attempt_timeout_seconds ≡ none)
          × (from_section in_time local.transfer
              ≡ err (config (text "transfer.attempt_timeout_seconds is too large" ∷ []))))
        ⊎ ((options : TransferOptions) × (from_section in_time local.transfer ≡ ok options)
            × IsConfigured local.transfer options
            × (((local.transfer.attempt_timeout_seconds ≡ 0) × (options.deadline ≡ none))
                ⊎ ((0 < local.transfer.attempt_timeout_seconds)
                    × ((at : ℕ) × (in_time local.transfer.attempt_timeout_seconds ≡ some at)
                        × (options.deadline ≡ some at))))))
from_section_bounds_example =
    from_section_bounds in_time (λ url. none) (λ path. none) local local_accepted refl
