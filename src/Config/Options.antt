-- ===== src/Config/Options.antt =====
-- The options of a transfer under a configuration that the validation accepts.
use tweet_db.Base.{
  ℕ, ◌*◌, ◌≤◌, ◌<◌, ◌≡◌, refl, Bool, true, String, [], ◌∷◌, Option, none, some, ok, err, config,
  text, leb, ◌==◌, max, arith, Bool-cases, Option-cases, inl, inr, ◌⊎◌,
}
use tweet_db.Config.{
  AppConfig, TransferSection, TransferOptions, from_section, attempt_deadline, usize_max, validate,
}
use tweet_db.Config.Accepted.{TransferUsable, validate_iff}

-- The options are those of the configuration, apart from the deadline, and within their bounds.
pub record IsConfigured (s : TransferSection) (options : TransferOptions) : Type 0 where
  pub chunk : options.chunk_size_bytes ≡ s.chunk_size_mb * 1048576
  pub chunk_least : 5242880 ≤ options.chunk_size_bytes
  pub chunk_most : options.chunk_size_bytes ≤ usize_max
  pub downloads : options.download_parallelism ≡ s.download_parallelism
  pub uploads : options.upload_parallelism ≡ s.upload_parallelism
  pub parts : options.max_in_flight_parts ≡ s.max_in_flight_parts
  pub downloads_least : 1 ≤ options.download_parallelism
  pub uploads_least : 1 ≤ options.upload_parallelism
  pub parts_least : 1 ≤ options.max_in_flight_parts

module _ (deadline_after : ℕ → Option ℕ) (s : TransferSection) (usable : TransferUsable s)
    (fits : leb (s.chunk_size_mb * 1048576) usize_max ≡ true) where
  abbrev configured : Option ℕ → TransferOptions
  configured deadline = record {
    chunk_size_bytes = s.chunk_size_mb * 1048576;
    download_parallelism = max s.download_parallelism 1;
    upload_parallelism = max s.upload_parallelism 1;
    max_in_flight_parts = max s.max_in_flight_parts 1;
    deadline = deadline;
  }

  configured-IsConfigured : (deadline : Option ℕ) → IsConfigured s (configured deadline)
  configured-IsConfigured deadline =
      let (chunk, down, up, parts, poll, stale, attempts) = usable in
      record {
        chunk = refl;
        chunk_least = omega (arith, chunk);
        chunk_most = ground (arith, fits);
        downloads = omega (arith, down);
        uploads = omega (arith, up);
        parts = omega (arith, parts);
        downloads_least = omega arith;
        uploads_least = omega arith;
        parts_least = omega arith;
      }

-- Under a configuration that the validation accepts and that enables transfers: the options are refused
-- for the chunk exactly if its size in bytes exceeds 64 bits; for the deadline if the chunk fits and the
-- timeout is positive and gives a time that cannot be represented; and else the chunk has at least the
-- 5 MiB that S3 asks of a part, every limit is the configured one and at least one, and there is a
-- deadline, that of the timeout, exactly if the timeout is positive.
pub from_section_bounds :
    (deadline_after : ℕ → Option ℕ) (scheme : String → Option String)
    (is_file : String → Option Bool) (c : AppConfig)
    → validate scheme is_file c ≡ ok tt
    → c.transfer.enabled ≡ true
    → ((usize_max < c.transfer.chunk_size_mb * 1048576)
        × (from_section deadline_after c.transfer
            ≡ err (config (text "transfer.chunk_size_mb is too large" ∷ []))))
      ⊎ (((c.transfer.chunk_size_mb * 1048576 ≤ usize_max)
            × (0 < c.transfer.attempt_timeout_seconds)
            × (deadline_after c.transfer.attempt_timeout_seconds ≡ none)
            × (from_section deadline_after c.transfer
                ≡ err (config (text "transfer.attempt_timeout_seconds is too large" ∷ []))))
          ⊎ ((options : TransferOptions) × (from_section deadline_after c.transfer ≡ ok options)
              × IsConfigured c.transfer options
              × (((c.transfer.attempt_timeout_seconds ≡ 0) × (options.deadline ≡ none))
                  ⊎ ((0 < c.transfer.attempt_timeout_seconds)
                      × ((at : ℕ) × (deadline_after c.transfer.attempt_timeout_seconds ≡ some at)
                          × (options.deadline ≡ some at))))))
unfolding from_section attempt_deadline
from_section_bounds deadline_after scheme is_file c h on =
    let (ingest, transfer, search, server) = (validate_iff scheme is_file c).0 h in
    let usable : TransferUsable c.transfer = elim transfer [
      | inl off ↦ absurd (cc (on, off))
      | inr usable ↦ usable
    ] in
    let s = c.transfer in
    elim (Bool-cases (leb (s.chunk_size_mb * 1048576) usize_max)) [
      | inr big ↦ rw big (inl (ground (arith, big), refl))
      | inl fits ↦ elim (Bool-cases (s.attempt_timeout_seconds == 0)) [
        | inl zero_seconds ↦
            rw (fits, zero_seconds)
              (inr (
                inr (
                  _,
                  refl,
                  configured-IsConfigured deadline_after s usable fits none,
                  inl (ground (arith, zero_seconds), refl),
                )))
        | inr positive ↦ elim (Option-cases (deadline_after s.attempt_timeout_seconds)) [
          | inl beyond ↦
              rw (fits, positive, beyond)
                (inr (inl (ground (arith, fits), ground (arith, positive), refl, refl)))
          | inr (at, found) ↦
              rw (fits, positive, found)
                (inr (
                  inr (
                    _,
                    refl,
                    configured-IsConfigured deadline_after s usable fits (some at),
                    inr (ground (arith, positive), (at, refl, refl)),
                  )))
        ]
      ]
    ]
