-- ===== src/Config/Accepted.antt =====
-- What a configuration that passes the validation guarantees, and that nothing else is refused.
use tweet_db.Base.{
  ◌⊎◌, inl, inr, ◌≤◌, ◌<◌, ◌≡◌, ◌↔◌, refl, Option, none, some, Bool, true, false, not, String,
  AppResult, ok, err, Option-cases, inl, inr, arith, ◌>>◌, ◌>>=◌,
}
use mathlib.Core.Path.{subst}
use text.Mathlib.TextEquality.{eq_iff}
use tweet_db.Base.Int.{is_positive}
use tweet_db.Config.{
  AppConfig, IngestSection, TransferSection, SearchSection, ServerMode, http, https,
  ServerTlsSection, validate_ingest, validate_transfer, validate_search, require_tls,
  validate_url_scheme, ensure_file_declared, validate_https, validate, tls_checks, or_missing,
  by_mode, when, refuse_if,
}

abbrev pub IngestUsable : IngestSection → Type 0
IngestUsable s = (0 < s.max_items_per_batch) × (is_positive s.stats_sample_interval_seconds ≡ true)

abbrev pub TransferUsable : TransferSection → Type 0
TransferUsable s =
    (5 ≤ s.chunk_size_mb)
    × (0 < s.download_parallelism)
    × (0 < s.upload_parallelism)
    × (0 < s.max_in_flight_parts)
    × (0 < s.worker_poll_interval_seconds)
    × (0 < s.task_stale_timeout_seconds)
    × (is_positive s.max_attempts ≡ true)

abbrev pub SearchUsable : SearchSection → Type 0
SearchUsable s =
    (0 < s.worker_count)
    × (0 < s.queue_batch_size)
    × (0 < s.writer_memory_mb)
    × (0 < s.commit_interval_seconds)
    × (0 < s.stale_timeout_seconds)
    × (is_positive s.max_attempts ≡ true)

validate_ingest_iff : (s : IngestSection) → (validate_ingest s ≡ ok tt) ↔ IngestUsable s
unfolding validate_ingest
validate_ingest_iff s = (λ h. ground arith, λ h. ground arith)

validate_transfer_iff : (s : TransferSection) → (validate_transfer s ≡ ok tt) ↔ TransferUsable s
unfolding validate_transfer
validate_transfer_iff s = (λ h. ground arith, λ h. ground arith)

validate_search_iff : (s : SearchSection) → (validate_search s ≡ ok tt) ↔ SearchUsable s
unfolding validate_search
validate_search_iff s = (λ h. ground arith, λ h. ground arith)

seq_iff : (a b : AppResult (Unit {0})) → ((a >> b) ≡ ok tt) ↔ ((a ≡ ok tt) × (b ≡ ok tt))
seq_iff (ok tt) b = (λ h. (refl, h), λ (h, k). k)
seq_iff (err e) b = (λ h. absurd (cc h), λ (h, k). absurd (cc h))

when_iff :
    (test : Bool) (check : AppResult (Unit {0})) {P : Type 0}
    → (check ≡ ok tt) ↔ P
    → (when test check ≡ ok tt) ↔ ((test ≡ false) ⊎ P)
when_iff true check iff =
    (λ h. inr (iff.0 h), λ h. elim h [ inl off ↦ absurd (cc off) | inr p ↦ iff.1 p ])
when_iff false check iff = (λ h. inl refl, λ h. refl)

by_mode_iff :
    (mode : ServerMode) (check : AppResult (Unit {0})) {P : Type 0}
    → (check ≡ ok tt) ↔ P
    → (by_mode mode check ≡ ok tt) ↔ ((mode ≡ http) ⊎ P)
by_mode_iff http check iff = (λ h. inl refl, λ h. refl)
by_mode_iff https check iff =
    (λ h. inr (iff.0 h), λ h. elim h [ inl off ↦ absurd (cc off) | inr p ↦ iff.1 p ])

secure : (b : Bool) (message : String) → refuse_if (not b) message ≡ ok tt → b ≡ true
secure true m h = refl
secure false m h = absurd (cc h)

module _ (scheme : String → Option String) (is_file : String → Option Bool) where
  validate_url_scheme_iff :
      (name url expected : String)
      → (validate_url_scheme scheme is_file name url expected ≡ ok tt)
        ↔ (scheme url ≡ some expected)
  unfolding validate_url_scheme
  validate_url_scheme_iff name url expected = elim (Option-cases (scheme url)) [
    | inl e ↦ rw e (λ h. absurd (cc h), λ h. absurd (cc h))
    | inr (found, e) ↦
        rw e (ground (arith, eq_iff found expected), ground (arith, eq_iff found expected))
  ]

  ensure_file_declared_iff :
      (name path : String)
      → (ensure_file_declared scheme is_file name path ≡ ok tt) ↔ (is_file path ≡ some true)
  unfolding ensure_file_declared
  ensure_file_declared_iff name path = elim (Option-cases (is_file path)) [
    | inl e ↦ rw e (λ h. absurd (cc h), λ h. absurd (cc h))
    | inr (true, e) ↦ rw e (λ h. refl, λ h. refl)
    | inr (false, e) ↦ rw e (λ h. absurd (cc h), λ h. absurd (cc h))
  ]

  abbrev pub TlsUsable : AppConfig → ServerTlsSection → Type 0
  TlsUsable c tls =
      (scheme c.app.base_url ≡ some "https")
      × (scheme c.sso.login_redirect_uri ≡ some "https")
      × (c.session.cookie_secure ≡ true)
      × (is_file tls.certificate_chain_path ≡ some true)
      × (is_file tls.private_key_path ≡ some true)

  same_tls : (a b : ServerTlsSection) → some b ≡ some a → a ≡ b
  same_tls a b h = cc h

  -- What is asked of a server that speaks TLS.
  abbrev pub HttpsUsable : AppConfig → Type 0
  HttpsUsable c = (tls : ServerTlsSection) × (c.server.tls ≡ some tls) × TlsUsable c tls

  tls_checks_iff :
      (c : AppConfig) (tls : ServerTlsSection)
      → (tls_checks scheme is_file c tls ≡ ok tt) ↔ TlsUsable c tls
  unfolding tls_checks
  tls_checks_iff c tls =
      let u1 = validate_url_scheme_iff "app.base_url" c.app.base_url "https" in
      let u2 = validate_url_scheme_iff "sso.login_redirect_uri" c.sso.login_redirect_uri "https" in
      let f1 =
        ensure_file_declared_iff "server.tls.certificate_chain_path" tls.certificate_chain_path in
      let f2 = ensure_file_declared_iff "server.tls.private_key_path" tls.private_key_path in
      (
        λ h.
            let (h1, r1) = (seq_iff _ _).0 h in
            let (h2, r2) = (seq_iff _ _).0 r1 in
            let (h3, r3) = (seq_iff _ _).0 r2 in
            let (h4, h5) = (seq_iff _ _).0 r3 in
            (u1.0 h1, u2.0 h2, secure c.session.cookie_secure _ h3, f1.0 h4, f2.0 h5),
        λ (a1, a2, a3, a4, a5). (seq_iff _ _).1 (
          u1.1 a1,
          (seq_iff _ _).1
              (u2.1 a2, (seq_iff _ _).1 (rw a3 refl, (seq_iff _ _).1 (f1.1 a4, f2.1 a5))),
        ),
      )

  validate_https_iff : (c : AppConfig) → (validate_https scheme is_file c ≡ ok tt) ↔ HttpsUsable c
  unfolding validate_https require_tls
  validate_https_iff c = with_tls c.server.tls
    where
      with_tls :
          (o : Option ServerTlsSection)
          → ((or_missing o >>= tls_checks scheme is_file c) ≡ ok tt)
            ↔ ((tls : ServerTlsSection) × (o ≡ some tls) × TlsUsable c tls)
      with_tls none = (λ h. absurd (cc h), λ (tls, e, rest). absurd (cc e))
      with_tls (some tls) = (
        λ h. (tls, refl, (tls_checks_iff c tls).0 h),
        λ (other, e, rest).
            (tls_checks_iff c tls).1 (subst (TlsUsable c) (same_tls other tls e) rest),
      )

  -- The configurations that the validation accepts: limits and attempts of what is enabled are positive,
  -- chunks have at least 5 MiB, and a server that speaks TLS has its files, https urls and secure cookies.
  pub validate_iff :
      (c : AppConfig)
      → (validate scheme is_file c ≡ ok tt) ↔ (
          IngestUsable c.ingest
          × ((c.transfer.enabled ≡ false) ⊎ TransferUsable c.transfer)
          × ((c.search.enabled ≡ false) ⊎ SearchUsable c.search)
          × ((c.server.mode ≡ http) ⊎ HttpsUsable c))
  unfolding validate
  validate_iff c =
      let t =
        when_iff c.transfer.enabled (validate_transfer c.transfer)
          (validate_transfer_iff c.transfer) in
      let s = when_iff c.search.enabled (validate_search c.search) (validate_search_iff c.search) in
      let m = by_mode_iff c.server.mode (validate_https scheme is_file c) (validate_https_iff c) in
      (
        λ h.
            let (h1, r1) = (seq_iff _ _).0 h in
            let (h2, r2) = (seq_iff _ _).0 r1 in
            let (h3, h4) = (seq_iff _ _).0 r2 in
            ((validate_ingest_iff c.ingest).0 h1, t.0 h2, s.0 h3, m.0 h4),
        λ (a1, a2, a3, a4). (seq_iff _ _).1 (
          (validate_ingest_iff c.ingest).1 a1,
          (seq_iff _ _).1 (t.1 a2, (seq_iff _ _).1 (s.1 a3, m.1 a4)),
        ),
      )
