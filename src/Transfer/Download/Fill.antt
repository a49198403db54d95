-- ===== src/Transfer/Download/Fill.antt =====
-- The loop of download.rs that fills a buffer, on the stream of the reader.
use tweet_db.Base.{
  ℕ, zero, suc, ◌+◌, ◌-◌, ◌≤◌, ◌<◌, ◌≡◌, refl, sym, ◌∙◌, ap, Option, none, some, [], ◌++◌, arith,
  AppResult, ok, err, AppError, length, take, drop, append_assoc, append-nil, length-append,
  take-append_le, drop-append_le,
}
use tweet_db.Transfer.Download.Stream.{failure, stream, Reads, read_some-Reads}
use tweet_db.Transfer.Download.{Bytes, Reader, read_some, grow, fill}

-- The loop with `missing` bytes to go on a stream `s` that holds them.
abbrev pub Filled : Bytes → ℕ → Bytes → Option AppError → Option (AppResult Bytes × Reader) → Type 0
Filled buffer missing s f o =
    (r : Reader) × (o ≡ some (ok (buffer ++ take missing s), r))
    × (stream r ≡ drop missing s)
    × (failure r.body ≡ f)

-- The loop on a stream that ends, or fails, before that.
abbrev pub Short :
    (Bytes → AppResult Bytes)
    → Bytes
    → Bytes
    → Option AppError
    → Option (AppResult Bytes × Reader)
    → Type 0
Short at_end buffer s none o =
    (r : Reader) × (o ≡ some (at_end (buffer ++ s), r)) × (stream r ≡ []) × (failure r.body ≡ none)
Short at_end buffer s (some e) o = (r : Reader) × (o ≡ some (err e, r))

Short-append :
    (at_end : Bytes → AppResult Bytes) (buffer bytes s : Bytes) (f : Option AppError)
    (o : Option (AppResult Bytes × Reader))
    → Short at_end (buffer ++ bytes) s f o
    → Short at_end buffer (bytes ++ s) f o
Short-append at_end buffer bytes s none o h =
    (h.0, h.1 ∙ ap (λ b. some (at_end b, h.0)) (append_assoc buffer bytes s), h.2, h.3)
Short-append at_end buffer bytes s (some e) o h = h

pub clean_Short :
    (at_end : Bytes → AppResult Bytes) (buffer s : Bytes) (f : Option AppError)
    (o : Option (AppResult Bytes × Reader))
    → f ≡ none
    → Short at_end buffer s f o
    → Short at_end buffer s none o
clean_Short at_end buffer s none o e h = h
clean_Short at_end buffer s (some x) o e h = cc

pub failed_Short :
    (at_end : Bytes → AppResult Bytes) (buffer s : Bytes) (f : Option AppError) (e : AppError)
    (o : Option (AppResult Bytes × Reader))
    → f ≡ some e
    → Short at_end buffer s f o
    → Short at_end buffer s (some e) o
failed_Short at_end buffer s f e o p h = rw p at h

module _ (at_end : Bytes → AppResult Bytes)
    (continue : Bytes → Reader → Option (AppResult Bytes × Reader)) where
  grow-Filled :
      (m : ℕ) (buffer s : Bytes) (f : Option AppError) (x : AppResult (Option Bytes) × Reader)
      → Reads m s f x
      → 0 < m
      → m ≤ length s
      → ((bytes : Bytes) (t : Reader)
          → 0 < length bytes
          → length bytes ≤ m
          → m - length bytes ≤ length (stream t)
          → Filled
              (buffer ++ bytes)
              (m - length bytes)
              (stream t)
              (failure t.body)
              (continue (buffer ++ bytes) t))
      → Filled buffer m s f (grow at_end continue buffer x)
  unfolding grow
  grow-Filled m buffer s f (err e, t) reads pos h next = absurd (omega (arith, ap length reads.0))
  grow-Filled m buffer s f (ok none, t) reads pos h next = absurd (omega (arith, ap length reads.0))
  grow-Filled m buffer s f (ok (some bytes), t) reads pos h next =
      let size : length s ≡ length bytes + length (stream t) =
        ap length reads.2 ∙ length-append bytes (stream t) in
      let ih = next bytes t reads.0 reads.1 (omega (arith, size)) in
      (
        ih.0,
        ih.1
            ∙ ap (λ b. some (ok b, ih.0))
                (append_assoc buffer bytes _
                  ∙ ap (λ b. buffer ++ b)
                      (sym (take-append_le m bytes (stream t) reads.1)
                        ∙ ap (take m) (sym reads.2))),
        ih.2 ∙ sym (drop-append_le m bytes (stream t) reads.1) ∙ ap (drop m) (sym reads.2),
        ih.3 ∙ reads.3,
      )

  grow-Short :
      (m : ℕ) (buffer s : Bytes) (f : Option AppError) (x : AppResult (Option Bytes) × Reader)
      → Reads m s f x
      → length s < m
      → ((bytes : Bytes) (t : Reader)
          → 0 < length bytes
          → length bytes ≤ m
          → length (stream t) < m - length bytes
          → Short at_end
              (buffer ++ bytes)
              (stream t)
              (failure t.body)
              (continue (buffer ++ bytes) t))
      → Short at_end buffer s f (grow at_end continue buffer x)
  unfolding grow
  grow-Short m buffer s f (err e, t) reads h next = rw reads.1 (t, refl)
  grow-Short m buffer s f (ok none, t) reads h next =
      rw (reads.1, reads.0)
        (t, ap (λ b. some (at_end b, t)) (sym (append-nil buffer)), reads.2, reads.3)
  grow-Short m buffer s f (ok (some bytes), t) reads h next =
      let size : length s ≡ length bytes + length (stream t) =
        ap length reads.2 ∙ length-append bytes (stream t) in
      let ih = next bytes t reads.0 reads.1 (omega (arith, size)) in
      rw (← reads.3, reads.2) (Short-append at_end buffer bytes (stream t) (failure t.body) _ ih)

module _ (at_end : Bytes → AppResult Bytes) (target : ℕ) where
  fill_step :
      (fuel : ℕ) (buffer : Bytes) (r : Reader)
      → length buffer < target
      → fill at_end (suc fuel) target buffer r
        ≡ grow at_end (fill at_end fuel target) buffer (read_some (target - length buffer) r)
  unfolding fill
  fill_step fuel buffer r h = ground arith

  pub fill-Filled :
      (fuel m : ℕ) (buffer : Bytes) (r : Reader)
      → length buffer + m ≡ target
      → m < fuel
      → m ≤ length (stream r)
      → Filled buffer m (stream r) (failure r.body) (fill at_end fuel target buffer r)
  fill-Filled zero m buffer r e f h = absurd (omega arith)
  fill-Filled (suc fuel) zero buffer r e f h =
      (r, unfold fill in rw append-nil (ground arith), refl, refl)
  fill-Filled (suc fuel) (suc m) buffer r e f h =
      rw
        (
          fill_step fuel buffer r (omega arith),
          (let x : target - length buffer ≡ suc m = omega arith in x),
        )
        (grow-Filled at_end (fill at_end fuel target) (suc m) buffer (stream r) (failure r.body) _
          (read_some-Reads (suc m) r (omega arith)) (omega arith) h
          λ bytes t pos le rest.
            fill-Filled fuel (suc m - length bytes) (buffer ++ bytes) t
              (omega (arith, length-append buffer bytes)) (omega arith) rest)

  pub fill-Short :
      (fuel m : ℕ) (buffer : Bytes) (r : Reader)
      → length buffer + m ≡ target
      → m < fuel
      → length (stream r) < m
      → Short at_end buffer (stream r) (failure r.body) (fill at_end fuel target buffer r)
  fill-Short zero m buffer r e f h = absurd (omega arith)
  fill-Short (suc fuel) m buffer r e f h =
      rw
        (
          fill_step fuel buffer r (omega arith),
          (let x : target - length buffer ≡ m = omega arith in x),
        )
        (grow-Short at_end (fill at_end fuel target) m buffer (stream r) (failure r.body) _
          (read_some-Reads m r (omega arith)) h
          λ bytes t pos le rest.
            fill-Short fuel (m - length bytes) (buffer ++ bytes) t
              (omega (arith, length-append buffer bytes)) (omega arith) rest)
