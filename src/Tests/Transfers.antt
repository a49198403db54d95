-- ===== src/Tests/Transfers.antt =====
-- Tests of the transfer subsystem: an object of five bytes, read in chunks of two.
use tweet_db.Base.{
  ◌≡◌, refl, inl, inr, none, some, false, List, [], ◌∷◌, arith, AppResult, ok, err, take, drop, ◌≢◌,
  upstream,
}
use tweet_db.Base.Dict.{lookup, insert, remove}
use tweet_db.Transfer.Ranges.{RangeSpec, len, build_range_specs, part_limit_error}
use tweet_db.Transfer.Ranges.Tiling.{Tiles, build_range_specs-Tiles, build_range_specs_limit}
use tweet_db.Transfer.Download.{
  Bytes, Reader, DownloadedPart, Response, read_next_buffer, nonempty, download_range_part,
}
use tweet_db.Transfer.Download.Stream.{stream, failure}
use tweet_db.Transfer.Download.Buffers.{
  read_next_buffer_takes, read_next_buffer_fails, download_range_part_exact, part_of,
}
use tweet_db.Transfer.Parts.{Hashed, pending_hash, ready, hash_ready_range_parts, hash_part}
use tweet_db.Transfer.Parts.Hashing.{hash_ready_range_parts_settles}
use tweet_db.Transfer.RangeUpload.{
  Limits, RangeUpload, Event, downloaded, uploaded, start, run, waiting,
}
use tweet_db.Transfer.RangeUpload.Object.{Honest, Stored, range_upload_stores}
use tweet_db.Transfer.RangeUpload.Progress.{run_ends}

abbrev object : Bytes
object = 10 ∷ 20 ∷ 30 ∷ 40 ∷ 50 ∷ []

abbrev second : RangeSpec
second = record { part_number = 2; start = 2; end_inclusive = 3 }

abbrev third : RangeSpec
third = record { part_number = 3; start = 4; end_inclusive = 4 }

abbrev source : RangeSpec → AppResult DownloadedPart
source spec =
    ok (record { part_number = spec.part_number; bytes = take (len spec) (drop spec.start object) })

source-Honest : Honest object source
source-Honest spec part h = (ground arith, ground arith)

object_ranges : build_range_specs 2 5 2 ≡ some (ok (second ∷ third ∷ []))
unfolding build_range_specs
object_ranges = refl

abbrev begun : RangeUpload
begun = record {
  pending_ranges = second ∷ third ∷ [];
  downloads = [];
  uploads = 1 ∷ [];
  completed_parts = [];
  hash = record {
    parts = insert 1 (record { bytes = none; upload_done = false }) [];
    hashed = 10 ∷ 20 ∷ [];
    content_length = 2;
    next_hash_part = 2;
  };
}

object_start : start (take 2 object) (second ∷ third ∷ []) ≡ ok begun
unfolding start hash_ready_range_parts ready hash_part insert lookup remove
object_start = refl

abbrev limits : Limits
limits = record { download_parallelism = 2; max_in_flight_parts = 3 }

-- The third part arrives before the second.
abbrev events : List Event
events =
    downloaded 1
    ∷ uploaded 1 (ok "c")
    ∷ downloaded 0
    ∷ uploaded 0 (ok "a")
    ∷ uploaded 0 (ok "b")
    ∷ []

range_upload_stores_example :
    Stored object source source-Honest 2 2 (1 ∷ 2 ∷ 3 ∷ []) (run source limits events begun)
range_upload_stores_example =
    range_upload_stores object source source-Honest 2 2 limits events (second ∷ third ∷ []) begun
      (omega arith) (omega arith) (omega arith) (omega arith) object_ranges object_start

run_ends_example : run source limits events begun ≢ waiting begun
run_ends_example = run_ends source limits events begun begun (omega arith)

build_range_specs-Tiles_example :
    (specs : List RangeSpec) × (build_range_specs 2 5 2 ≡ some (ok specs)) × Tiles 2 5 2 2 specs
build_range_specs-Tiles_example =
    build_range_specs-Tiles 2 5 2 (omega arith) (omega arith) (omega arith)

build_range_specs_limit_example : build_range_specs 1 20000 2 ≡ some (err part_limit_error)
build_range_specs_limit_example = build_range_specs_limit 1 20000 2 (omega arith) (omega arith)

-- Two chunks, the first of them read in part, and a body that fails behind them.
abbrev reader : Reader
reader = record {
  body = ok [] ∷ ok (30 ∷ 40 ∷ []) ∷ err (upstream []) ∷ [];
  pending = some (10 ∷ 20 ∷ []);
  pending_offset = 1;
}

read_next_buffer_takes_example :
    (r : Reader) × (read_next_buffer reader 2 ≡ some (ok (nonempty (20 ∷ 30 ∷ [])), r))
    × (stream r ≡ 40 ∷ [])
    × (failure r.body ≡ some (upstream []))
read_next_buffer_takes_example = read_next_buffer_takes reader 2 (inl (omega arith))

read_next_buffer_fails_example :
    (r : Reader) × (read_next_buffer reader 4 ≡ some (err (upstream []), r))
read_next_buffer_fails_example = read_next_buffer_fails reader 4 (upstream []) (omega arith) refl

abbrev partial_content : Response
partial_content = record {
  status = 206;
  content_length = some 2;
  body = ok (30 ∷ []) ∷ ok (40 ∷ []) ∷ [];
}

second-len : some 2 ≡ some (len second)
unfolding len
second-len = refl

download_range_part_exact_example :
    download_range_part "u" second (ok partial_content)
    ≡ some (part_of "u" second partial_content.body)
download_range_part_exact_example =
    download_range_part_exact "u" second partial_content refl (inr second-len)

abbrev two_waiting : Hashed
two_waiting = record {
  parts = (3, pending_hash (50 ∷ [])) ∷ (2, pending_hash (30 ∷ 40 ∷ [])) ∷ [];
  hashed = 10 ∷ 20 ∷ [];
  content_length = 2;
  next_hash_part = 2;
}

abbrev both_hashed : Hashed
both_hashed = record {
  parts =
      (3, record { bytes = none; upload_done = false })
      ∷ (2, record { bytes = none; upload_done = false })
      ∷ [];
  hashed = object;
  content_length = 5;
  next_hash_part = 4;
}

both_ready : hash_ready_range_parts two_waiting ≡ ok both_hashed
unfolding hash_ready_range_parts ready hash_part insert lookup remove
both_ready = refl

hash_ready_range_parts_settles_example : ready both_hashed ≡ none
hash_ready_range_parts_settles_example =
    hash_ready_range_parts_settles two_waiting both_hashed both_ready
