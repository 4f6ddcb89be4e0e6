-- ===== src/Fetcher/Serve.antt =====
-- services/fetcher.go, Fetcher.serveAligned, from the side of the consumer that writes the response,
-- with writeChunk of services/write_guard.go. What the consumer sees of the fetches and of the
-- client is an argument, a `Turn` for each chunk.
pub mod Plan
pub mod Pieces
pub mod Body
pub mod Response
pub mod Complete
use s3_cache.Prelude.{
  ℕ, zero, suc, ◌+◌, ◌-◌, List, [], ◌∷◌, ◌++◌, Option, none, some, Bool, true, false, if◌then◌else◌,
}
use s3_cache.Prelude.Int.{ℤ, pos, pos_part, add64, sub64, mul64, div64, ltb_ℤ}
use s3_cache.Prelude.Text.{codes, format_int}
use s3_cache.Chunk.{ChunkResult, Via, WriteError, flush_failed, write_slice}
use s3_cache.Http.{Headers, Writer, Error, write_header, write_body, http_error, http_error_from_s3}
use s3_cache.WriteGuard.{WriteGuard, new_write_guard, hold, begin, end}

-- The first and the last byte of a chunk.
pub record Bounds : Type 0 where
  pub c_start : ℤ
  pub c_end : ℤ

-- The dispatcher's arithmetic for chunk `idx` of a request whose first chunk is `first`.
unfoldable pub chunk_bounds : ℤ → ℤ → ℤ → ℕ → Bounds
chunk_bounds chunk_size total first idx =
    let c_start : ℤ = mul64 (add64 first (pos idx)) chunk_size in
    let c_end : ℤ = sub64 (add64 c_start chunk_size) (pos 1) in
    record {
      c_start = c_start;
      c_end =
          if ltb_ℤ (pos 0) total
          then if ltb_ℤ (sub64 total (pos 1)) c_end then sub64 total (pos 1) else c_end
          else c_end;
    }

-- What the consumer finds when it waits for a chunk: the result, or the end of the request's
-- context.
pub data Arrival : Type 0 where
  got : ChunkResult Error → Arrival
  cancelled : Arrival

-- `before` and `during` are the clock readings of the calls of hold since the last write and while
-- this chunk is written, `now` that of the start of the write.
pub record Turn : Type 0 where
  pub arrival : Arrival
  pub before : List ℤ
  pub now : ℤ
  pub during : List ℤ
  pub flush_ok : Bool

pub data ServeError : Type 0 where
  fetch_failed : Error → ServeError
  write_failed : WriteError → ServeError
  request_cancelled : ServeError

-- `kick` is the chunk from which readahead is kicked.
pub record Outcome : Type 0 where
  pub guard : WriteGuard
  pub writer : Writer
  pub failed : Option ServeError
  pub kick : Option ℤ

abbrev pub holds : List ℤ → WriteGuard → WriteGuard
holds [] g = g
holds (now ∷ rest) g = holds rest (hold now g)

abbrev pub is_buffer : Option Via → Bool
is_buffer (some Via.buffer) = true
is_buffer _ = false

-- The error of writeChunk: that of the write, or else that of the flush.
abbrev pub flushed : Bool → Option WriteError → Option WriteError
flushed flush_ok (some e) = some e
flushed true none = none
flushed false none = some flush_failed

unfoldable pub write_chunk :
    Turn → ChunkResult Error → ℤ → ℤ → WriteGuard → Writer → WriteGuard × Writer × Option WriteError
write_chunk turn res start stop g w =
    let (bytes, e) = write_slice res start stop w.room in
    (
      end (is_buffer res.via) (holds turn.during (begin turn.now (holds turn.before g))),
      write_body bytes w,
      flushed turn.flush_ok e,
    )

-- What a request is about.
pub record Job : Type 0 where
  pub chunk_size : ℤ
  pub start : ℤ
  pub stop : ℤ
  pub total : ℤ
  pub range_requested : Bool

abbrev pub first_chunk : Job → ℤ
first_chunk j = div64 j.start j.chunk_size

abbrev pub last_chunk : Job → ℤ
last_chunk j = div64 j.stop j.chunk_size

-- The number of chunks; `make` panics where it would be negative.
abbrev pub n_chunks : Job → ℕ
n_chunks j = pos_part (add64 (sub64 (last_chunk j) (first_chunk j)) (pos 1))

-- The fetch side puts the chunk's start into the result before it hands it over.
abbrev pub placed : Job → ℕ → ChunkResult Error → ChunkResult Error
placed j i res = record res {
  chunk_start = (chunk_bounds j.chunk_size j.total (first_chunk j) i).c_start;
}

abbrev abort : ServeError → WriteGuard → Writer → Outcome
abort e g w = record { guard = g; writer = w; failed = some e; kick = none }

-- The loop over the chunks from `i` on, `left` of them.
unfoldable pub serve_rest : Job → (ℕ → Turn) → ℕ → ℕ → WriteGuard → Writer → Outcome
serve_rest j turns zero i g w = record {
  guard = g;
  writer = w;
  failed = none;
  kick = some (add64 (last_chunk j) (pos 1));
}
serve_rest j turns (suc left) i g w = elim (turns i).arrival [
  | cancelled ↦ abort request_cancelled g w
  | got res ↦ elim res.error [
    | some e ↦ abort (fetch_failed e) g w
    | none ↦
        let (g', w', e) = write_chunk (turns i) (placed j i res) j.start j.stop g w in
        elim e [
          | some why ↦ abort (write_failed why) g' w'
          | none ↦ serve_rest j turns left (i + 1) g' w'
        ]
  ]
]

unfoldable pub drop_validator_headers : Writer → Writer
drop_validator_headers w = record w {
  header = record w.header { etag = none; last_modified = none };
}

-- An empty text stands for a header that is not to be set.
abbrev set_unless_empty : List ℕ → Option (List ℕ) → Option (List ℕ)
set_unless_empty [] old = old
set_unless_empty (c ∷ text) old = some (c ∷ text)

unfoldable pub write_range_headers : List ℕ → List ℕ → ℤ → ℤ → ℤ → Writer → Writer
write_range_headers content_range content_type total start stop w = record w {
  header = record w.header {
    content_range = set_unless_empty content_range w.header.content_range;
    content_length = some (format_int (add64 (sub64 stop start) (pos 1)));
    content_type = set_unless_empty content_type w.header.content_type;
    accept_ranges = some (codes "bytes");
  };
}

-- "bytes %d-%d/%d"
abbrev pub content_range_text : ℤ → ℤ → ℤ → List ℕ
content_range_text start stop total =
    codes "bytes " ++ (format_int start ++ b'-' ∷ (format_int stop ++ b'/' ∷ format_int total))

-- Headers and status, once chunk 0 is there.
unfoldable pub commit : Job → Writer → Writer
unfolding write_range_headers write_header
commit j w =
    let text : List ℕ =
      if j.range_requested then content_range_text j.start j.stop j.total else [] in
    write_header (if j.range_requested then 206 else 200)
      (write_range_headers text [] j.total j.start j.stop w)

-- Chunk 0 decides the status.
unfoldable pub serve_aligned : Job → (ℕ → Turn) → WriteGuard → Writer → Outcome
unfolding drop_validator_headers commit serve_rest
serve_aligned j turns g w = elim (turns 0).arrival [
  | cancelled ↦
      abort request_cancelled g
        (http_error (codes "request cancelled") 502 (drop_validator_headers w))
  | got res ↦ elim res.error [
    | some e ↦ abort (fetch_failed e) g (http_error_from_s3 e (drop_validator_headers w))
    | none ↦
        let (g', w', e) = write_chunk (turns 0) (placed j 0 res) j.start j.stop g (commit j w) in
        elim e [
          | some why ↦ abort (write_failed why) g' w'
          | none ↦ serve_rest j turns (n_chunks j - 1) 1 g' w'
        ]
  ]
]
