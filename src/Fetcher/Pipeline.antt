-- ===== src/Fetcher/Pipeline.antt =====
-- services/fetcher.go, serveAligned as one system: its dispatcher (Fetcher/Dispatch), the goroutines that
-- fetch, the channels `pending`, the write guard, and the consumer (Fetcher/Serve), in any interleaving.
-- What a fetch returns and when the request's context ends is up to the environment.
pub mod Account
pub mod Books
pub mod Closes
pub mod Turns
pub mod Known
pub mod Views
pub mod Refines
pub mod Ends
pub mod Held
pub mod Guarded
use s3_cache.Prelude.{
  ℕ, zero, suc, ◌+◌, ◌<◌, ◌≡◌, ◌≢◌, ◌⊎◌, Option, none, some, Bool, true, false, Result, ok, err,
  is_some, if◌then◌else◌, ◌==◌,
}
use s3_cache.Prelude.Int.{ℤ, pos, add64}
use s3_cache.Prelude.Text.{codes}
use s3_cache.Singleflight.{update}
use s3_cache.Chunk.{ChunkResult, WriteError, write_slice}
use s3_cache.Http.{Writer, Error, write_body, http_error, http_error_from_s3}
use s3_cache.Flight.{nothing}
use s3_cache.WriteGuard.{WriteGuard, hold, begin, end}
use s3_cache.Fetcher.Dispatch.{
  Phase, queued, admitted, Dispatch, new_dispatch, can_start, start_next, admit_chunk, arrive,
  write_head, end_context,
}
use s3_cache.Fetcher.Serve.{
  ServeError, fetch_failed, write_failed, request_cancelled, Job, last_chunk, n_chunks, placed,
  commit, drop_validator_headers, is_buffer, flushed,
}

abbrev pub is_first : ℕ → Bool
is_first zero = true
is_first (suc i) = false

-- Where the consumer is: it waits for its next chunk, writes it, waits for the other goroutines
-- after an error, or has returned, with its error and the chunk from which readahead is kicked.
pub data Place : Type 0 where
  reading : Place
  writing : ChunkResult Error → Place
  aborting : ServeError → Place
  returned : Option ServeError → Option ℤ → Place

-- `closed` counts the calls of close on the result of each chunk.
pub record Pipeline : Type 0 where
  pub dispatch : Dispatch
  pub channels : ℕ → Option (ChunkResult Error)
  pub guard : WriteGuard
  pub writer : Writer
  pub place : Place
  pub closed : ℕ → ℕ

unfoldable pub new_pipeline : ℤ → Job → WriteGuard → Writer → Pipeline
new_pipeline workers j g w = record {
  dispatch = new_dispatch workers (n_chunks j);
  channels = λ i. none;
  guard = g;
  writer = w;
  place = Place.reading;
  closed = λ i. 0;
}

unfoldable pub on_dispatch : (Dispatch → Dispatch) → Pipeline → Pipeline
on_dispatch step s = record s { dispatch = step s.dispatch }

-- What a fetch goroutine makes of what fetchChunk returns.
unfoldable pub fetched_result : Result Error (ChunkResult Error) → ChunkResult Error
fetched_result (ok cr) = cr
fetched_result (err e) = record (nothing (pos 0)) { error = some e }

-- It counts a buffer, and puts the result into its channel.
unfoldable pub hand_over : Job → ℕ → Result Error (ChunkResult Error) → ℤ → Pipeline → Pipeline
hand_over j i r now s =
    let cr : ChunkResult Error = placed j i (fetched_result r) in
    record s {
      dispatch = arrive i s.dispatch;
      channels = update s.channels i (some cr);
      guard = if is_buffer cr.via then hold now s.guard else s.guard;
    }

-- The consumer has received the result of its next chunk. With chunk 0, the status is committed. The
-- write begins.
unfoldable pub begin_write : Job → ChunkResult Error → ℤ → Pipeline → Pipeline
begin_write j cr now s = record s {
  channels = update s.channels s.dispatch.written none;
  writer = if is_first s.dispatch.written then commit j s.writer else s.writer;
  guard = begin now s.guard;
  place = Place.writing cr;
}

-- The first part of `abort`.
unfoldable pub start_abort : ServeError → Pipeline → Pipeline
start_abort e s = record s { dispatch = end_context s.dispatch; place = Place.aborting e }

-- The consumer has received an error.
unfoldable pub take_error : Error → Pipeline → Pipeline
unfolding start_abort
take_error e s =
    start_abort (fetch_failed e) (record s { channels = update s.channels s.dispatch.written none })

-- A slot is freed, and the loop goes on, or else the write failed.
unfoldable pub after_write : Option WriteError → Pipeline → Pipeline
unfolding start_abort
after_write none s = record s { dispatch = write_head s.dispatch; place = Place.reading }
after_write (some why) s = start_abort (write_failed why) s

-- The write ends, and the result is closed.
unfoldable pub end_write : Job → ChunkResult Error → Bool → Pipeline → Pipeline
unfolding after_write
end_write j cr flush_ok s =
    let (bytes, e) = write_slice cr j.start j.stop s.writer.room in
    after_write (flushed flush_ok e) (record s {
      guard = end (is_buffer cr.via) s.guard;
      writer = write_body bytes s.writer;
      closed = update s.closed s.dispatch.written (s.closed s.dispatch.written + 1);
    })

-- The results that are left in the first `k` channels are closed: what is in the channels, and how
-- often each result was closed.
unfoldable pub cleanup_pending :
    ℕ → (ℕ → Option (ChunkResult Error)) × (ℕ → ℕ) → (ℕ → Option (ChunkResult Error)) × (ℕ → ℕ)
cleanup_pending zero x = x
cleanup_pending (suc k) x =
    let (channels, closed) = cleanup_pending k x in
    if is_some (channels k)
    then (update channels k none, update closed k (closed k + 1))
    else (channels, closed)

-- What is written of an error; `first` says whether no chunk was written.
unfoldable pub refuse : Bool → ServeError → Writer → Writer
refuse true (fetch_failed e) w = http_error_from_s3 e (drop_validator_headers w)
refuse true request_cancelled w =
    http_error (codes "request cancelled") 502 (drop_validator_headers w)
refuse _ _ w = w

-- The rest of `abort`, and the return.
unfoldable pub return_error : ServeError → Pipeline → Pipeline
unfolding cleanup_pending refuse
return_error e s =
    let (channels, closed) = cleanup_pending s.dispatch.n_chunks (s.channels, s.closed) in
    record s {
      channels = channels;
      closed = closed;
      writer = refuse (is_first s.dispatch.written) e s.writer;
      place = Place.returned (some e) none;
    }

unfoldable pub return_ok : Job → Pipeline → Pipeline
return_ok j s = record s { place = Place.returned none (some (add64 (last_chunk j) (pos 1))) }

-- wg.Wait returns: the dispatcher has ended, and no fetch is under way.
pub record AllDone (d : Dispatch) : Type 0 where
  pub halted : (d.ended ≡ true) ⊎ (d.next ≡ d.n_chunks)
  pub quiet : (i : ℕ) → (d.phases i ≢ queued) × (d.phases i ≢ admitted)

-- A request for the span of `j`, whose fetches deliver for chunk `i` results with `P i`.
pub data Serving (workers : ℤ) (j : Job) (g : WriteGuard) (w : Writer)
    (P : ℕ → ChunkResult Error → Type 0) : Pipeline → Type 0 where
  begins : Serving workers j g w P (new_pipeline workers j g w)
  starts :
      {s : Pipeline}
      → can_start s.dispatch ≡ true
      → Serving workers j g w P s
      → Serving workers j g w P (on_dispatch start_next s)
  admits :
      {s : Pipeline} (i : ℕ)
      → s.dispatch.phases i ≡ queued
      → Serving workers j g w P s
      → Serving workers j g w P (on_dispatch (admit_chunk i) s)
  leaves :
      {s : Pipeline}
      → Serving workers j g w P s
      → Serving workers j g w P (on_dispatch end_context s)
  hands_over :
      {s : Pipeline} (i : ℕ) (r : Result Error (ChunkResult Error)) (now : ℤ)
      → s.dispatch.phases i ≡ admitted
      → P i (fetched_result r)
      → Serving workers j g w P s
      → Serving workers j g w P (hand_over j i r now s)
  takes :
      {s : Pipeline} (cr : ChunkResult Error) (now : ℤ)
      → s.place ≡ Place.reading
      → s.channels s.dispatch.written ≡ some cr
      → cr.error ≡ none
      → Serving workers j g w P s
      → Serving workers j g w P (begin_write j cr now s)
  takes_error :
      {s : Pipeline} (cr : ChunkResult Error) (e : Error)
      → s.place ≡ Place.reading
      → s.channels s.dispatch.written ≡ some cr
      → cr.error ≡ some e
      → Serving workers j g w P s
      → Serving workers j g w P (take_error e s)
  stops :
      {s : Pipeline}
      → s.place ≡ Place.reading
      → s.dispatch.written < n_chunks j
      → s.dispatch.ended ≡ true
      → Serving workers j g w P s
      → Serving workers j g w P (start_abort request_cancelled s)
  ends_write :
      {s : Pipeline} (cr : ChunkResult Error) (flush_ok : Bool)
      → s.place ≡ Place.writing cr
      → Serving workers j g w P s
      → Serving workers j g w P (end_write j cr flush_ok s)
  fails :
      {s : Pipeline} (e : ServeError)
      → s.place ≡ Place.aborting e
      → AllDone s.dispatch
      → Serving workers j g w P s
      → Serving workers j g w P (return_error e s)
  succeeds :
      {s : Pipeline}
      → s.place ≡ Place.reading
      → 0 < s.dispatch.written
      → s.dispatch.written ≡ n_chunks j
      → AllDone s.dispatch
      → Serving workers j g w P s
      → Serving workers j g w P (return_ok j s)
