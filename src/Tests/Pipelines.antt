-- ===== src/Tests/Pipelines.antt =====
-- The whole of serveAligned (services/fetcher.go) for a request of one chunk.
use s3_cache.Prelude.{
  ℕ, ◌+◌, ◌*◌, ◌<◌, ◌≤◌, ◌≡◌, ◌⊎◌, inr, refl, sym, ◌∙◌, ◌^◌, ◌&&◌, is_some, ltb, if◌then◌else◌,
  ◌==◌, arith, List, Option, none, some, true, ok, length,
}
use s3_cache.Prelude.Int.{ℤ, pos, add64, sub64, mul64, div64}
use s3_cache.Prelude.Text.{codes}
use s3_cache.Chunk.{ChunkResult, Via, size, slice_start, slice_end, copy_slice, write_slice}
use s3_cache.Http.{Error, Writer, write_header, fresh_writer}
use s3_cache.WriteGuard.{WriteGuard, new_write_guard}
use s3_cache.Fetcher.Dispatch.{
  idle, queued, admitted, arrived, new_dispatch, can_start, start_next, admit_chunk, arrive,
  write_head,
}
use s3_cache.Fetcher.Serve.{
  Job, Turn, ServeError, chunk_bounds, n_chunks, commit, write_range_headers, serve_aligned,
}
use s3_cache.Fetcher.Serve.Plan.{Fits, job}
use s3_cache.Fetcher.Serve.Response.{Answer, IsFresh}
use s3_cache.Fetcher.Pipeline.{
  reading, writing, returned, Pipeline, new_pipeline, on_dispatch, fetched_result, hand_over,
  begin_write, after_write, end_write, return_ok, AllDone, Serving, begins, starts, admits,
  hands_over, takes, ends_write, succeeds,
}
use s3_cache.Fetcher.Pipeline.Account.{at_work}
use s3_cache.Fetcher.Pipeline.Held.{is_writing, buffers}
use s3_cache.Fetcher.Pipeline.Guarded.{serving_guarded}
use s3_cache.Fetcher.Pipeline.Closes.{TookError, closed_once}
use s3_cache.Fetcher.Pipeline.Refines.{serving_refines, Gives, serving-Answer}
use s3_cache.Fetcher.Pipeline.Known.{Delivers}
use s3_cache.Fetcher.Pipeline.Ends.{steps, CanGo, serving_ends}

abbrev object : List ℕ
object = codes "0123"

fits : Fits 4 1 2 (length object)
fits = record {
  size_pos = omega arith;
  ordered = omega arith;
  inside = omega arith;
  small = omega arith;
}

-- The bytes 1 and 2 of a chunk of four.
abbrev j : Job
j = job 4 1 2 4 true

abbrev guard : WriteGuard
guard = new_write_guard true (pos 30)

abbrev client : Writer
client = fresh_writer 100

client-IsFresh : IsFresh client
client-IsFresh = record { no_status = refl; no_body = refl }

abbrev chunk : ChunkResult Error
chunk = record {
  payload = some object;
  file = none;
  section = none;
  file_size = pos 0;
  error = none;
  chunk_start = pos 0;
  via = some Via.buffer;
  done = some 7;
}

abbrev P : ℕ → ChunkResult Error → Type 0
P = Gives object 4 1 2 true fits

gives : P 0 chunk
unfolding size chunk_bounds sub64 add64 mul64 div64
gives = λ e. (refl, refl)

abbrev started : Pipeline
started = on_dispatch start_next (new_pipeline (pos 2) j guard client)

abbrev granted : Pipeline
granted = on_dispatch (admit_chunk 0) started

abbrev delivered : Pipeline
delivered = hand_over j 0 (ok chunk) (pos 1) granted

abbrev being_written : Pipeline
being_written = begin_write j chunk (pos 2) delivered

abbrev written : Pipeline
written = end_write j chunk true being_written

abbrev final : Pipeline
final = return_ok j written

-- What its steps need.
early :
    (can_start (new_pipeline (pos 2) j guard client).dispatch ≡ true)
    × (started.dispatch.phases 0 ≡ queued)
    × (granted.dispatch.phases 0 ≡ admitted)
    × (delivered.place ≡ reading)
    × (delivered.channels delivered.dispatch.written ≡ some chunk)
    × (being_written.place ≡ writing chunk)
unfolding hand_over on_dispatch new_pipeline end_write after_write begin_write fetched_result
    new_dispatch can_start start_next admit_chunk arrive write_head write_slice slice_start
    slice_end copy_slice size sub64 add64 mul64 div64 chunk_bounds commit write_header
    write_range_headers
early = (refl, refl, refl, refl, refl, refl)

positive : (n : ℕ) → n ≡ 1 → 0 < n
positive n e = omega (arith, e)

late :
    (written.place ≡ reading)
    × (written.dispatch.written ≡ 1)
    × (written.dispatch.next ≡ written.dispatch.n_chunks)
    × (n_chunks j ≡ 1)
unfolding hand_over on_dispatch new_pipeline end_write after_write begin_write fetched_result
    new_dispatch can_start start_next admit_chunk arrive write_head write_slice slice_start
    slice_end copy_slice size sub64 add64 mul64 div64 chunk_bounds commit write_header
    write_range_headers
late = (refl, refl, refl, refl)

phases_then : (i : ℕ) → written.dispatch.phases i ≡ (if 0 == i then arrived else idle)
unfolding hand_over on_dispatch new_pipeline end_write after_write begin_write fetched_result
    new_dispatch can_start start_next admit_chunk arrive write_head write_slice slice_start
    slice_end copy_slice size sub64 add64 mul64 div64 chunk_bounds commit write_header
    write_range_headers
phases_then i = ground arith

all_done : AllDone written.dispatch
all_done = record {
  halted = inr late.2;
  quiet = λ i. (λ e. ground (arith, e, phases_then i), λ e. ground (arith, e, phases_then i));
}

run_writing : Serving (pos 2) j guard client P being_written
unfolding fetched_result
run_writing =
    let (a, b, c, d, e, _) = early in
    takes chunk (pos 2) d e refl
      (hands_over 0 (ok chunk) (pos 1) c gives (admits 0 b (starts a begins)))

run : Serving (pos 2) j guard client P final
run =
    let (g, h, _, k) = late in
    succeeds g (positive written.dispatch.written h) (h ∙ sym k) all_done
      (ends_write chunk true early.5 run_writing)

few_chunks : n_chunks j < 2 ^ 63
few_chunks = omega (arith, late.3)

serving_guarded_example :
    (is_some being_written.guard.deadline
      ≡ (is_writing being_written.place && ltb 0 (buffers j being_written)))
    × (at_work being_written.place ≡ true
        → being_written.guard.held ≡ pos (buffers j being_written))
serving_guarded_example = serving_guarded (pos 30) (omega arith) few_chunks run_writing

closed_once_example :
    (final.channels 0 ≡ none)
    × (((final.dispatch.phases 0 ≡ idle) × (final.closed 0 ≡ 0))
        ⊎ ((final.dispatch.phases 0 ≡ arrived)
            × ((final.closed 0 ≡ 1)
                ⊎ ((final.closed 0 ≡ 0) × TookError none final.dispatch.written 0))))
unfolding return_ok
closed_once_example = closed_once run refl 0

serving_refines_example :
    (turns : ℕ → Turn) × ((i : ℕ) → Delivers P i (turns i).arrival)
    × ((serve_aligned j turns guard client).writer ≡ final.writer)
    × ((serve_aligned j turns guard client).failed ≡ none)
    × ((serve_aligned j turns guard client).kick ≡ some (pos 1))
unfolding return_ok add64 div64
serving_refines_example = serving_refines j guard client P run refl

serving-Answer_example :
    Answer object 1 2 true client.header
      (record { guard = final.guard; writer = final.writer; failed = none; kick = some (pos 1) })
unfolding return_ok add64 div64
serving-Answer_example = serving-Answer object 4 1 2 true fits client-IsFresh run refl

serving_ends_example :
    (steps run ≤ 5 * n_chunks j + 3)
    × (((f : Option ServeError) × (k : Option ℤ) × (final.place ≡ returned f k)) ⊎ CanGo j final)
unfolding add64 sub64 div64
serving_ends_example = serving_ends run (omega arith)
