-- ===== src/Fetcher/Pipeline/Guarded.antt =====
-- services/fetcher.go, serveAligned: the write guard of the whole system (WriteGuard).
use s3_cache.Prelude.{
  ℕ, zero, suc, ◌^◌, ◌<◌, ◌≡◌, refl, ap, ◌∙◌, none, Bool, true, arith, ◌&&◌, is_some, ltb, sum_of,
  sum_of_update,
}
use s3_cache.Prelude.Int.{ℤ, pos, ◌<ℤ◌}
use s3_cache.Chunk.{ChunkResult}
use s3_cache.Http.{Writer, Error}
use s3_cache.WriteGuard.{new_write_guard}
use s3_cache.WriteGuard.Trace
use s3_cache.WriteGuard.Trace.{deadline_iff, held_exact}
use s3_cache.Fetcher.Dispatch.{
  queued, new_dispatch, start_next, admit_chunk, end_context, can_start,
}
use s3_cache.Fetcher.Dispatch.Order.{Run-Inv}
use s3_cache.Fetcher.Serve.{Job, n_chunks}
use s3_cache.Fetcher.Pipeline.{
  Place, reading, writing, aborting, returned, Pipeline, new_pipeline, on_dispatch, start_abort,
  take_error, return_error, return_ok, Serving, begins, starts, admits, leaves, hands_over, takes,
  takes_error, stops, ends_write, fails, succeeds,
}
use s3_cache.Fetcher.Pipeline.Account.{at_work, delivered}
use s3_cache.Fetcher.Pipeline.Books.{Serving-Books}
use s3_cache.Fetcher.Pipeline.Held.{
  buffer_count, is_writing, buffers, Guarded, phase-Guarded, admit_chunk-Guarded, hand_over-Guarded,
  begin_write-Guarded, stopped-Guarded, end_write-Guarded,
}

sum_none : (n : ℕ) → sum_of buffer_count n (λ i. none) ≡ 0
sum_none zero = refl
sum_none (suc n) = omega (arith, sum_none n)

Serving-Guarded :
    {settable : Bool} {timeout : ℤ} {workers : ℤ} {j : Job} {w : Writer}
    {P : ℕ → ChunkResult Error → Type 0} {s : Pipeline}
    → n_chunks j < 2 ^ 63
    → Serving workers j (new_write_guard settable timeout) w P s
    → Guarded settable timeout j s
unfolding new_pipeline new_dispatch on_dispatch start_next admit_chunk end_context take_error
    start_abort return_error return_ok new_write_guard can_start
Serving-Guarded {j = j} small begins = record {
  count = 0;
  run = Trace.start;
  few = omega arith;
  writes = refl;
  exact = λ h. omega (arith, sum_none (n_chunks j));
}
Serving-Guarded {j = j} small (starts {s} h r) =
    let b = Serving-Books r in
    let d = Run-Inv b.run in
    let more : s.dispatch.next < n_chunks j = ground (arith, h, d.same_count) in
    let fresh = ap delivered (d.fresh s.dispatch.next (omega arith)) in
    phase-Guarded b (Serving-Guarded small r) _ (
      omega (
        arith,
        fresh,
        sum_of_update delivered (n_chunks j) s.dispatch.phases s.dispatch.next queued more,
      ))
Serving-Guarded small (admits i h r) =
    admit_chunk-Guarded (Serving-Books r) (Serving-Guarded small r) i h
Serving-Guarded small (leaves r) =
    phase-Guarded (Serving-Books r) (Serving-Guarded small r) _ (omega arith)
Serving-Guarded small (hands_over i res now h d r) =
    hand_over-Guarded (Serving-Books r) (Serving-Guarded small r) i res now small h
Serving-Guarded small (takes cr now p h fine r) =
    begin_write-Guarded (Serving-Books r) (Serving-Guarded small r) cr now p h
Serving-Guarded small (takes_error cr e p h bad r) =
    stopped-Guarded (Serving-Books r) (Serving-Guarded small r) _ refl refl (ap is_writing p) refl
      refl
Serving-Guarded small (stops p more gone r) =
    stopped-Guarded (Serving-Books r) (Serving-Guarded small r) _ refl refl (ap is_writing p) refl
      refl
Serving-Guarded small (ends_write cr flush_ok p r) =
    end_write-Guarded (Serving-Books r) (Serving-Guarded small r) cr flush_ok p
Serving-Guarded small (fails e p done r) =
    stopped-Guarded (Serving-Books r) (Serving-Guarded small r) _ refl refl (ap is_writing p) refl
      refl
Serving-Guarded small (succeeds p more all done r) =
    stopped-Guarded (Serving-Books r) (Serving-Guarded small r) _ refl refl (ap is_writing p) refl
      refl

-- The write guard of the whole of serveAligned: where write deadlines can be set and the timeout is
-- positive, a request of less than 2^63 chunks has a write deadline exactly while its consumer writes
-- a chunk and buffered chunks are delivered and not yet written; and as long as the consumer goes on,
-- the guard counts exactly these.
pub serving_guarded :
    (timeout : ℤ) {workers : ℤ} {j : Job} {w : Writer} {P : ℕ → ChunkResult Error → Type 0}
    {s : Pipeline}
    → pos 0 <ℤ timeout
    → n_chunks j < 2 ^ 63
    → Serving workers j (new_write_guard true timeout) w P s
    → (is_some s.guard.deadline ≡ (is_writing s.place && ltb 0 (buffers j s)))
      × (at_work s.place ≡ true → s.guard.held ≡ pos (buffers j s))
serving_guarded timeout {j = j} {s = s} on small r =
    let v = Serving-Guarded small r in
    (
      deadline_iff on v.run ∙ ap (λ b. b && ltb 0 v.count) v.writes ∙ counted s.place v.exact,
      λ w. held_exact v.run ∙ ap pos (v.exact w),
    )
  where
    counted :
        (p : Place) {count : ℕ}
        → (at_work p ≡ true → count ≡ buffers j s)
        → (is_writing p && ltb 0 count) ≡ (is_writing p && ltb 0 (buffers j s))
    counted reading h = refl
    counted (writing cr) h = ap (ltb 0) (h refl)
    counted (aborting e) h = refl
    counted (returned f k) h = refl
