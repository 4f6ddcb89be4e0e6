-- ===== src/Fetcher/Serve/Complete.antt =====
-- serveAligned succeeds when every chunk arrives and the client takes it all.
use s3_cache.Prelude.{
  ℕ, zero, suc, ◌+◌, ◌-◌, ◌/◌, ◌≤◌, ◌≡◌, refl, ap, ◌∙◌, min, arith, List, none, some, Bool, true,
  length, extract, length-take, take,
}
use s3_cache.Prelude.Int.{pos, add64, add64_pos, div64_pos}
use s3_cache.Chunk.{ChunkResult}
use s3_cache.Http.{Writer, Error}
use s3_cache.WriteGuard.{WriteGuard}
use s3_cache.Fetcher.Serve.{
  Job, got, Turn, Outcome, placed, write_chunk, serve_rest, serve_aligned, n_chunks, commit,
  last_chunk,
}
use s3_cache.Fetcher.Serve.Plan.{
  Fits, job, from, to, offset-le, offset_reach, offset_suc, ordered_chunks, div-le,
}
use s3_cache.Fetcher.Serve.Pieces.{Honest, piece, length-piece}
use s3_cache.Fetcher.Serve.Body.{before, Written, write_chunk-Written, before_suc}
use s3_cache.Fetcher.Serve.Response.{
  IsFresh, success, success_headers, serve_first, rounds, serve_committed, commit_lem,
}

-- The chunk is there without an error, and the write of it can be flushed.
pub record Arrives (turn : Turn) : Type 0 where
  pub res : ChunkResult Error
  pub here : turn.arrival ≡ got res
  pub fine : res.error ≡ none
  pub flushes : turn.flush_ok ≡ true

module _ (object : List ℕ) (c s e : ℕ) (rr : Bool) (fits : Fits c s e (length object)) where
  open fits use {size_pos, ordered, inside, small}

  abbrev j : Job
  j = job c s e (length object) rr

  next_chunk : add64 (last_chunk j) (pos 1) ≡ pos (e / c + 1)
  next_chunk = rw (div64_pos e c, add64_pos (e / c) 1 (omega (arith, div-le fits e))) refl

  module _ (turns : ℕ → Turn)
      (honest : (i : ℕ) → s / c + i ≤ e / c → Honest object j i (turns i).arrival)
      (arrives : (i : ℕ) → s / c + i ≤ e / c → Arrives (turns i)) where
    abbrev the_part : ℕ → List ℕ
    the_part = piece object c s e rr fits

    room_left :
        (i room room' n : ℕ)
        → s / c + i ≤ e / c
        → n ≡ min room (to c s e i - from c s i)
        → room' ≡ room - n
        → e + 1 - s ≤ room + before object c s e rr fits i
        → e + 1 - s ≤ room' + before object c s e rr fits (i + 1)
    room_left i room room' n h k l m =
        omega (arith, offset-le fits i h, offset_reach fits i, offset_suc fits i)

    serve_rest_total :
        (left i : ℕ) (g : WriteGuard) (w : Writer) {code : ℕ}
        → s / c + i + left ≡ e / c + 1
        → w.status ≡ some code
        → e + 1 - s ≤ w.room + before object c s e rr fits i
        → let o : Outcome = serve_rest j turns left i g w in
          (o.failed ≡ none) × (o.kick ≡ some (add64 (last_chunk j) (pos 1)))
    unfolding serve_rest
    serve_rest_total zero i g w h st k = (refl, refl)
    serve_rest_total (suc left) i g w h st k =
        let h' : s / c + i ≤ e / c = omega arith in
        let a : Arrives (turns i) = arrives i h' in
        let r = write_chunk (turns i) (placed j i a.res) (pos s) (pos e) g w in
        let wr : Written object c s e rr fits i (turns i).flush_ok w r.1 r.2 =
          write_chunk-Written object c s e rr fits i (turns i) a.res g w h' a.fine
            (rw a.here at (honest i h')) st in
        let len : length (the_part i) ≡ to c s e i - from c s i =
          length-piece object c s e rr fits i h' in
        let fit : length (the_part i) ≤ w.room =
          omega (arith, len, before_suc object c s e rr fits i h') in
        let taken : length (take w.room (the_part i)) ≡ min w.room (to c s e i - from c s i) =
          omega (arith, length-take w.room (the_part i)) in
        rw (serve_rest, a.here, a.fine, wr.succeeds a.flushes fit)
          (serve_rest_total left (i + 1) r.0 r.1 (omega arith) (wr.status ∙ st)
            (room_left i w.room r.1.room (length (take w.room (the_part i))) h' taken wr.room k))

  -- If every chunk arrives with the object's bytes, every flush succeeds and the client takes the
  -- span, the response has
  -- the success status, exactly the headers of the span, and exactly its bytes; then readahead is
  -- kicked from the chunk behind it.
  pub serve_aligned_complete :
      (turns : ℕ → Turn) (g : WriteGuard) (w : Writer)
      → ((i : ℕ) → s / c + i ≤ e / c → Honest object j i (turns i).arrival)
      → ((i : ℕ) → s / c + i ≤ e / c → Arrives (turns i))
      → IsFresh w
      → e + 1 - s ≤ w.room
      → let o : Outcome = serve_aligned j turns g w in
        (o.failed ≡ none)
        × (o.writer.status ≡ some (success rr))
        × (o.writer.sent ≡ some (success_headers s e (length object) rr w.header))
        × (o.writer.body ≡ extract object s (e + 1 - s))
        × (o.kick ≡ some (pos (e / c + 1)))
  serve_aligned_complete turns g w honest arrives fresh room =
      let a : Arrives (turns 0) = arrives 0 (omega (arith, ordered_chunks fits)) in
      let (st, sent, body, same_room) =
        commit_lem c s e (length object) rr w ordered (omega arith) fresh.no_status in
      let d = serve_committed object c s e rr fits turns g w honest fresh a.here a.fine in
      let (ended, kick) =
        serve_rest_total turns honest arrives (suc (n_chunks j - 1)) 0 g (commit j w)
          (omega (arith, rounds object c s e rr fits, ordered_chunks fits)) st
          (omega (arith, same_room)) in
      let first = serve_first object c s e rr fits turns g w a.here a.fine in
      let failed : (serve_aligned j turns g w).failed ≡ none =
        ap (λ (o : Outcome). o.failed) first ∙ ended in
      (
        failed,
        d.status ∙ st,
        d.sent ∙ sent,
        d.body ∙ ap (λ (n : ℕ). extract object s n) (d.complete failed),
        ap (λ (o : Outcome). o.kick) first ∙ kick ∙ ap some (next_chunk),
      )
