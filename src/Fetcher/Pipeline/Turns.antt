-- ===== src/Fetcher/Pipeline/Turns.antt =====
-- services/fetcher.go, serveAligned: the consumer (Fetcher/Serve) at one chunk.
use s3_cache.Prelude.{ℕ, zero, suc, ◌-◌, ◌<◌, ◌≡◌, refl, Option, none, some, arith, if◌then◌else◌}
use native.Mathlib.Numerals.{add-one}
use s3_cache.Prelude.Int.{pos, add64}
use s3_cache.Chunk.{ChunkResult, WriteError}
use s3_cache.Http.{Writer, Error}
use s3_cache.WriteGuard.{WriteGuard}
use s3_cache.Fetcher.Serve.{
  got, cancelled, Turn, Outcome, ServeError, fetch_failed, write_failed, request_cancelled, Job,
  last_chunk, n_chunks, placed, commit, serve_rest, serve_aligned, write_chunk,
}
use s3_cache.Fetcher.Pipeline.{is_first, refuse}

module _ (j : Job) where
  -- The rest of serveAligned, from chunk `i` on.
  abbrev pub rest : (ℕ → Turn) → ℕ → WriteGuard → Writer → Outcome
  rest turns zero g w = serve_aligned j turns g w
  rest turns (suc i) g w = serve_rest j turns (n_chunks j - suc i) (suc i) g w

  abbrev pub committed : ℕ → Writer → Writer
  committed i w = if is_first i then commit j w else w

  abbrev pub over_with : Option ServeError → WriteGuard → Writer → Outcome
  over_with failed g w = record { guard = g; writer = w; failed = failed; kick = none }

  module _ (turns : ℕ → Turn) (g : WriteGuard) (w : Writer) where
    pub rest_cancelled :
        (i : ℕ)
        → i < n_chunks j
        → (turns i).arrival ≡ cancelled
        → rest turns i g w
          ≡ over_with (some request_cancelled) g (refuse (is_first i) request_cancelled w)
    unfolding serve_aligned serve_rest refuse
    rest_cancelled zero lt h = rw (serve_aligned, h) refl
    rest_cancelled (suc i) lt h =
        let more : n_chunks j - suc i ≡ suc (n_chunks j - suc (suc i)) = omega arith in
        rw (more, serve_rest, h) refl

    pub rest_error :
        (i : ℕ) {res : ChunkResult Error} {e : Error}
        → i < n_chunks j
        → (turns i).arrival ≡ got res
        → res.error ≡ some e
        → rest turns i g w
          ≡ over_with (some (fetch_failed e)) g (refuse (is_first i) (fetch_failed e) w)
    unfolding serve_aligned serve_rest refuse
    rest_error zero lt h k = rw (serve_aligned, h, k) refl
    rest_error (suc i) lt h k =
        let more : n_chunks j - suc i ≡ suc (n_chunks j - suc (suc i)) = omega arith in
        rw (more, serve_rest, h, k) refl

    abbrev written : ℕ → ChunkResult Error → WriteGuard × Writer × Option WriteError
    written i res = write_chunk (turns i) (placed j i res) j.start j.stop g (committed i w)

    first_short :
        {res : ChunkResult Error} {g' : WriteGuard} {w' : Writer} {why : WriteError}
        → (turns 0).arrival ≡ got res
        → res.error ≡ none
        → let r = write_chunk (turns 0) (placed j 0 res) j.start j.stop g (commit j w) in
          r.0 ≡ g'
          → r.1 ≡ w'
          → r.2 ≡ some why
          → serve_aligned j turns g w ≡ over_with (some (write_failed why)) g' w'
    unfolding serve_aligned
    first_short h k e f x = rw (serve_aligned, h, k, x, e, f) refl

    next_short :
        (left i : ℕ) {res : ChunkResult Error} {g' : WriteGuard} {w' : Writer} {why : WriteError}
        → (turns i).arrival ≡ got res
        → res.error ≡ none
        → let r = write_chunk (turns i) (placed j i res) j.start j.stop g w in
          r.0 ≡ g'
          → r.1 ≡ w'
          → r.2 ≡ some why
          → serve_rest j turns (suc left) i g w ≡ over_with (some (write_failed why)) g' w'
    unfolding serve_rest
    next_short left i h k e f x = rw (serve_rest, h, k, x, e, f) refl

    first_more :
        {res : ChunkResult Error} {g' : WriteGuard} {w' : Writer}
        → (turns 0).arrival ≡ got res
        → res.error ≡ none
        → let r = write_chunk (turns 0) (placed j 0 res) j.start j.stop g (commit j w) in
          r.0 ≡ g'
          → r.1 ≡ w'
          → r.2 ≡ none
          → serve_aligned j turns g w ≡ serve_rest j turns (n_chunks j - 1) 1 g' w'
    unfolding serve_aligned
    first_more h k e f x = rw (serve_aligned, h, k, x, e, f) refl

    next_more :
        (left i : ℕ) {res : ChunkResult Error} {g' : WriteGuard} {w' : Writer}
        → (turns i).arrival ≡ got res
        → res.error ≡ none
        → let r = write_chunk (turns i) (placed j i res) j.start j.stop g w in
          r.0 ≡ g'
          → r.1 ≡ w'
          → r.2 ≡ none
          → serve_rest j turns (suc left) i g w ≡ serve_rest j turns left (suc i) g' w'
    unfolding serve_rest
    next_more left i h k e f x = rw (serve_rest, h, k, x, e, f, add-one) refl

    -- What the write of chunk `i` leaves of the guard and of the writer, and its error.
    abbrev pub Writes : ℕ → ChunkResult Error → WriteGuard → Writer → Option WriteError → Type 0
    Writes i res g' w' e =
        let r = write_chunk (turns i) (placed j i res) j.start j.stop g (committed i w) in
        (r.0 ≡ g') × (r.1 ≡ w') × (r.2 ≡ e)

    pub rest_short :
        (i : ℕ) {res : ChunkResult Error} {g' : WriteGuard} {w' : Writer} {why : WriteError}
        → i < n_chunks j
        → (turns i).arrival ≡ got res
        → res.error ≡ none
        → Writes i res g' w' (some why)
        → rest turns i g w ≡ over_with (some (write_failed why)) g' w'
    rest_short zero lt h k (e, f, x) = first_short h k e f x
    rest_short (suc i) lt h k (e, f, x) =
        let more : n_chunks j - suc i ≡ suc (n_chunks j - suc (suc i)) = omega arith in
        rw more (next_short (n_chunks j - suc (suc i)) (suc i) h k e f x)

    pub rest_more :
        (i : ℕ) {res : ChunkResult Error} {g' : WriteGuard} {w' : Writer}
        → i < n_chunks j
        → (turns i).arrival ≡ got res
        → res.error ≡ none
        → Writes i res g' w' none
        → rest turns i g w ≡ rest turns (suc i) g' w'
    rest_more zero lt h k (e, f, x) = first_more h k e f x
    rest_more (suc i) lt h k (e, f, x) =
        let more : n_chunks j - suc i ≡ suc (n_chunks j - suc (suc i)) = omega arith in
        rw more (next_more (n_chunks j - suc (suc i)) (suc i) h k e f x)

    pub rest_done :
        (i : ℕ)
        → 0 < i
        → i ≡ n_chunks j
        → rest turns i g w ≡ record {
          guard = g;
          writer = w;
          failed = none;
          kick = some (add64 (last_chunk j) (pos 1));
        }
    unfolding serve_rest
    rest_done zero lt e = absurd (omega arith)
    rest_done (suc i) lt e =
        let last : n_chunks j - suc i ≡ 0 = omega arith in rw (last, serve_rest) refl
