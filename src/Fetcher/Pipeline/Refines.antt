-- ===== src/Fetcher/Pipeline/Refines.antt =====
-- services/fetcher.go, serveAligned: what a client sees of the whole system is what it sees of the consumer
-- alone (Fetcher/Serve), for some order of arrivals.
use s3_cache.Prelude.{length, ℕ, ◌≡◌, refl, ap, sym, ◌∙◌, Option, Bool, List, []}
use s3_cache.Prelude.Int.{ℤ}
use s3_cache.Chunk.{ChunkResult}
use s3_cache.Http.{Headers, Writer, Error}
use s3_cache.WriteGuard.{WriteGuard, end}
use s3_cache.Fetcher.Dispatch.{new_dispatch, start_next, admit_chunk, end_context}
use s3_cache.Fetcher.Serve.{Arrival, got, cancelled, Turn, Outcome, ServeError, Job, serve_aligned}
use s3_cache.Fetcher.Serve.Plan.{Fits, job}
use s3_cache.Fetcher.Serve.Pieces.{Honest}
use s3_cache.Fetcher.Serve.Response.{Answer, served, refused, IsFresh, serve_aligned-Answer}
use s3_cache.Fetcher.Pipeline.{
  returned, Pipeline, new_pipeline, on_dispatch, Serving, begins, starts, admits, leaves,
  hands_over, takes, takes_error, stops, ends_write, fails, succeeds,
}
use s3_cache.Fetcher.Pipeline.Account.{filled-lt, writing-lt}
use s3_cache.Fetcher.Pipeline.Books.{Serving-Books}
use s3_cache.Fetcher.Pipeline.Known.{Delivers, no_turn}
use s3_cache.Fetcher.Pipeline.Views.{
  View, at_place, hand_over-View, begin_write-View, take_error-View, stop-View, return_error-View,
  return_ok-View, end_write-View,
}

module _ (j : Job) (g0 : WriteGuard) (w0 : Writer) (P : ℕ → ChunkResult Error → Type 0) where
  Serving-View : {workers : ℤ} {s : Pipeline} → Serving workers j g0 w0 P s → View j g0 w0 P s
  unfolding new_pipeline new_dispatch on_dispatch start_next admit_chunk end_context
  Serving-View begins = record {
    filled = λ i cr e. absurd (cc);
    sees = record {
      base = g0;
      upto = record { ts = λ k. no_turn; sound = λ k. tt; same = λ turns h. refl };
      held = ([], refl);
    };
  }
  Serving-View (starts h r) = let v = Serving-View r in record { filled = v.filled; sees = v.sees }
  Serving-View (admits i h r) =
      let v = Serving-View r in record { filled = v.filled; sees = v.sees }
  Serving-View (leaves r) = let v = Serving-View r in record { filled = v.filled; sees = v.sees }
  Serving-View (hands_over i res now h d r) = hand_over-View j g0 w0 P (Serving-View r) i res now d
  Serving-View (takes cr now p h fine r) =
      begin_write-View j g0 w0 P (Serving-View r) cr now p h fine
  Serving-View (takes_error cr e p h bad r) =
      take_error-View j g0 w0 P (Serving-View r) cr e (filled-lt (Serving-Books r) _ h) p h bad
  Serving-View (stops p more gone r) = stop-View j g0 w0 P (Serving-View r) more p
  Serving-View (ends_write cr flush_ok p r) =
      end_write-View j g0 w0 P (Serving-View r) cr flush_ok (writing-lt (Serving-Books r) p) p
  Serving-View (fails e p done r) =
      return_error-View j g0 w0 P (Serving-View r) e (Serving-Books r) p
  Serving-View (succeeds p more all done r) = return_ok-View j g0 w0 P (Serving-View r) p more all

  -- Whatever the dispatcher, the fetches, the consumer and the end of the context do in turn, once
  -- serveAligned has returned, the client has been sent, the error returned, and readahead kicked as
  -- the consumer alone does for some arrivals, each of them a result that the fetch of that chunk
  -- delivered, or the end of the context.
  pub serving_refines :
      {workers : ℤ} {s : Pipeline} {failed : Option ServeError} {kick : Option ℤ}
      → Serving workers j g0 w0 P s
      → s.place ≡ returned failed kick
      → (turns : ℕ → Turn) × ((i : ℕ) → Delivers P i (turns i).arrival)
        × ((serve_aligned j turns g0 w0).writer ≡ s.writer)
        × ((serve_aligned j turns g0 w0).failed ≡ failed)
        × ((serve_aligned j turns g0 w0).kick ≡ kick)
  serving_refines {s = s} {failed} {kick} r p =
      let e = at_place j g0 w0 P s (returned failed kick) p (Serving-View r) in
      (e.turns, e.sound, e.writer, e.failed_same, e.kick_same)

Answer-same :
    {object : List ℕ} {s e : ℕ} {rr : Bool} {h : Headers} {o o' : Outcome}
    → o.writer ≡ o'.writer
    → o.failed ≡ o'.failed
    → Answer object s e rr h o
    → Answer object s e rr h o'
Answer-same p q (served n le body all status sent) =
    served n le (ap (λ (w : Writer). w.body) (sym p) ∙ body) (λ f. all (q ∙ f))
      (ap (λ (w : Writer). w.status) (sym p) ∙ status) (ap (λ (w : Writer). w.sent) (sym p) ∙ sent)
Answer-same p q (refused code h le status sent etag modified failed) =
    refused code h le (ap (λ (w : Writer). w.status) (sym p) ∙ status)
      (ap (λ (w : Writer). w.sent) (sym p) ∙ sent) etag modified (λ f. failed (q ∙ f))

module _ (object : List ℕ) (c s e : ℕ) (rr : Bool) (fits : Fits c s e (length object)) where
  -- A fetch of this chunk gives an error or the chunk's bytes of the object.
  abbrev pub Gives : ℕ → ChunkResult Error → Type 0
  Gives i res = Honest object (job c s e (length object) rr) i (got res)

  Delivers-Honest :
      (i : ℕ) (a : Arrival) → Delivers Gives i a → Honest object (job c s e (length object) rr) i a
  Delivers-Honest i cancelled d = d
  Delivers-Honest i (got res) d = d

  -- If the fetches of the chunks give errors or the object's bytes, then, over every interleaving of the
  -- dispatcher, the fetches, the consumer and the end of the context, once serveAligned has returned,
  -- the response is refused, with an error status and without validators, or its body is a prefix of
  -- the wanted bytes, under the headers that announce them, and all of them if no error is returned.
  pub serving-Answer :
      {workers : ℤ} {g : WriteGuard} {w : Writer} {p : Pipeline} {failed : Option ServeError}
      {kick : Option ℤ}
      → IsFresh w
      → Serving workers (job c s e (length object) rr) g w Gives p
      → p.place ≡ returned failed kick
      → Answer object s e rr w.header
          (record { guard = p.guard; writer = p.writer; failed = failed; kick = kick })
  serving-Answer {g = g} {w} fresh r end =
      let (turns, sound, same_writer, same_failed, _) =
        serving_refines (job c s e (length object) rr) g w Gives r end in
      Answer-same same_writer same_failed (
        serve_aligned-Answer object c s e rr fits turns g w
          (λ i h. Delivers-Honest i (turns i).arrival (sound i)) fresh)
