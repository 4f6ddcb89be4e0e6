-- ===== src/Fetcher/Serve/Response.antt =====
-- The whole response of serveAligned: status, headers and body, on every branch.
use s3_cache.Prelude.{
  ℕ, suc, ◌+◌, ◌-◌, ◌/◌, ◌^◌, ◌<◌, ◌≤◌, ◌≡◌, ◌≢◌, refl, ap, ◌∙◌, arith, List, [], none, some, Bool,
  true, false, length, extract, if◌then◌else◌, Option-cases, inl, inr,
}
use s3_cache.Prelude.Int.{pos, add64, sub64, add64_pos, sub64_pos}
use s3_cache.Prelude.Text.{codes, format_int}
use s3_cache.Chunk.{ChunkResult}
use s3_cache.Http.{
  Headers, Writer, Error, http_error, http_error_from_s3, s3_status, s3_text, s3_status_le,
}
use s3_cache.WriteGuard.{WriteGuard}
use s3_cache.Fetcher.Serve.{
  Job, got, Turn, Outcome, serve_rest, serve_aligned, n_chunks, commit, drop_validator_headers,
  content_range_text,
}
use s3_cache.Fetcher.Serve.Plan.{Fits, job, offset_zero, count, ordered_chunks}
use s3_cache.Fetcher.Serve.Pieces.{Honest}
use s3_cache.Fetcher.Serve.Body.{before, Arrival-cases, Delivered, serve_rest-Delivered}

-- A writer to which nothing was written yet.
pub record IsFresh (w : Writer) : Type 0 where
  pub no_status : w.status ≡ none
  pub no_body : w.body ≡ []

abbrev pub success : Bool → ℕ
success rr = if rr then 206 else 200

-- The headers of a success: the length of the span, and the span itself if a range was asked for.
abbrev pub success_headers : ℕ → ℕ → ℕ → Bool → Headers → Headers
success_headers s e total rr h = record h {
  content_length = some (format_int (pos (e + 1 - s)));
  content_range =
      if rr then some (content_range_text (pos s) (pos e) (pos total)) else h.content_range;
  accept_ranges = some (codes "bytes");
}

-- What a client can see of a request for the bytes [s, e].
pub data Answer (object : List ℕ) (s e : ℕ) (rr : Bool) (h : Headers) (o : Outcome) : Type 0 where
  served :
      (n : ℕ)
      → n ≤ e + 1 - s
      → o.writer.body ≡ extract object s n
      → (o.failed ≡ none → n ≡ e + 1 - s)
      → o.writer.status ≡ some (success rr)
      → o.writer.sent ≡ some (success_headers s e (length object) rr h)
      → Answer object s e rr h o
  refused :
      (code : ℕ) (sent : Headers)
      → 400 ≤ code
      → o.writer.status ≡ some code
      → o.writer.sent ≡ some sent
      → sent.etag ≡ none
      → sent.last_modified ≡ none
      → o.failed ≢ none
      → Answer object s e rr h o

span_length :
    (s e : ℕ) → s ≤ e → e + 1 < 2 ^ 63 → add64 (sub64 (pos e) (pos s)) (pos 1) ≡ pos (e + 1 - s)
span_length s e h k =
    rw (sub64_pos e s h (omega arith), add64_pos (e - s) 1 (omega arith)) (ap pos (omega arith))

pub commit_lem :
    (c s e total : ℕ) (rr : Bool) (w : Writer)
    → s ≤ e
    → e + 1 < 2 ^ 63
    → w.status ≡ none
    → let w' : Writer = commit (job c s e total rr) w in
      (w'.status ≡ some (success rr))
      × (w'.sent ≡ some (success_headers s e total rr w.header))
      × (w'.body ≡ w.body)
      × (w'.room ≡ w.room)
unfolding commit
commit_lem c s e total true w h k st = ground (arith, span_length s e h k)
commit_lem c s e total false w h k st = ground (arith, span_length s e h k)

http_error_lem :
    (message : List ℕ) (code : ℕ) (w : Writer)
    → w.status ≡ none
    → let w' : Writer = http_error message code (drop_validator_headers w) in
      (sent : Headers) × (w'.status ≡ some code)
      × (w'.sent ≡ some sent)
      × (sent.etag ≡ none)
      × (sent.last_modified ≡ none)
unfolding http_error drop_validator_headers
http_error_lem message code w st = (
  record w.header {
    content_length = none;
    content_type = some (codes "text/plain; charset=utf-8");
    content_type_options = some (codes "nosniff");
    etag = none;
    last_modified = none;
  },
  ground arith,
  ground arith,
  refl,
  refl,
)

from_s3_lem :
    (err : Error) (w : Writer)
    → w.status ≡ none
    → let w' : Writer = http_error_from_s3 err (drop_validator_headers w) in
      (code : ℕ) × (sent : Headers) × (400 ≤ code)
      × (w'.status ≡ some code)
      × (w'.sent ≡ some sent)
      × (sent.etag ≡ none)
      × (sent.last_modified ≡ none)
unfolding http_error_from_s3
from_s3_lem err w st =
    let code : ℕ = s3_status err.message in
    let (h, st', sent, etag, modified) = http_error_lem (s3_text code) code w st in
    (code, h, s3_status_le err.message, st', sent, etag, modified)

module _ (object : List ℕ) (c s e : ℕ) (rr : Bool) (fits : Fits c s e (length object)) where
  open fits use {size_pos, ordered, inside, small}

  abbrev j : Job
  j = job c s e (length object) rr

  -- Once chunk 0 is there, what follows is the loop from chunk 0 on, with the status committed.
  pub serve_first :
      (turns : ℕ → Turn) (g : WriteGuard) (w : Writer) {res : ChunkResult Error}
      → (turns 0).arrival ≡ got res
      → res.error ≡ none
      → serve_aligned j turns g w ≡ serve_rest j turns (suc (n_chunks j - 1)) 0 g (commit j w)
  unfolding serve_aligned serve_rest
  serve_first turns g w p q = rw (serve_aligned, serve_rest, p, q) refl

  pub rounds : suc (n_chunks j - 1) ≡ e / c + 1 - s / c
  rounds = omega (arith, count fits rr, ordered_chunks fits)

  nothing_before : ◌≡◌ {A = List ℕ} [] (extract object s (before object c s e rr fits 0))
  nothing_before =
      let z : before object c s e rr fits 0 ≡ 0 = omega (arith, offset_zero fits) in rw z refl

  pub serve_committed :
      (turns : ℕ → Turn) (g : WriteGuard) (w : Writer) {res : ChunkResult Error}
      → ((i : ℕ) → s / c + i ≤ e / c → Honest object j i (turns i).arrival)
      → IsFresh w
      → (turns 0).arrival ≡ got res
      → res.error ≡ none
      → Delivered object c s e rr fits (commit j w) (serve_aligned j turns g w)
  serve_committed turns g w honest fresh p q =
      let (st, sent, body, room) =
        commit_lem c s e (length object) rr w ordered (omega arith) fresh.no_status in
      rw (serve_first turns g w p q) (
        serve_rest-Delivered object c s e rr fits turns honest (suc (n_chunks j - 1)) 0 g
          (commit j w) (omega (arith, rounds, ordered_chunks fits)) st
          (body ∙ fresh.no_body ∙ nothing_before))

  -- If the chunks that arrive without an error hold the object's bytes, then, whatever arrives and
  -- whatever the client takes, either the response is refused, with an error status and without
  -- validators, or its body is a prefix of the wanted bytes, under the headers that announce them,
  -- and all of them if nothing failed.
  pub serve_aligned-Answer :
      (turns : ℕ → Turn) (g : WriteGuard) (w : Writer)
      → ((i : ℕ) → s / c + i ≤ e / c → Honest object j i (turns i).arrival)
      → IsFresh w
      → Answer object s e rr w.header (serve_aligned j turns g w)
  unfolding serve_aligned
  serve_aligned-Answer turns g w honest fresh = elim (Arrival-cases (turns 0).arrival) [
    | inl p ↦
        let (h, st, sent, etag, modified) =
          http_error_lem (codes "request cancelled") 502 w fresh.no_status in
        rw (serve_aligned, p) (refused 502 h (omega arith) st sent etag modified (λ y. cc))
    | inr (res, p) ↦ elim (Option-cases res.error) [
      | inr (err, q) ↦
          let (code, h, k, st, sent, etag, modified) = from_s3_lem err w fresh.no_status in
          rw (serve_aligned, p, q) (refused code h k st sent etag modified (λ y. cc))
      | inl q ↦
          let d = serve_committed turns g w honest fresh p q in
          let (st, sent, body, room) =
            commit_lem c s e (length object) rr w ordered (omega arith) fresh.no_status in
          served d.sofar d.most d.body d.complete (d.status ∙ st) (d.sent ∙ sent)
    ]
  ]
