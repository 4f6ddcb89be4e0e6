-- ===== src/Fetcher/Serve/Body.antt =====
-- What the client receives from serveAligned, if each chunk that arrives holds the object's bytes.
use s3_cache.Prelude.{
  ℕ, zero, suc, ◌+◌, ◌-◌, ◌/◌, ◌≤◌, ◌≡◌, ◌≢◌, refl, sym, ap, ◌∙◌, min, max, arith, List, ◌++◌,
  Option, none, some, Bool, true, length, take, extract, extract-append, take-extract, Option-cases,
  inl, inr, ◌⊎◌,
}
use s3_cache.Prelude.Int.{pos}
use s3_cache.Chunk.{ChunkResult, WriteError}
use s3_cache.Http.{Writer, Error, write_header, write_body}
use s3_cache.WriteGuard.{WriteGuard}
use s3_cache.Fetcher.Serve.{
  Job, Arrival, got, cancelled, Turn, Outcome, placed, write_chunk, serve_rest,
}
use s3_cache.Fetcher.Serve.Plan.{
  Fits, offset, from, to, offset-le, offset_suc, offset_last, offset_reach,
}
use s3_cache.Fetcher.Serve.Pieces.{Honest, the_job, piece, slice_of_chunk, length-piece}

pub Arrival-cases : (a : Arrival) → (a ≡ cancelled) ⊎ ((res : ChunkResult Error) × (a ≡ got res))
Arrival-cases cancelled = inl refl
Arrival-cases (got res) = inr (res, refl)

-- With the status committed, a write only adds to the body.
write_body_committed :
    (bytes : List ℕ) (w : Writer) {code : ℕ}
    → w.status ≡ some code
    → let w' : Writer = write_body bytes w in
      (w'.body ≡ w.body ++ bytes)
      × (w'.room ≡ w.room - length bytes)
      × (w'.status ≡ w.status)
      × (w'.sent ≡ w.sent)
unfolding write_body write_header
write_body_committed bytes w h = ground arith

module _ (object : List ℕ) (c s e : ℕ) (rr : Bool) (fits : Fits c s e (length object)) where
  open fits use {size_pos, ordered, inside, small}

  abbrev pub j : Job
  j = the_job object c s e rr fits

  abbrev part : ℕ → List ℕ
  part = piece object c s e rr fits

  -- What writing one chunk does to the response.
  pub record Written (i : ℕ) (flush_ok : Bool) (w w' : Writer) (why : Option WriteError)
      : Type 0 where
    pub body : w'.body ≡ w.body ++ take w.room (part i)
    pub room : w'.room ≡ w.room - length (take w.room (part i))
    pub status : w'.status ≡ w.status
    pub sent : w'.sent ≡ w.sent
    pub fitted : why ≡ none → length (part i) ≤ w.room
    pub succeeds : flush_ok ≡ true → length (part i) ≤ w.room → why ≡ none

  pub write_chunk-Written :
      (i : ℕ) (turn : Turn) (res : ChunkResult Error) (g : WriteGuard) (w : Writer) {code : ℕ}
      → s / c + i ≤ e / c
      → res.error ≡ none
      → Honest object j i (got res)
      → w.status ≡ some code
      → let r = write_chunk turn (placed j i res) (pos s) (pos e) g w in
        Written i turn.flush_ok w r.1 r.2
  unfolding write_chunk
  write_chunk-Written i turn res g w h ok_res honest st =
      let bytes : List ℕ = take w.room (part i) in
      let (b, r, t, u) = write_body_committed bytes w st in
      rw (write_chunk, slice_of_chunk object c s e rr fits i w.room res h ok_res honest)
        (record {
          body = b;
          room = r;
          status = t;
          sent = u;
          fitted = λ p. ground arith;
          succeeds = λ p q. ground arith;
        })

  -- How many of the bytes [s, e] precede chunk `i`.
  abbrev pub before : ℕ → ℕ
  before i = max s (min (e + 1) (offset c s i)) - s

  -- The response after the loop: a prefix of the wanted bytes, and all of them if nothing failed.
  pub record Delivered (w : Writer) (o : Outcome) : Type 0 where
    pub sofar : ℕ
    pub most : sofar ≤ e + 1 - s
    pub body : o.writer.body ≡ extract object s sofar
    pub complete : o.failed ≡ none → sofar ≡ e + 1 - s
    pub status : o.writer.status ≡ w.status
    pub sent : o.writer.sent ≡ w.sent

  stopped :
      (i : ℕ) (w : Writer) (o : Outcome)
      → w.body ≡ extract object s (before i)
      → o.failed ≢ none
      → o.writer ≡ w
      → Delivered w o
  stopped i w o b failed same = record {
    sofar = before i;
    most = omega arith;
    body = ap (λ (x : Writer). x.body) same ∙ b;
    complete = λ p. absurd (failed p);
    status = ap (λ (x : Writer). x.status) same;
    sent = ap (λ (x : Writer). x.sent) same;
  }

  part_after :
      (i room : ℕ)
      → s / c + i ≤ e / c
      → extract object s (before i) ++ take room (part i)
        ≡ extract object s (before i + min room (to c s e i - from c s i))
  part_after i room h =
      let start : s + before i ≡ from c s i = omega (arith, offset-le fits i h) in
      let n : ℕ = to c s e i - from c s i in
      ap (λ (x : List ℕ). extract object s (before i) ++ x)
        (take-extract object room (from c s i) n
          ∙ ap (λ (x : ℕ). extract object x (min room n)) (sym start))
      ∙ extract-append object s (before i) (min room n)

  pub before_suc :
      (i : ℕ) → s / c + i ≤ e / c → before i + (to c s e i - from c s i) ≡ before (i + 1)
  before_suc i h = omega (arith, offset-le fits i h, offset_reach fits i, offset_suc fits i)

  cut_short :
      (i : ℕ) {flush_ok : Bool} (w w' : Writer) {why : Option WriteError} (o : Outcome)
      → s / c + i ≤ e / c
      → w.body ≡ extract object s (before i)
      → Written i flush_ok w w' why
      → o.failed ≢ none
      → o.writer ≡ w'
      → Delivered w o
  cut_short i w w' o h b wr failed same = record {
    sofar = before i + min w.room (to c s e i - from c s i);
    most = omega (arith, before_suc i h);
    body =
        ap (λ (x : Writer). x.body) same
        ∙ wr.body
        ∙ ap (λ (x : List ℕ). x ++ take w.room (part i)) b
        ∙ part_after i w.room h;
    complete = λ p. absurd (failed p);
    status = ap (λ (x : Writer). x.status) same ∙ wr.status;
    sent = ap (λ (x : Writer). x.sent) same ∙ wr.sent;
  }

  Written-all :
      (i : ℕ) {flush_ok : Bool} (w w' : Writer) {why : Option WriteError}
      → s / c + i ≤ e / c
      → w.body ≡ extract object s (before i)
      → Written i flush_ok w w' why
      → why ≡ none
      → w'.body ≡ extract object s (before (i + 1))
  Written-all i w w' h b wr x =
      let n : ℕ = to c s e i - from c s i in
      let fits_room : min w.room n ≡ n =
        omega (arith, wr.fitted x, length-piece object c s e rr fits i h) in
      wr.body
      ∙ ap (λ (x : List ℕ). x ++ take w.room (part i)) b
      ∙ part_after i w.room h
      ∙ ap (λ (x : ℕ). extract object s (before i + x)) fits_room
      ∙ ap (λ (x : ℕ). extract object s x) (before_suc i h)

  carry_on :
      {i : ℕ} {flush_ok : Bool} (w w' : Writer) {why : Option WriteError} (o : Outcome)
      → Written i flush_ok w w' why
      → Delivered w' o
      → Delivered w o
  carry_on w w' o wr d = record {
    sofar = d.sofar;
    most = d.most;
    body = d.body;
    complete = d.complete;
    status = d.status ∙ wr.status;
    sent = d.sent ∙ wr.sent;
  }

  module _ (turns : ℕ → Turn)
      (honest : (i : ℕ) → s / c + i ≤ e / c → Honest object j i (turns i).arrival) where
    pub serve_rest-Delivered :
        (left i : ℕ) (g : WriteGuard) (w : Writer) {code : ℕ}
        → s / c + i + left ≡ e / c + 1
        → w.status ≡ some code
        → w.body ≡ extract object s (before i)
        → Delivered w (serve_rest j turns left i g w)
    unfolding serve_rest
    serve_rest-Delivered zero i g w h st b = record {
      sofar = before i;
      most = omega arith;
      body = b;
      complete = λ p. omega (arith, offset_last fits i);
      status = refl;
      sent = refl;
    }
    serve_rest-Delivered (suc left) i g w h st b = elim (Arrival-cases (turns i).arrival) [
      | inl p ↦ rw (serve_rest, p) (stopped i w _ b (λ q. cc) refl)
      | inr (res, p) ↦ elim (Option-cases res.error) [
        | inr (err, q) ↦ rw (serve_rest, p, q) (stopped i w _ b (λ q. cc) refl)
        | inl q ↦
            let h' : s / c + i ≤ e / c = omega arith in
            let r = write_chunk (turns i) (placed j i res) (pos s) (pos e) g w in
            let wr : Written i (turns i).flush_ok w r.1 r.2 =
              write_chunk-Written i (turns i) res g w h' q (rw p at (honest i h')) st in
            elim (Option-cases r.2) [
              | inr (why, x) ↦ rw (serve_rest, p, q, x) (cut_short i w r.1 _ h' b wr (λ y. cc) refl)
              | inl x ↦
                  rw (serve_rest, p, q, x)
                    (carry_on w r.1 _ wr (
                      serve_rest-Delivered left (i + 1) r.0 r.1 (omega arith) (wr.status ∙ st)
                        (Written-all i w r.1 h' b wr x)))
            ]
      ]
    ]
