-- ===== src/Fetcher/Pipeline/Views.antt =====
-- services/fetcher.go, serveAligned: how the client sees each step of the whole system as a part of a turn
-- of the consumer alone (Fetcher/Serve).
use s3_cache.Prelude.{
  ℕ, suc, ◌+◌, ◌<◌, ◌≡◌, refl, ap, sym, ◌∙◌, subst, Option, none, some, Bool, true, false, arith,
  [], if◌then◌else◌, ◌==◌, Result,
}
use native.Mathlib.Numerals.{add-one}
use s3_cache.Prelude.Int.{ℤ}
use s3_cache.Singleflight.{update}
use s3_cache.Chunk.{ChunkResult, WriteError, write_slice}
use s3_cache.Http.{Writer, Error, write_body}
use s3_cache.WriteGuard.{WriteGuard, hold, begin, end}
use s3_cache.Fetcher.Dispatch.{arrive, write_head, end_context}
use s3_cache.Fetcher.Serve.{
  got, Turn, Outcome, ServeError, write_failed, request_cancelled, Job, n_chunks, placed, holds,
  is_buffer, flushed, write_chunk,
}
use s3_cache.Fetcher.Pipeline.{
  Place, reading, writing, aborting, returned, Pipeline, is_first, fetched_result, hand_over,
  begin_write, start_abort, take_error, after_write, end_write, return_error, return_ok, refuse,
}
use s3_cache.Fetcher.Pipeline.Account.{Books, cleaned_up}
use s3_cache.Fetcher.Pipeline.Turns.{
  committed, Writes, rest_more, rest_short, rest_error, rest_cancelled, rest_done,
}
use s3_cache.Fetcher.Pipeline.Known.{
  Held, Held-hold, refuse_write, no_turn, Upto, Ending, next_turns, next_sound, next_same, ending,
}

module _ (j : Job) (g0 : WriteGuard) (w0 : Writer) (P : ℕ → ChunkResult Error → Type 0) where
  -- The consumer waits for chunk `i`.
  pub record Reads (i : ℕ) (g : WriteGuard) (w : Writer) : Type 0 where
    pub base : WriteGuard
    pub upto : Upto j g0 w0 P i base w
    pub held : Held base g

  -- It writes chunk `i`.
  pub record WritesOne (i : ℕ) (cr : ChunkResult Error) (g : WriteGuard) (w : Writer) : Type 0 where
    pub base : WriteGuard
    pub opened : WriteGuard
    pub before : Writer
    pub res : ChunkResult Error
    pub now : ℤ
    pub upto : Upto j g0 w0 P i base before
    pub held_before : Held base opened
    pub held : Held (begin now opened) g
    pub writer_same : w ≡ committed j i before
    pub result_same : cr ≡ placed j i res
    pub delivered : P i res
    pub fine : res.error ≡ none

  abbrev pub Sees : ℕ → Place → WriteGuard → Writer → Type 0
  Sees i reading g w = Reads i g w
  Sees i (writing cr) g w = WritesOne i cr g w
  Sees i (aborting e) g w = Ending j g0 w0 P (some e) none (refuse (is_first i) e w)
  Sees i (returned failed kick) g w = Ending j g0 w0 P failed kick w

  -- What is in the channels was delivered.
  abbrev pub Filled : (ℕ → Option (ChunkResult Error)) → Type 0
  Filled channels =
      (i : ℕ) (cr : ChunkResult Error)
      → channels i ≡ some cr
      → (res : ChunkResult Error) × (cr ≡ placed j i res) × P i res

  pub record View (s : Pipeline) : Type 0 where
    pub filled : Filled s.channels
    pub sees : Sees s.dispatch.written s.place s.guard s.writer

  Sees-hold :
      (i : ℕ) (p : Place) (g : WriteGuard) (w : Writer) (b : Bool) (now : ℤ)
      → Sees i p g w
      → Sees i p (if b then hold now g else g) w
  Sees-hold i reading g w b now v = record {
    base = v.base;
    upto = v.upto;
    held = Held-hold b now v.held;
  }
  Sees-hold i (writing cr) g w b now v = record {
    base = v.base;
    opened = v.opened;
    before = v.before;
    res = v.res;
    now = v.now;
    upto = v.upto;
    held_before = v.held_before;
    held = Held-hold b now v.held;
    writer_same = v.writer_same;
    result_same = v.result_same;
    delivered = v.delivered;
    fine = v.fine;
  }
  Sees-hold i (aborting e) g w b now v = v
  Sees-hold i (returned f k) g w b now v = v

  Filled-put :
      (channels : ℕ → Option (ChunkResult Error)) (i : ℕ) (res : ChunkResult Error)
      → P i res
      → Filled channels
      → Filled (update channels i (some (placed j i res)))
  Filled-put channels i res d f k cr = go (i == k) (λ h. ground (arith, h))
    where
      go :
          (b : Bool)
          → (b ≡ true → i ≡ k)
          → (if b then some (placed j i res) else channels k) ≡ some cr
          → (res' : ChunkResult Error) × (cr ≡ placed j k res') × P k res'
      go true h e =
          let same = h refl in
          subst (λ m. (res' : ChunkResult Error) × (cr ≡ placed j m res') × P m res') same
            (res, ground (arith, e), d)
      go false h e = f k cr e

  Filled-take :
      (channels : ℕ → Option (ChunkResult Error)) (i : ℕ)
      → Filled channels
      → Filled (update channels i none)
  Filled-take channels i f k cr e = f k cr (ground (arith, e))

  pub at_place :
      (s : Pipeline) (p : Place) → s.place ≡ p → View s → Sees s.dispatch.written p s.guard s.writer
  at_place s p e v = subst (λ q. Sees s.dispatch.written q s.guard s.writer) e v.sees

  module _ {s : Pipeline} (v : View s) where
    pub hand_over-View :
        (i : ℕ) (r : Result Error (ChunkResult Error)) (now : ℤ)
        → P i (fetched_result r)
        → View (hand_over j i r now s)
    unfolding hand_over arrive
    hand_over-View i r now d = record {
      filled = Filled-put s.channels i (fetched_result r) d v.filled;
      sees = Sees-hold s.dispatch.written s.place s.guard s.writer _ now v.sees;
    }

    pub begin_write-View :
        (cr : ChunkResult Error) (now : ℤ)
        → s.place ≡ reading
        → s.channels s.dispatch.written ≡ some cr
        → cr.error ≡ none
        → View (begin_write j cr now s)
    unfolding begin_write
    begin_write-View cr now p h fine =
        let (res, same, d) = v.filled s.dispatch.written cr h in
        let at = at_place s reading p v in
        record {
          filled = Filled-take s.channels s.dispatch.written v.filled;
          sees = record {
            base = at.base;
            opened = s.guard;
            before = s.writer;
            res = res;
            now = now;
            upto = at.upto;
            held_before = at.held;
            held = ([], refl);
            writer_same = refl;
            result_same = same;
            delivered = d;
            fine = sym (ap (λ (x : ChunkResult Error). x.error) same) ∙ fine;
          };
        }

    pub take_error-View :
        (cr : ChunkResult Error) (e : Error)
        → s.dispatch.written < n_chunks j
        → s.place ≡ reading
        → s.channels s.dispatch.written ≡ some cr
        → cr.error ≡ some e
        → View (take_error e s)
    unfolding take_error end_context
    take_error-View cr e lt p h bad =
        let (res, same, d) = v.filled s.dispatch.written cr h in
        let at = at_place s reading p v in
        let bad' : res.error ≡ some e = sym (ap (λ (x : ChunkResult Error). x.error) same) ∙ bad in
        record {
          filled = Filled-take s.channels s.dispatch.written v.filled;
          sees =
              ending j g0 w0 P at.upto (record no_turn { arrival = got res }) d
                (λ turns here.
                  rest_error j turns at.base s.writer s.dispatch.written lt
                    (ap (λ (t : Turn). t.arrival) here) bad');
        }

    pub stop-View :
        s.dispatch.written < n_chunks j → s.place ≡ reading → View (start_abort request_cancelled s)
    unfolding start_abort end_context
    stop-View lt p =
        let at = at_place s reading p v in
        record {
          filled = v.filled;
          sees = ending j g0 w0 P at.upto no_turn tt (λ turns here.
              rest_cancelled j turns at.base s.writer s.dispatch.written lt
                (ap (λ (t : Turn). t.arrival) here));
        }

    pub return_error-View :
        {workers : ℤ} (e : ServeError)
        → Books workers j s
        → s.place ≡ aborting e
        → View (return_error e s)
    unfolding return_error
    return_error-View e b p = record {
      filled = λ i cr h. absurd (ground (arith, h, (cleaned_up b i).0));
      sees = at_place s (aborting e) p v;
    }

    pub return_ok-View :
        s.place ≡ reading
        → 0 < s.dispatch.written
        → s.dispatch.written ≡ n_chunks j
        → View (return_ok j s)
    unfolding return_ok
    return_ok-View p more all =
        let at = at_place s reading p v in
        let u = at.upto in
        let same =
          u.same u.ts (λ k lt. refl)
          ∙ rest_done j u.ts at.base s.writer s.dispatch.written more all in
        record {
          filled = v.filled;
          sees = record {
            turns = u.ts;
            sound = u.sound;
            writer = ap (λ (o : Outcome). o.writer) same;
            failed_same = ap (λ (o : Outcome). o.failed) same;
            kick_same = ap (λ (o : Outcome). o.kick) same;
          };
        }

    -- The turn of the chunk that is written.
    the_turn :
        {cr : ChunkResult Error} → Bool → WritesOne s.dispatch.written cr s.guard s.writer → Turn
    the_turn flush_ok o = record {
      arrival = got o.res;
      before = o.held_before.0;
      now = o.now;
      during = o.held.0;
      flush_ok = flush_ok;
    }

    the_write :
        {cr : ChunkResult Error} (flush_ok : Bool)
        (o : WritesOne s.dispatch.written cr s.guard s.writer) (turns : ℕ → Turn)
        → turns s.dispatch.written ≡ the_turn flush_ok o
        → let (bytes, e) = write_slice cr j.start j.stop s.writer.room in
          Writes j turns o.base o.before s.dispatch.written o.res
            (end (is_buffer cr.via) s.guard)
            (write_body bytes s.writer)
            (flushed flush_ok e)
    unfolding write_chunk the_turn
    the_write {cr} flush_ok o turns here =
        let t : Turn = the_turn flush_ok o in
        let all : write_chunk (turns s.dispatch.written) (placed j s.dispatch.written o.res) j.start
              j.stop o.base (committed j s.dispatch.written o.before)
            ≡ write_chunk t cr j.start j.stop o.base s.writer =
          λ d.
            write_chunk (here d) (sym o.result_same d) j.start j.stop o.base
              (sym o.writer_same d) in
        let guards : holds o.held.0 (begin o.now (holds o.held_before.0 o.base)) ≡ s.guard =
          ap (λ (g : WriteGuard). holds o.held.0 (begin o.now g)) (sym o.held_before.1)
          ∙ sym o.held.1 in
        (
          ap (λ (r : WriteGuard × Writer × Option WriteError). r.0) all
              ∙ ap (end (is_buffer cr.via)) guards,
          ap (λ (r : WriteGuard × Writer × Option WriteError). r.1) all,
          ap (λ (r : WriteGuard × Writer × Option WriteError). r.2) all,
        )

    -- After chunk `i` was written, one more turn is known.
    one_more :
        {cr : ChunkResult Error} (flush_ok : Bool)
        (o : WritesOne s.dispatch.written cr s.guard s.writer)
        → s.dispatch.written < n_chunks j
        → let (bytes, e) = write_slice cr j.start j.stop s.writer.room in
          flushed flush_ok e ≡ none
          → Upto j g0 w0 P
              (suc s.dispatch.written)
              (end (is_buffer cr.via) s.guard)
              (write_body bytes s.writer)
    unfolding the_turn
    one_more flush_ok o lt x =
        let t : Turn = the_turn flush_ok o in
        record {
          ts = next_turns j g0 w0 P o.upto t;
          sound = next_sound j g0 w0 P o.upto t o.delivered;
          same = λ turns agree.
              let (same, here) = next_same j g0 w0 P o.upto t turns agree in
              let (a, b, c) = the_write flush_ok o turns here in
              same
              ∙ rest_more j turns o.base o.before s.dispatch.written lt
                  (ap (λ (x : Turn). x.arrival) here) o.fine (a, b, c ∙ x);
        }

    cut_short :
        {cr : ChunkResult Error} (flush_ok : Bool) {why : WriteError}
        (o : WritesOne s.dispatch.written cr s.guard s.writer)
        → s.dispatch.written < n_chunks j
        → let (bytes, e) = write_slice cr j.start j.stop s.writer.room in
          flushed flush_ok e ≡ some why
          → Ending j g0 w0 P (some (write_failed why)) none (write_body bytes s.writer)
    unfolding the_turn
    cut_short flush_ok o lt x =
        ending j g0 w0 P o.upto (the_turn flush_ok o) o.delivered (λ turns here.
          let (a, b, c) = the_write flush_ok o turns here in
          rest_short j turns o.base o.before s.dispatch.written lt
            (ap (λ (x : Turn). x.arrival) here) o.fine (a, b, c ∙ x))

    pub end_write-View :
        (cr : ChunkResult Error) (flush_ok : Bool)
        → s.dispatch.written < n_chunks j
        → s.place ≡ writing cr
        → View (end_write j cr flush_ok s)
    unfolding end_write after_write write_head end_context refuse
    end_write-View cr flush_ok lt p =
        after (flushed flush_ok (write_slice cr j.start j.stop s.writer.room).1) refl
      where
        at : WritesOne s.dispatch.written cr s.guard s.writer
        at = at_place s (writing cr) p v

        -- A write that failed adds nothing to what was written.
        refused :
            (why : WriteError)
            → flushed flush_ok (write_slice cr j.start j.stop s.writer.room).1 ≡ some why
            → let w' = write_body (write_slice cr j.start j.stop s.writer.room).0 s.writer in
              Ending j g0 w0 P
                (some (write_failed why))
                none
                (refuse (is_first s.dispatch.written) (write_failed why) w')
        refused why x =
            rw (refuse_write (is_first s.dispatch.written) why _) (cut_short flush_ok at lt x)

        after :
            (e : Option WriteError)
            → flushed flush_ok (write_slice cr j.start j.stop s.writer.room).1 ≡ e
            → View (
                after_write e (record s {
                  guard = end (is_buffer cr.via) s.guard;
                  writer = write_body (write_slice cr j.start j.stop s.writer.room).0 s.writer;
                  closed = update s.closed s.dispatch.written (s.closed s.dispatch.written + 1);
                }))
        after none x = record {
          filled = v.filled;
          sees = record {
            base = end (is_buffer cr.via) s.guard;
            upto = rw add-one (one_more flush_ok at lt x);
            held = ([], refl);
          };
        }
        after (some why) x = record { filled = v.filled; sees = refused why x }
