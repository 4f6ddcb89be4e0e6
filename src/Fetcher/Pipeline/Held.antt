-- ===== src/Fetcher/Pipeline/Held.antt =====
-- services/fetcher.go, serveAligned: what the write guard (WriteGuard) counts of the whole system.
use s3_cache.Prelude.{
  ℕ, zero, suc, ◌+◌, ◌^◌, ◌<◌, ◌≤◌, ◌≡◌, ◌≢◌, refl, ap, sym, ◌∙◌, subst, Option, none, some, Bool,
  true, false, arith, if◌then◌else◌, Result, sum_of, sum_of_update,
}
use native.Mathlib.Numerals.{add-one}
use native.Mathlib.Decide.{dec_lt}
use s3_cache.Prelude.Int.{ℤ}
use s3_cache.Singleflight.{update}
use s3_cache.Chunk.{ChunkResult, WriteError, write_slice}
use s3_cache.Http.{Error, write_body}
use s3_cache.WriteGuard.{WriteGuard, hold, begin, end}
use s3_cache.WriteGuard.Trace
use s3_cache.Fetcher.Dispatch.{
  Phase, idle, queued, admitted, arrived, Dispatch, admit_chunk, arrive, write_head, end_context,
}
use s3_cache.Fetcher.Dispatch.Order.{Run, Run-Inv}
use s3_cache.Fetcher.Serve.{Job, n_chunks, flushed, is_buffer, placed}
use s3_cache.Fetcher.Pipeline.{
  Place, reading, writing, Pipeline, on_dispatch, fetched_result, hand_over, begin_write,
  after_write, end_write,
}
use s3_cache.Fetcher.Pipeline.Account.{Books, at_work, flag, delivered, filled-lt}

-- Whether a result is a buffer that holds budget.
abbrev pub buffer_count : Option (ChunkResult Error) → ℕ
buffer_count none = 0
buffer_count (some cr) = flag (is_buffer cr.via)

abbrev pub is_writing : Place → Bool
is_writing (writing cr) = true
is_writing _ = false

abbrev pub hand_count : Place → ℕ
hand_count (writing cr) = buffer_count (some cr)
hand_count _ = 0

-- The buffers that are delivered and not yet written.
abbrev pub buffers : Job → Pipeline → ℕ
buffers j s = sum_of buffer_count (n_chunks j) s.channels + hand_count s.place

hold-writing : (now : ℤ) (g : WriteGuard) → (hold now g).writing ≡ g.writing
unfolding hold
hold-writing now g = ground arith

begin-writing : (now : ℤ) (g : WriteGuard) → (begin now g).writing ≡ true
unfolding begin
begin-writing now g = ground arith

end-writing : (b : Bool) (g : WriteGuard) → (end b g).writing ≡ false
unfolding end
end-writing b g = ground arith

delivered_count-le : (n : ℕ) (f : ℕ → Phase) → sum_of delivered n f ≤ n
delivered_count-le zero f = omega arith
delivered_count-le (suc n) f = ground (arith, delivered_count-le n f)

flag-le : (b : Bool) → flag b ≤ 1
flag-le true = omega arith
flag-le false = omega arith

hold_if-writing :
    (b : Bool) (now : ℤ) (g : WriteGuard) → (if b then hold now g else g).writing ≡ g.writing
hold_if-writing true now g = hold-writing now g
hold_if-writing false now g = refl

hold-Run :
    {settable : Bool} {timeout : ℤ} {n : ℕ} {g : WriteGuard} (b : Bool) (now : ℤ)
    → suc n < 2 ^ 63
    → Trace.Run settable timeout n g
    → Trace.Run settable timeout (n + flag b) (if b then hold now g else g)
hold-Run true now h r = rw add-one (Trace.holds now h r)
hold-Run {settable} {timeout} {n} {g} false now h r =
    subst (λ m. Trace.Run settable timeout m g) (omega arith) r

pub record Guarded (settable : Bool) (timeout : ℤ) (j : Job) (s : Pipeline) : Type 0 where
  pub count : ℕ
  pub run : Trace.Run settable timeout count s.guard
  pub few : count ≤ sum_of delivered (n_chunks j) s.dispatch.phases
  pub writes : s.guard.writing ≡ is_writing s.place
  pub exact : at_work s.place ≡ true → count ≡ buffers j s

started-lt :
    {workers : ℤ} {n : ℕ} {d : Dispatch}
    → Run workers n d
    → (i : ℕ) (ph : Phase) → d.phases i ≡ ph
    → ph ≢ idle
    → i < n
started-lt {n = n} run i ph h started = elim (dec_lt i n) [
  | yes lt ↦ lt
  | no ge ↦ let w = Run-Inv run in absurd (started (sym h ∙ w.fresh i (omega (arith, w.within))))
]

module _ {settable : Bool} {timeout : ℤ} {workers : ℤ} {j : Job} {s : Pipeline}
    (b : Books workers j s) (v : Guarded settable timeout j s) where
  -- A chunk goes on, and is not delivered by that.
  pub phase-Guarded :
      (d : Dispatch)
      → sum_of delivered (n_chunks j) s.dispatch.phases ≤ sum_of delivered (n_chunks j) d.phases
      → Guarded settable timeout j (record s { dispatch = d })
  phase-Guarded d h = record {
    count = v.count;
    run = v.run;
    few = omega (arith, v.few, h);
    writes = v.writes;
    exact = v.exact;
  }

  -- A chunk whose result is not there yet is one of the request's, and its channel is empty.
  admitted-empty :
      (i : ℕ)
      → s.dispatch.phases i ≡ admitted
      → (i < n_chunks j) × (buffer_count (s.channels i) ≡ 0)
  admitted-empty i h = (started-lt b.run i admitted h (λ e. cc), ground (arith, b.accounted i, h))

  pub admit_chunk-Guarded :
      (i : ℕ)
      → s.dispatch.phases i ≡ queued
      → Guarded settable timeout j (on_dispatch (admit_chunk i) s)
  unfolding on_dispatch admit_chunk
  admit_chunk-Guarded i h =
      let lt = started-lt b.run i queued h (λ e. cc) in
      phase-Guarded _ (
        omega (
          arith,
          ap delivered h,
          sum_of_update delivered (n_chunks j) s.dispatch.phases i admitted lt,
        ))

  pub hand_over-Guarded :
      (i : ℕ) (r : Result Error (ChunkResult Error)) (now : ℤ)
      → n_chunks j < 2 ^ 63
      → s.dispatch.phases i ≡ admitted
      → Guarded settable timeout j (hand_over j i r now s)
  unfolding hand_over arrive
  hand_over-Guarded i r now small h =
      let cr : ChunkResult Error = placed j i (fetched_result r) in
      let (lt, empty) = admitted-empty i h in
      let more = sum_of_update delivered (n_chunks j) s.dispatch.phases i arrived lt in
      let none_before : delivered (s.dispatch.phases i) ≡ 0 = ap delivered h in
      record {
        count = v.count + flag (is_buffer cr.via);
        run =
            hold-Run (is_buffer cr.via) now
              (omega (
                arith,
                v.few,
                more,
                none_before,
                small,
                delivered_count-le (n_chunks j) (update s.dispatch.phases i arrived),
              ))
              v.run;
        few = omega (arith, v.few, more, none_before, flag-le (is_buffer cr.via));
        writes = hold_if-writing (is_buffer cr.via) now s.guard ∙ v.writes;
        exact = λ w. omega (
          arith,
          v.exact w,
          empty,
          sum_of_update buffer_count (n_chunks j) s.channels i (some cr) lt,
        );
      }

  pub begin_write-Guarded :
      (cr : ChunkResult Error) (now : ℤ)
      → s.place ≡ reading
      → s.channels s.dispatch.written ≡ some cr
      → Guarded settable timeout j (begin_write j cr now s)
  unfolding begin_write
  begin_write-Guarded cr now p h =
      let lt = filled-lt b s.dispatch.written h in
      record {
        count = v.count;
        run = Trace.begins now (v.writes ∙ ap is_writing p) v.run;
        few = v.few;
        writes = begin-writing now s.guard;
        exact = λ w. omega (
          arith,
          v.exact (ap at_work p),
          ap hand_count p,
          ap buffer_count h,
          sum_of_update buffer_count (n_chunks j) s.channels s.dispatch.written none lt,
        );
      }

  at_place : (p : Place) → s.place ≡ p → s.guard.writing ≡ is_writing p
  at_place p e = v.writes ∙ ap is_writing e

  -- The consumer stops without a write.
  pub stopped-Guarded :
      (s' : Pipeline)
      → s'.guard ≡ s.guard
      → s'.dispatch.phases ≡ s.dispatch.phases
      → is_writing s.place ≡ false
      → is_writing s'.place ≡ false
      → at_work s'.place ≡ false
      → Guarded settable timeout j s'
  stopped-Guarded s' same_guard same_phases idle_before idle_after over = record {
    count = v.count;
    run = subst (λ g. Trace.Run settable timeout v.count g) (sym same_guard) v.run;
    few = subst (λ f. v.count ≤ sum_of delivered (n_chunks j) f) (sym same_phases) v.few;
    writes =
        ap (λ (g : WriteGuard). g.writing) same_guard ∙ v.writes ∙ idle_before ∙ sym idle_after;
    exact = λ w. absurd (ground (arith, w, over));
  }

  -- The write of a chunk ends.
  ended-Run :
      (cr : ChunkResult Error)
      → s.place ≡ writing cr
      → (m : ℕ) × (v.count ≡ m + flag (is_buffer cr.via))
        × Trace.Run settable timeout m (end (is_buffer cr.via) s.guard)
  ended-Run cr p = ended (is_buffer cr.via) refl
    where
      ended :
          (buffered : Bool)
          → is_buffer cr.via ≡ buffered
          → (m : ℕ) × (v.count ≡ m + flag buffered)
            × Trace.Run settable timeout m (end buffered s.guard)
      ended true e =
          let m : ℕ = sum_of buffer_count (n_chunks j) s.channels in
          let one_more : v.count ≡ suc m =
            omega (arith, v.exact (ap at_work p), ap hand_count p, ap flag e) in
          (
            m,
            omega (arith, one_more),
            Trace.ends_buffered (at_place (writing cr) p)
                (subst (λ k. Trace.Run settable timeout k s.guard) one_more v.run),
          )
      ended false e = (v.count, omega arith, Trace.ends_cached (at_place (writing cr) p) v.run)

  pub end_write-Guarded :
      (cr : ChunkResult Error) (flush_ok : Bool)
      → s.place ≡ writing cr
      → Guarded settable timeout j (end_write j cr flush_ok s)
  unfolding end_write after_write write_head end_context
  end_write-Guarded cr flush_ok p =
      after (flushed flush_ok (write_slice cr j.start j.stop s.writer.room).1)
    where
      after :
          (e : Option WriteError)
          → Guarded settable timeout j (
              after_write e (record s {
                guard = end (is_buffer cr.via) s.guard;
                writer = write_body (write_slice cr j.start j.stop s.writer.room).0 s.writer;
                closed = update s.closed s.dispatch.written (s.closed s.dispatch.written + 1);
              }))
      after none =
          let (m, same, run) = ended-Run cr p in
          record {
            count = m;
            run = run;
            few = omega (arith, v.few, same);
            writes = end-writing (is_buffer cr.via) s.guard;
            exact = λ w. omega (arith, same, v.exact (ap at_work p), ap hand_count p);
          }
      after (some why) =
          let (m, same, run) = ended-Run cr p in
          record {
            count = m;
            run = run;
            few = omega (arith, v.few, same);
            writes = end-writing (is_buffer cr.via) s.guard;
            exact = λ w. absurd (cc);
          }
