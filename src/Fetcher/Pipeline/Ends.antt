-- ===== src/Fetcher/Pipeline/Ends.antt =====
-- services/fetcher.go, serveAligned: the whole system comes to its return.
use s3_cache.Prelude.{
  ℕ, suc, ◌+◌, ◌*◌, ◌<◌, ◌≤◌, ◌≡◌, ◌≢◌, ◌⊎◌, refl, ap, sym, ◌∙◌, inl, inr, Option, none, some, Bool,
  true, false, arith, Bool-cases, Option-cases, any, any-witness, any-none,
}
use native.Mathlib.Decide.{dec_lt}
use s3_cache.Prelude.Int.{ℤ}
use s3_cache.Chunk.{ChunkResult, WriteError, write_slice}
use s3_cache.Http.{Writer, Error}
use s3_cache.WriteGuard.{WriteGuard}
use s3_cache.Fetcher.Dispatch.{
  Phase, idle, queued, admitted, arrived, Dispatch, new_dispatch, start_next, admit_chunk, arrive,
  write_head, end_context, can_start,
}
use s3_cache.Fetcher.Dispatch.Order.{Run, Run-Inv, head_advances}
use s3_cache.Fetcher.Dispatch.Ends.{rank, total, total_next, total-le}
use s3_cache.Fetcher.Serve.{ServeError, Job, n_chunks, flushed}
use s3_cache.Fetcher.Pipeline.{
  Place, reading, writing, aborting, returned, Pipeline, new_pipeline, on_dispatch, hand_over,
  begin_write, start_abort, take_error, after_write, end_write, return_error, return_ok, AllDone,
  Serving, begins, starts, admits, leaves, hands_over, takes, takes_error, stops, ends_write, fails,
  succeeds,
}
use s3_cache.Fetcher.Pipeline.Account.{Books, at_work}
use s3_cache.Fetcher.Pipeline.Books.{Serving-Books}

module _ {workers : ℤ} {j : Job} {g : WriteGuard} {w : Writer}
    {P : ℕ → ChunkResult Error → Type 0} where
  -- The steps of a request, but for the end of its context from outside.
  pub steps : {s : Pipeline} → Serving workers j g w P s → ℕ
  steps begins = 0
  steps (starts h r) = suc (steps r)
  steps (admits i h r) = suc (steps r)
  steps (leaves r) = steps r
  steps (hands_over i res now h d r) = suc (steps r)
  steps (takes cr now p h fine r) = suc (steps r)
  steps (takes_error cr e p h bad r) = suc (steps r)
  steps (stops p more gone r) = suc (steps r)
  steps (ends_write cr flush_ok p r) = suc (steps r)
  steps (fails e p done r) = suc (steps r)
  steps (succeeds p more all done r) = suc (steps r)

abbrev place_rank : Place → ℕ
place_rank reading = 0
place_rank (writing cr) = 1
place_rank (aborting e) = 2
place_rank (returned f k) = 3

abbrev work_done : ℕ → Pipeline → ℕ
work_done n s = total n s.dispatch.phases + 2 * s.dispatch.written + place_rank s.place

begun-lt :
    {workers : ℤ} {n : ℕ} {d : Dispatch} → Run workers n d → (i : ℕ) → d.phases i ≢ idle → i < n
begun-lt {n = n} {d} r i h =
    let v = Run-Inv r in
    elim (dec_lt i n) [ yes lt ↦ lt | no ge ↦ absurd (h (v.fresh i (omega (arith, v.within)))) ]

begun :
    {workers : ℤ} {n : ℕ} {d : Dispatch} (ph : Phase)
    → Run workers n d
    → (i : ℕ) → d.phases i ≡ ph
    → ph ≢ idle
    → i < n
begun ph r i e h = begun-lt r i (λ q. h (sym e ∙ q))

after_write-done :
    (n : ℕ) (s : Pipeline) (e : Option WriteError)
    → place_rank s.place ≡ 1
    → suc (work_done n s) ≤ work_done n (after_write e s)
unfolding after_write write_head end_context
after_write-done n s none h = omega (arith, h)
after_write-done n s (some why) h = omega (arith, h)

steps-le :
    {workers : ℤ} {j : Job} {g : WriteGuard} {w : Writer} {P : ℕ → ChunkResult Error → Type 0}
    {s : Pipeline} (r : Serving workers j g w P s)
    → steps r ≤ work_done (n_chunks j) s
unfolding steps new_pipeline new_dispatch on_dispatch start_next admit_chunk arrive end_context
    hand_over begin_write take_error start_abort return_error return_ok can_start end_write
steps-le {j = j} begins = omega arith
steps-le {j = j} (starts {s} h r) =
    let v = Run-Inv (Serving-Books r).run in
    let more : s.dispatch.next < n_chunks j = ground (arith, h, v.same_count) in
    let up : rank queued ≡ rank (s.dispatch.phases s.dispatch.next) + 1 =
      ground (arith, v.fresh s.dispatch.next) in
    omega
      (arith, steps-le r, total_next (n_chunks j) s.dispatch.phases s.dispatch.next queued more up)
steps-le {j = j} (admits {s} i h r) =
    let up : rank admitted ≡ rank (s.dispatch.phases i) + 1 = ground (arith, h) in
    let lt = begun queued (Serving-Books r).run i h (λ e. cc) in
    omega (arith, steps-le r, total_next (n_chunks j) s.dispatch.phases i admitted lt up)
steps-le (leaves r) = steps-le r
steps-le {j = j} (hands_over {s} i res now h d r) =
    let up : rank arrived ≡ rank (s.dispatch.phases i) + 1 = ground (arith, h) in
    let lt = begun admitted (Serving-Books r).run i h (λ e. cc) in
    omega (arith, steps-le r, total_next (n_chunks j) s.dispatch.phases i arrived lt up)
steps-le (takes cr now p h fine r) = omega (arith, steps-le r, ap place_rank p)
steps-le (takes_error cr e p h bad r) = omega (arith, steps-le r, ap place_rank p)
steps-le (stops p more gone r) = omega (arith, steps-le r, ap place_rank p)
steps-le {j = j} (ends_write {s} cr flush_ok p r) = omega (
  arith,
  steps-le r,
  after_write-done (n_chunks j) _ (flushed flush_ok (write_slice cr j.start j.stop s.writer.room).1)
      (ap place_rank p),
)
steps-le (fails e p done r) = omega (arith, steps-le r, ap place_rank p)
steps-le (succeeds p more all done r) = omega (arith, steps-le r, ap place_rank p)

-- What can be done next, if not by the end of the context from outside: by the dispatcher, by the
-- fetch of a chunk, or by the consumer, which takes a result, ends a write, gives up because the
-- context has ended, or returns.
pub data CanGo (j : Job) (s : Pipeline) : Type 0 where
  to_start : can_start s.dispatch ≡ true → CanGo j s
  to_admit : (i : ℕ) → s.dispatch.phases i ≡ queued → CanGo j s
  to_hand_over : (i : ℕ) → s.dispatch.phases i ≡ admitted → CanGo j s
  to_take :
      (cr : ChunkResult Error)
      → s.place ≡ reading
      → s.channels s.dispatch.written ≡ some cr
      → CanGo j s
  to_stop :
      s.place ≡ reading → s.dispatch.written < n_chunks j → s.dispatch.ended ≡ true → CanGo j s
  to_end_write : (cr : ChunkResult Error) → s.place ≡ writing cr → CanGo j s
  to_fail : (e : ServeError) → s.place ≡ aborting e → AllDone s.dispatch → CanGo j s
  to_succeed :
      s.place ≡ reading
      → 0 < s.dispatch.written
      → s.dispatch.written ≡ n_chunks j
      → AllDone s.dispatch
      → CanGo j s

is_busy : Phase → Bool
is_busy queued = true
is_busy admitted = true
is_busy _ = false

module _ {workers : ℤ} {j : Job} {s : Pipeline} (b : Books workers j s)
    (some_chunk : 0 < n_chunks j) where
  busy_goes : (i : ℕ) (ph : Phase) → is_busy ph ≡ true → s.dispatch.phases i ≡ ph → CanGo j s
  unfolding is_busy
  busy_goes i idle h e = absurd (cc)
  busy_goes i queued h e = to_admit i e
  busy_goes i admitted h e = to_hand_over i e
  busy_goes i arrived h e = absurd (cc)

  none_busy :
      any (n_chunks j) (λ i. is_busy (s.dispatch.phases i)) ≡ false
      → (i : ℕ) → i < n_chunks j
      → is_busy (s.dispatch.phases i) ≡ false
  none_busy h = any-none (n_chunks j) (λ i. is_busy (s.dispatch.phases i)) h

  -- Some fetch can go on, or none is under way.
  busy_or_done :
      (s.dispatch.ended ≡ true) ⊎ (s.dispatch.next ≡ s.dispatch.n_chunks)
      → CanGo j s ⊎ AllDone s.dispatch
  unfolding is_busy
  busy_or_done halted = elim (Bool-cases (any (n_chunks j) (λ i. is_busy (s.dispatch.phases i)))) [
    | inl h ↦
        let (i, lt, k) = any-witness (n_chunks j) _ h in
        inl (busy_goes i (s.dispatch.phases i) k refl)
    | inr h ↦ inr (record {
      halted = halted;
      quiet = λ i. (
        λ e. absurd (ground (arith, e, none_busy h i (begun queued b.run i e (λ q. cc)))),
        λ e. absurd (ground (arith, e, none_busy h i (begun admitted b.run i e (λ q. cc)))),
      );
    })
  ]

  reading_goes : s.place ≡ reading → CanGo j s
  reading_goes p = elim (dec_lt s.dispatch.written (n_chunks j)) [
    | yes more ↦ elim (Bool-cases s.dispatch.ended) [
      | inl gone ↦ to_stop p more gone
      | inr live ↦ elim (head_advances b.run live more) [
        | inl here ↦ elim (Option-cases (s.channels s.dispatch.written)) [
          | inl e ↦ absurd (
              ground (
                arith,
                e,
                here,
                p,
                b.accounted s.dispatch.written,
                b.ahead (ap at_work p) s.dispatch.written,
              ))
          | inr (cr, e) ↦ to_take cr p e
        ]
        | inr (inl e) ↦ to_admit s.dispatch.written e
        | inr (inr (inl e)) ↦ to_hand_over s.dispatch.written e
        | inr (inr (inr (_, can))) ↦ to_start can
      ]
    ]
    | no all ↦
        let v = Run-Inv b.run in
        elim (busy_or_done (inr (omega (arith, v.counted, v.within, v.same_count)))) [
          | inl go ↦ go
          | inr done ↦
              to_succeed p (omega (arith, v.counted, v.within)) (omega (arith, v.counted, v.within))
                done
        ]
  ]

  place_goes :
      (p : Place)
      → s.place ≡ p
      → ((f : Option ServeError) × (k : Option ℤ) × (s.place ≡ returned f k)) ⊎ CanGo j s
  place_goes reading e = inr (reading_goes e)
  place_goes (writing cr) e = inr (to_end_write cr e)
  place_goes (aborting x) e = elim (busy_or_done (inl (b.cut x e))) [
    | inl go ↦ inr go
    | inr done ↦ inr (to_fail x e done)
  ]
  place_goes (returned f k) e = inl (f, k, e)

place_rank-le : (p : Place) → place_rank p ≤ 3
place_rank-le reading = omega arith
place_rank-le (writing cr) = omega arith
place_rank-le (aborting e) = omega arith
place_rank-le (returned f k) = omega arith

-- serveAligned comes to its return: over every interleaving, a request of `n` chunks, at least one, takes at most
-- 5 n + 3 steps, besides the end of its context from outside, and after each of them it has returned,
-- or the dispatcher, a fetch that is under way or the consumer can go on.
pub serving_ends :
    {workers : ℤ} {j : Job} {g : WriteGuard} {w : Writer} {P : ℕ → ChunkResult Error → Type 0}
    {s : Pipeline} (r : Serving workers j g w P s)
    → 0 < n_chunks j
    → (steps r ≤ 5 * n_chunks j + 3)
      × (((f : Option ServeError) × (k : Option ℤ) × (s.place ≡ returned f k)) ⊎ CanGo j s)
serving_ends {j = j} {s = s} r some_chunk =
    let b = Serving-Books r in
    let v = Run-Inv b.run in
    (
      omega (
        arith,
        steps-le r,
        total-le (n_chunks j) s.dispatch.phases,
        place_rank-le s.place,
        v.counted,
        v.within,
      ),
      place_goes b some_chunk s.place refl,
    )
