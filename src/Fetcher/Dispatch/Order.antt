-- ===== src/Fetcher/Dispatch/Order.antt =====
-- services/fetcher.go, serveAligned: chunks are admitted in order, and the head chunk is never held up
-- by those behind it.
use s3_cache.Prelude.{
  ℕ, ◌+◌, ◌-◌, ◌<◌, ◌≤◌, ◌≡◌, ◌≢◌, ◌⊎◌, refl, inl, inr, true, false, arith, Bool-cases,
}
use native.Mathlib.Decide.{dec_lt}
use s3_cache.Prelude.Int.{ℤ}
use s3_cache.Fetcher.Dispatch.{
  Phase, idle, queued, admitted, arrived, Dispatch, window_of, new_dispatch, can_start, start_next,
  admit_chunk, arrive, write_head, end_context,
}

-- A request's chunks over any interleaving of the dispatcher, the fetches and the consumer.
pub data Run (workers : ℤ) (n : ℕ) : Dispatch → Type 0 where
  start : Run workers n (new_dispatch workers n)
  starts : {d : Dispatch} → can_start d ≡ true → Run workers n d → Run workers n (start_next d)
  admits :
      {d : Dispatch} (i : ℕ)
      → d.phases i ≡ queued
      → Run workers n d
      → Run workers n (admit_chunk i d)
  arrives :
      {d : Dispatch} (i : ℕ) → d.phases i ≡ admitted → Run workers n d → Run workers n (arrive i d)
  writes :
      {d : Dispatch} → d.phases d.written ≡ arrived → Run workers n d → Run workers n (write_head d)
  ends : {d : Dispatch} → Run workers n d → Run workers n (end_context d)

pub record Inv (workers : ℤ) (n : ℕ) (d : Dispatch) : Type 0 where
  pub same_window : d.window ≡ window_of workers
  pub same_count : d.n_chunks ≡ n
  pub counted : d.slots + d.written ≡ d.next
  pub bounded : d.slots ≤ d.window
  pub within : d.next ≤ n
  pub fresh : (i : ℕ) → d.next ≤ i → d.phases i ≡ idle
  pub begun : (i : ℕ) → i < d.next → d.phases i ≢ idle
  pub last_queued : (i : ℕ) → d.phases i ≡ queued → i + 1 ≡ d.next
  pub held : d.waiting ≡ true → (0 < d.next) × ((i : ℕ) → i + 1 ≡ d.next → d.phases i ≡ queued)
  pub finished : (i : ℕ) → i < d.written → d.phases i ≡ arrived
  pub waits : d.waiting ≡ false → d.ended ≡ false → (i : ℕ) → d.phases i ≢ queued

module _ {workers : ℤ} {n : ℕ} {d : Dispatch} where
  start_next-Inv : can_start d ≡ true → Inv workers n d → Inv workers n (start_next d)
  unfolding can_start start_next
  start_next-Inv h v =
      let free : d.waiting ≡ false = ground arith in
      let open_still : d.ended ≡ false = ground arith in
      record {
        same_window = v.same_window;
        same_count = v.same_count;
        counted = ground (arith, v.counted);
        bounded = ground (arith, h);
        within = ground (arith, h, v.same_count);
        fresh = λ i p. ground (arith, v.fresh i);
        begun = λ i p. ground (arith, v.begun i);
        last_queued = λ i p. ground (arith, v.waits free open_still i);
        held = λ w. (omega arith, λ i p. ground arith);
        finished = λ i p. ground (arith, v.finished i, v.counted);
        waits = λ w. absurd (ground arith);
      }

  admit_chunk-Inv :
      (i : ℕ) → d.phases i ≡ queued → Inv workers n d → Inv workers n (admit_chunk i d)
  unfolding admit_chunk
  admit_chunk-Inv i h v =
      let last : i + 1 ≡ d.next = v.last_queued i h in
      record {
        same_window = v.same_window;
        same_count = v.same_count;
        counted = v.counted;
        bounded = v.bounded;
        within = v.within;
        fresh = λ j p. ground (arith, v.fresh j);
        begun = λ j p. ground (arith, v.begun j);
        last_queued = λ j p. ground (arith, v.last_queued j);
        held = λ w. absurd (ground (arith, last));
        finished = λ j p. ground (arith, v.finished j);
        waits = λ w e j p. ground (arith, v.last_queued j);
      }

  arrive-Inv : (i : ℕ) → d.phases i ≡ admitted → Inv workers n d → Inv workers n (arrive i d)
  unfolding arrive
  arrive-Inv i h v = record {
    same_window = v.same_window;
    same_count = v.same_count;
    counted = v.counted;
    bounded = v.bounded;
    within = v.within;
    fresh = λ j p. ground (arith, v.fresh j, v.fresh i);
    begun = λ j p. ground (arith, v.begun j);
    last_queued = λ j p. ground (arith, v.last_queued j);
    held = λ w. ((v.held w).0, λ j p. ground (arith, (v.held w).1 j));
    finished = λ j p. ground (arith, v.finished j);
    waits = λ w e j p. ground (arith, v.waits w e j);
  }

  write_head-Inv : d.phases d.written ≡ arrived → Inv workers n d → Inv workers n (write_head d)
  unfolding write_head
  write_head-Inv h v =
      let started : d.written < d.next = elim (dec_lt d.written d.next) [
        | yes p ↦ p
        | no p ↦ absurd (ground (arith, v.fresh d.written))
      ] in
      record {
        same_window = v.same_window;
        same_count = v.same_count;
        counted = omega (arith, v.counted);
        bounded = omega (arith, v.bounded);
        within = v.within;
        fresh = v.fresh;
        begun = v.begun;
        last_queued = v.last_queued;
        held = v.held;
        finished = λ j p. ground (arith, v.finished j);
        waits = v.waits;
      }

  end_context-Inv : Inv workers n d → Inv workers n (end_context d)
  unfolding end_context
  end_context-Inv v = record {
    same_window = v.same_window;
    same_count = v.same_count;
    counted = v.counted;
    bounded = v.bounded;
    within = v.within;
    fresh = v.fresh;
    begun = v.begun;
    last_queued = v.last_queued;
    held = λ w. absurd (cc);
    finished = v.finished;
    waits = λ w e. absurd (cc);
  }

pub Run-Inv : {workers : ℤ} {n : ℕ} {d : Dispatch} → Run workers n d → Inv workers n d
unfolding new_dispatch
Run-Inv start = record {
  same_window = refl;
  same_count = refl;
  counted = omega arith;
  bounded = omega arith;
  within = omega arith;
  fresh = λ i p. refl;
  begun = λ i p. absurd (omega arith);
  last_queued = λ i p. cc;
  held = λ w. absurd (cc);
  finished = λ i p. absurd (omega arith);
  waits = λ w e i p. cc;
}
Run-Inv (starts h r) = start_next-Inv h (Run-Inv r)
Run-Inv (admits i h r) = admit_chunk-Inv i h (Run-Inv r)
Run-Inv (arrives i h r) = arrive-Inv i h (Run-Inv r)
Run-Inv (writes h r) = write_head-Inv h (Run-Inv r)
Run-Inv (ends r) = end_context-Inv (Run-Inv r)

-- No longer waits for budget: the fetch holds a unit, or the result is there.
abbrev pub Admitted : Phase → Type 0
Admitted ph = (ph ≡ admitted) ⊎ (ph ≡ arrived)

Phase-Admitted : (ph : Phase) → ph ≢ idle → ph ≢ queued → Admitted ph
Phase-Admitted idle h k = absurd (h refl)
Phase-Admitted queued h k = absurd (k refl)
Phase-Admitted admitted h k = inl refl
Phase-Admitted arrived h k = inr refl

-- While a chunk is being fetched or was, every chunk before it has been admitted: a request never holds
-- budget for a chunk while an earlier one waits for it. And it runs ahead of its consumer by no more
-- chunks than the window, which is the number of workers, but at least 4.
pub in_order :
    {workers : ℤ} {n : ℕ} {d : Dispatch}
    → Run workers n d
    → ((i j : ℕ) → i < j → d.phases j ≢ idle → Admitted (d.phases i))
      × (d.slots ≡ d.next - d.written)
      × (d.next ≤ d.written + window_of workers)
      × (d.next ≤ n)
in_order {d = d} r =
    let v = Run-Inv r in
    let started : (j : ℕ) → d.phases j ≢ idle → j < d.next =
      λ j h. elim (dec_lt j d.next) [ yes p ↦ p | no p ↦ absurd (h (v.fresh j (omega arith))) ] in
    (
      λ i j lt h.
          Phase-Admitted (d.phases i) (v.begun i (omega (arith, started j h)))
            (λ q. absurd (omega (arith, v.last_queued i q, started j h))),
      omega (arith, v.counted),
      omega (arith, v.counted, v.bounded, v.same_window),
      v.within,
    )

window_pos : (workers : ℤ) → 4 ≤ window_of workers
window_pos workers = ground arith

-- The request does not stall by itself: until its last chunk is written, and unless its context ends,
-- the chunk that the consumer needs next has arrived, or its fetch is under way, or the dispatcher
-- can start it at once.
pub head_advances :
    {workers : ℤ} {n : ℕ} {d : Dispatch}
    → Run workers n d
    → d.ended ≡ false
    → d.written < n
    → (d.phases d.written ≡ arrived)
      ⊎ ((d.phases d.written ≡ queued)
          ⊎ ((d.phases d.written ≡ admitted) ⊎ ((d.next ≡ d.written) × (can_start d ≡ true))))
unfolding can_start
head_advances {workers} {n} {d} r live more =
    let v = Run-Inv r in
    elim (dec_lt d.written d.next) [
      | yes p ↦ of_phase (d.phases d.written) (v.begun d.written p)
      | no p ↦
          let at_head : d.next ≡ d.written = omega (arith, v.counted) in
          inr (inr (inr (at_head, idle_loop v at_head)))
    ]
  where
    of_phase :
        (ph : Phase)
        → ph ≢ idle
        → (ph ≡ arrived)
          ⊎ ((ph ≡ queued) ⊎ ((ph ≡ admitted) ⊎ ((d.next ≡ d.written) × (can_start d ≡ true))))
    of_phase idle h = absurd (h refl)
    of_phase queued h = inr (inl refl)
    of_phase admitted h = inr (inr (inl refl))
    of_phase arrived h = inl refl

    idle_loop : Inv workers n d → d.next ≡ d.written → can_start d ≡ true
    idle_loop v at_head = elim (Bool-cases d.waiting) [
      | inl w ↦
          let (pos_next, last) = v.held w in
          absurd (ground (arith, last (d.next - 1), v.finished (d.next - 1)))
      | inr w ↦ ground (arith, w, live, v.counted, v.same_window, v.same_count, window_pos workers)
    ]
