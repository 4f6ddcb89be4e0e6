-- ===== src/Fetcher/Dispatch/Ends.antt =====
-- services/fetcher.go, serveAligned: the work on a request comes to an end.
use s3_cache.Prelude.{
  ℕ, zero, suc, ◌+◌, ◌*◌, ◌<◌, ◌≤◌, ◌≡◌, ◌≢◌, ◌⊎◌, refl, sym, ◌∙◌, inl, inr, true, false, arith,
}
use native.Mathlib.Decide.{dec_lt}
use s3_cache.Prelude.Int.{ℤ}
use s3_cache.Singleflight.{update}
use s3_cache.Fetcher.Dispatch.{
  Phase, idle, queued, admitted, arrived, Dispatch, new_dispatch, can_start, start_next,
  admit_chunk, arrive, write_head, end_context,
}
use s3_cache.Fetcher.Dispatch.Order.{
  Run, start, starts, admits, arrives, writes, ends, Inv, Run-Inv, head_advances,
}

-- The steps of a run, but for the end of the context.
pub steps : {workers : ℤ} {n : ℕ} {d : Dispatch} → Run workers n d → ℕ
steps start = 0
steps (starts h r) = suc (steps r)
steps (admits i h r) = suc (steps r)
steps (arrives i h r) = suc (steps r)
steps (writes h r) = suc (steps r)
steps (ends r) = steps r

abbrev pub rank : Phase → ℕ
rank idle = 0
rank queued = 1
rank admitted = 2
rank arrived = 3

abbrev pub total : ℕ → (ℕ → Phase) → ℕ
total zero f = 0
total (suc k) f = total k f + rank (f k)

total_beyond :
    (n : ℕ) (f : ℕ → Phase) (i : ℕ) (ph : Phase) → n ≤ i → total n (update f i ph) ≡ total n f
total_beyond zero f i ph h = refl
total_beyond (suc k) f i ph h = ground (arith, total_beyond k f i ph)

total_update :
    (n : ℕ) (f : ℕ → Phase) (i : ℕ) (ph : Phase)
    → i < n
    → total n (update f i ph) + rank (f i) ≡ total n f + rank ph
total_update zero f i ph h = absurd (omega arith)
total_update (suc k) f i ph h = ground (arith, total_beyond k f i ph, total_update k f i ph)

pub total-le : (n : ℕ) (f : ℕ → Phase) → total n f ≤ 3 * n
total-le zero f = omega arith
total-le (suc k) f = ground (arith, total-le k f)

total_arrived : (n : ℕ) (f : ℕ → Phase) → ((i : ℕ) → i < n → f i ≡ arrived) → total n f ≡ 3 * n
total_arrived zero f h = refl
total_arrived (suc k) f h = ground (arith, h k, total_arrived k f (λ i p. h i (omega arith)))

started : {workers : ℤ} {n : ℕ} {d : Dispatch} (i : ℕ) → Inv workers n d → d.phases i ≢ idle → i < n
started {n = n} {d} i v h = elim (dec_lt i n) [
  | yes p ↦ p
  | no p ↦ absurd (h (v.fresh i (omega (arith, v.within))))
]

pub total_idle : (n : ℕ) → total n (λ i. idle) ≡ 0
total_idle zero = refl
total_idle (suc k) = omega (arith, total_idle k)

-- A chunk that goes on by one phase.
pub total_next :
    (n : ℕ) (f : ℕ → Phase) (i : ℕ) (ph : Phase)
    → i < n
    → rank ph ≡ rank (f i) + 1
    → total n (update f i ph) ≡ total n f + 1
total_next n f i ph h e = omega (arith, total_update n f i ph h)

begun :
    {workers : ℤ} {n : ℕ} {d : Dispatch} (i : ℕ) (ph : Phase)
    → Inv workers n d
    → d.phases i ≡ ph
    → ph ≢ idle
    → i < n
begun i ph v e h = started i v (λ p. h (sym e ∙ p))

steps-total :
    {workers : ℤ} {n : ℕ} {d : Dispatch} (r : Run workers n d)
    → steps r ≡ total n d.phases + d.written
unfolding steps start_next admit_chunk arrive write_head end_context can_start new_dispatch
steps-total {n} start = omega (arith, total_idle n)
steps-total {n} (starts {d} h r) =
    let v = Run-Inv r in
    let more : d.next < n = ground (arith, h, v.same_count) in
    let up : rank queued ≡ rank (d.phases d.next) + 1 = ground (arith, v.fresh d.next) in
    omega (arith, steps-total r, total_next n d.phases d.next queued more up)
steps-total {n} (admits {d} i h r) =
    let up : rank admitted ≡ rank (d.phases i) + 1 = ground (arith, h) in
    omega (
      arith,
      steps-total r,
      total_next n d.phases i admitted (begun i queued (Run-Inv r) h (λ e. cc)) up,
    )
steps-total {n} (arrives {d} i h r) =
    let up : rank arrived ≡ rank (d.phases i) + 1 = ground (arith, h) in
    omega (
      arith,
      steps-total r,
      total_next n d.phases i arrived (begun i admitted (Run-Inv r) h (λ e. cc)) up,
    )
steps-total (writes h r) = omega (arith, steps-total r)
steps-total (ends r) = steps-total r

-- A step that brings the chunk on that the consumer needs next.
abbrev pub CanStep : Dispatch → Type 0
CanStep d =
    (d.phases d.written ≡ arrived)
    ⊎ ((d.phases d.written ≡ queued)
        ⊎ ((d.phases d.written ≡ admitted) ⊎ ((d.next ≡ d.written) × (can_start d ≡ true))))

-- The work on a request of `n` chunks ends: a run has at most 4 n steps, besides the end of its context,
-- and as long as the context has not ended, either all chunks are written, after exactly 4 n steps, or
-- fewer steps were taken and the chunk that the consumer needs next can be brought on by another.
pub run_bounded :
    {workers : ℤ} {n : ℕ} {d : Dispatch} (r : Run workers n d)
    → (steps r ≤ 4 * n)
      × (d.ended ≡ false
          → ((d.written ≡ n) × (steps r ≡ 4 * n))
            ⊎ ((d.written < n) × (steps r < 4 * n) × CanStep d))
run_bounded {n = n} {d} r =
    let v = Run-Inv r in
    let le : d.written ≤ n = omega (arith, v.counted, v.within) in
    (
      omega (arith, steps-total r, total-le n d.phases, le),
      λ live. elim (dec_lt d.written n) [
        | yes more ↦
            inr (more, omega (arith, steps-total r, total-le n d.phases), head_advances r live more)
        | no all ↦
            let same_n : d.written ≡ n = omega arith in
            inl (
              same_n,
              omega (
                arith,
                steps-total r,
                total_arrived n d.phases (λ i p. v.finished i (omega arith)),
              ),
            )
      ],
    )
