-- ===== src/Fetcher/Serve/Plan.antt =====
-- The chunks of a request in plain numbers.
use s3_cache.Prelude.{ℕ, ◌+◌, ◌-◌, ◌*◌, ◌/◌, ◌^◌, ◌<◌, ◌≤◌, ◌≡◌, ap, min, max, arith, Bool}
use s3_cache.Prelude.Int.{pos, add64_pos, sub64_pos, mul64_pos, div64_pos}
use native.Mathlib.Nat.{le-div_iff_mul-le}
use s3_cache.Fetcher.Serve.{chunk_bounds, Job, n_chunks, first_chunk}

mul_mono : (a b c : ℕ) → a ≤ b → a * c ≤ b * c
mul_mono a b c h = grind arith

div_bounds : (n c : ℕ) → 0 < c → (n / c * c ≤ n) × (n < n / c * c + c)
div_bounds n c h = omega arith

le-mul : (n c : ℕ) → 0 < c → n ≤ n * c
le-mul n c h = grind arith

-- A chunk begins at a multiple of the chunk size and ends one before the next, or at the end of the
-- object; nothing overflows while the object and one more chunk fit an int64.
pub chunk_bounds_lem :
    (c total first idx : ℕ)
    → 0 < c
    → (first + idx) * c < total
    → total + c ≤ 2 ^ 63
    → chunk_bounds (pos c) (pos total) (pos first) idx ≡ record {
      c_start = pos ((first + idx) * c);
      c_end = pos (min ((first + idx) * c + c) total - 1);
    }
unfolding chunk_bounds
chunk_bounds_lem c total first idx hc ht hb =
    rw
      (
        add64_pos first idx (omega (arith, le-mul (first + idx) c hc)),
        mul64_pos (first + idx) c (omega arith),
        add64_pos ((first + idx) * c) c (omega arith),
        sub64_pos ((first + idx) * c + c) 1 (omega arith) (omega arith),
        sub64_pos total 1 (omega arith) (omega arith),
      )
      (ground arith)

-- A request for the bytes [s, e] of an object of `total` bytes, none of it out of range.
pub record Fits (c s e total : ℕ) : Type 0 where
  pub size_pos : 0 < c
  pub ordered : s ≤ e
  pub inside : e < total
  pub small : total + c ≤ 2 ^ 63

abbrev pub job : ℕ → ℕ → ℕ → ℕ → Bool → Job
job c s e total rr = record {
  chunk_size = pos c;
  start = pos s;
  stop = pos e;
  total = pos total;
  range_requested = rr;
}

-- Where chunk `i` of the request starts.
abbrev pub offset : ℕ → ℕ → ℕ → ℕ
offset c s i = (s / c + i) * c

-- The bytes of chunk `i` that the request asks for: [from, to).
abbrev pub from : ℕ → ℕ → ℕ → ℕ
from c s i = max s (offset c s i)

abbrev pub to : ℕ → ℕ → ℕ → ℕ → ℕ
to c s e i = min (e + 1) (offset c s i + c)

module _ {c s e total : ℕ} (f : Fits c s e total) where
  open f use {size_pos, ordered, inside, small}

  pub offset-le : (i : ℕ) → s / c + i ≤ e / c → offset c s i ≤ e
  offset-le i h = omega (arith, mul_mono (s / c + i) (e / c) c h, div_bounds e c size_pos)

  pub offset_zero : (offset c s 0 ≤ s) × (s < offset c s 0 + c)
  offset_zero = omega (arith, div_bounds s c size_pos)

  pub offset_suc : (i : ℕ) → offset c s (i + 1) ≡ offset c s i + c
  offset_suc i = omega arith

  pub offset_later : (i : ℕ) → 0 < i → s ≤ offset c s i
  offset_later i h =
      omega (arith, mul_mono (s / c + 1) (s / c + i) c (omega arith), div_bounds s c size_pos)

  pub offset_last : (i : ℕ) → s / c + i ≡ e / c + 1 → e < offset c s i
  offset_last i h = omega (arith, div_bounds e c size_pos, ap (λ (n : ℕ). n * c) h)

  -- The quotients are at most the numbers.
  pub div-le : (n : ℕ) → n / c ≤ n
  div-le n = omega (arith, div_bounds n c size_pos, le-mul (n / c) c size_pos)

  pub ordered_chunks : s / c ≤ e / c
  ordered_chunks = (le-div_iff_mul-le size_pos).1 (omega (arith, div_bounds s c size_pos))

  pub count : (rr : Bool) → n_chunks (job c s e total rr) ≡ e / c + 1 - s / c
  count rr =
      rw
        (
          div64_pos s c,
          div64_pos e c,
          sub64_pos (e / c) (s / c) ordered_chunks (omega (arith, div-le e)),
          add64_pos (e / c - s / c) 1 (omega (arith, div-le e)),
        )
        (omega (arith, ordered_chunks))

  pub bounds_lem :
      (rr : Bool) (i : ℕ)
      → s / c + i ≤ e / c
      → let j : Job = job c s e total rr in
        chunk_bounds j.chunk_size j.total (first_chunk j) i
        ≡ record { c_start = pos (offset c s i); c_end = pos (min (offset c s i + c) total - 1) }
  bounds_lem rr i h =
      rw (div64_pos s c)
        (chunk_bounds_lem c total (s / c) i size_pos (omega (arith, offset-le i h)) small)

  pub offset_reach : (i : ℕ) → s < offset c s i + c
  offset_reach i =
      omega (arith, mul_mono (s / c) (s / c + i) c (omega arith), div_bounds s c size_pos)
