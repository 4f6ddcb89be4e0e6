-- ===== src/Fetcher/Resolve/Agrees.antt =====
-- The span that Get serves is the one that the form of the range stands for.
use s3_cache.Prelude.{ℕ, ◌+◌, ◌-◌, ◌^◌, ◌<◌, ◌≤◌, ◌≡◌, true, false, arith, ltb, if◌then◌else◌, min}
use s3_cache.Prelude.Int.{ℤ, pos, minus_one, sub64}
use s3_cache.Web.Range.{Range}
use s3_cache.Web.Range.Forms.{Form, from, between, last, meaning, IsProper}
use s3_cache.Fetcher.Resolve.{Span, Resolved, unsatisfiable, span, resolve}

-- The bytes [lo, lo + len) of an object.
pub data Part : Type 0 where
  nothing : Part
  piece : ℕ → ℕ → Part

-- The part of an object of `total` bytes that a form selects; `nothing` is what RFC 9110 calls
-- unsatisfiable.
abbrev pub selected : Form → ℕ → Part
selected (from s) total = if ltb s total then piece s (total - s) else nothing
selected (between s e) total = if ltb s total then piece s (min (e + 1) total - s) else nothing
selected (last n) total = if ltb 0 total then piece (total - n) (total - (total - n)) else nothing

abbrev span_part : ℤ → ℤ → Part
span_part (pos s) (pos e) = piece s (e + 1 - s)
span_part _ _ = nothing

-- The part that a resolved request stands for.
abbrev pub part : Resolved → Part
part (unsatisfiable start total) = nothing
part (span s) = span_part s.start s.end

-- A request with no range is for the whole object.
pub resolve_whole :
    (total : ℕ)
    → 0 < total
    → total < 2 ^ 63
    → resolve (pos 0) minus_one (pos 0) false (pos total)
      ≡ span (record { start = pos 0; end = pos (total - 1) })
unfolding resolve sub64
resolve_whole total h k = ground arith

-- A span that is served for a proper form lies in the object.
pub resolve_bounds :
    (f : Form) (total : ℕ) (s : Span)
    → IsProper f
    → total < 2 ^ 63
    → let r : Range = meaning f in
      resolve r.start r.end r.suffix_len true (pos total) ≡ span s
      → (a : ℕ) × (b : ℕ) × (s.start ≡ pos a) × (s.end ≡ pos b) × (a ≤ b) × (b < total)
unfolding resolve sub64
resolve_bounds (from a) total s h k e =
    (a, total - 1, ground arith, ground arith, ground arith, ground arith)
resolve_bounds (between a b) total s h k e =
    (a, min b (total - 1), ground arith, ground arith, ground arith, ground arith)
resolve_bounds (last n) total s h k e =
    (total - n, total - 1, ground arith, ground arith, ground arith, ground arith)
