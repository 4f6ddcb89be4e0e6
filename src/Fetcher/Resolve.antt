-- ===== src/Fetcher/Resolve.antt =====
-- services/fetcher.go, Fetcher.Get: the span of bytes that a request asks for, once the size of the
-- object is known.
pub mod Agrees
use s3_cache.Prelude.{Bool, ◌&&◌, ◌||◌, if◌then◌else◌}
use s3_cache.Prelude.Int.{ℤ, pos, sub64, ltb_ℤ, leb_ℤ}

-- The variables `start` and `end`.
pub record Span : Type 0 where
  pub start : ℤ
  pub end : ℤ

pub data Resolved : Type 0 where
  unsatisfiable : ℤ → ℤ → Resolved
  span : Span → Resolved

-- "bytes=-N": the last N bytes, at most the whole object.
resolve_suffix : ℤ → ℤ → ℤ → ℤ → Span
resolve_suffix start end suffix_len total =
    if ltb_ℤ (pos 0) suffix_len
    then record {
      start = if ltb_ℤ (sub64 total suffix_len) (pos 0) then pos 0 else sub64 total suffix_len;
      end = sub64 total (pos 1);
    }
    else record { start = start; end = end }

clamp_end : ℤ → ℤ → ℤ
clamp_end end total =
    if ltb_ℤ end (pos 0) || ltb_ℤ (sub64 total (pos 1)) end then sub64 total (pos 1) else end

unfoldable pub resolve : ℤ → ℤ → ℤ → Bool → ℤ → Resolved
unfolding resolve_suffix clamp_end
resolve start end suffix_len range_requested total =
    let s : Span = resolve_suffix start end suffix_len total in
    if range_requested && leb_ℤ total s.start
    then unsatisfiable s.start total
    else span (record { start = s.start; end = clamp_end s.end total })
