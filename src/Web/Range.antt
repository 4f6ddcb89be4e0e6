-- ===== src/Web/Range.antt =====
-- services/web.go, parseRange: the Range header of a request.
pub mod Forms
use s3_cache.Prelude.{
  ℕ, List, [], ◌∷◌, Option, none, some, Bool, not, Result, ok, err, ◌>>=◌, map_err, if◌then◌else◌,
}
use s3_cache.Prelude.Int.{ℤ, pos, minus_one, ltb_ℤ, leb_ℤ}
use s3_cache.Prelude.Text.{codes, has_prefix, trim_prefix, contains, cut, NumError, parse_int}

-- The values that parseRange returns; `end` is -1 if it is missing, and a positive `suffix_len`
-- stands for the suffix form.
pub record Range : Type 0 where
  pub start : ℤ
  pub end : ℤ
  pub suffix_len : ℤ

-- One constructor for each error; those that wrap an error of ParseInt hold it.
pub data RangeError : Type 0 where
  only_bytes multi_range bad_range bad_suffix end_before_start : RangeError
  bad_suffix_number bad_start bad_end : NumError → RangeError

parse_suffix : List ℕ → Result RangeError Range
parse_suffix b = do
  n ← map_err bad_suffix_number (parse_int b)
  if leb_ℤ n (pos 0)
      then err bad_suffix
      else ok (record { start = pos 0; end = minus_one; suffix_len = n })

-- The part behind the dash, where a start was given.
parse_end : ℤ → List ℕ → Result RangeError Range
parse_end start [] = ok (record { start = start; end = minus_one; suffix_len = pos 0 })
parse_end start (c ∷ b) = do
  end ← map_err bad_end (parse_int (c ∷ b))
  if ltb_ℤ end start
      then err end_before_start
      else ok (record { start = start; end = end; suffix_len = pos 0 })

parse_parts : List ℕ → List ℕ → Result RangeError Range
unfolding parse_suffix parse_end
parse_parts [] b = parse_suffix b
parse_parts (c ∷ a) b = do start ← map_err bad_start (parse_int (c ∷ a)); parse_end start b

parse_spec : List ℕ → Result RangeError Range
unfolding parse_parts
parse_spec spec =
    if contains spec (codes ",")
    then err multi_range
    else elim (cut b'-' spec) [ none ↦ err bad_range | some (a, b) ↦ parse_parts a b ]

unfoldable pub parse_range : List ℕ → Result RangeError Range
unfolding parse_spec
parse_range [] = ok (record { start = pos 0; end = minus_one; suffix_len = pos 0 })
parse_range (c ∷ h) =
    if not (has_prefix (c ∷ h) (codes "bytes="))
    then err only_bytes
    else parse_spec (trim_prefix (c ∷ h) (codes "bytes="))
