-- ===== src/Readahead/Keys.antt =====
-- services/readahead.go, itoa: it prints as strconv does, so that readahead and the fetcher name a chunk
-- by the same key.
use s3_cache.Prelude.{
  ℕ, zero, suc, ◌+◌, ◌/◌, ◌%◌, ◌^◌, ◌<◌, ◌≡◌, refl, ap, List, [], ◌∷◌, ◌++◌, arith,
}
use s3_cache.Prelude.Int.{ℤ, pos, negsuc, neg_part, sub64}
use s3_cache.Prelude.Assoc.{Key}
use s3_cache.Prelude.Text.{digits, format_uint, format_int}
use s3_cache.Fetcher.Get.{ObjVersion}
use s3_cache.Cache.Names.{flight_key}
use s3_cache.Readahead.{itoa, itoa_digits, dedup_key}

itoa_digits-eq-digits : (f n : ℕ) (acc : List ℕ) → itoa_digits f n acc ≡ digits f n acc
unfolding itoa_digits digits
itoa_digits-eq-digits zero n acc = refl
itoa_digits-eq-digits (suc f) n acc =
    ground (arith, itoa_digits-eq-digits f (n / 10) ((b'0' + n % 10) ∷ acc))

negated : (n : ℕ) → suc n < 2 ^ 63 → sub64 (pos 0) (negsuc n) ≡ pos (suc n)
unfolding sub64
negated n h = ground arith

-- itoa gives the text of strconv.FormatInt for every int64 but the least.
pub itoa-eq-format_int : (z : ℤ) → neg_part z < 2 ^ 63 → itoa z ≡ format_int z
unfolding itoa format_int format_uint
itoa-eq-format_int (pos n) h = ground (arith, itoa_digits-eq-digits 20 n [])
itoa-eq-format_int (negsuc n) h = ground (arith, negated n, itoa_digits-eq-digits 20 (suc n) [])

-- The key of a readahead is the key of the flight that fetches the same chunk for a request.
pub dedup_key-eq-flight_key :
    (key : Key) (v : ObjVersion) (n : ℕ) → dedup_key key v (pos n) ≡ flight_key key (pos n) v
dedup_key-eq-flight_key key v n =
    ap (λ (t : List ℕ). key ++ b'/' ∷ (t ++ b'/' ∷ v.etag))
      (itoa-eq-format_int (pos n) (omega arith))
