-- ===== src/Tests/Requests.antt =====
-- Range headers and spans (services/web.go, services/fetcher.go) at concrete inputs.
use s3_cache.Prelude.{◌≡◌, refl, arith, true, ok}
use s3_cache.Prelude.Int.{pos, minus_one, sub64}
use s3_cache.Prelude.Text.{codes, format_uint}
use s3_cache.Web.Range.{parse_range}
use s3_cache.Web.Range.Forms.{
  from, between, last, print, meaning, Accepted, parse_range-print, parse_range-Accepted,
}
use s3_cache.Fetcher.Resolve.{resolve, span}
use s3_cache.Fetcher.Resolve.Agrees.{nothing, selected}

parse_range-print_example : parse_range (print (between 5 12)) ≡ ok (meaning (between 5 12))
parse_range-print_example = parse_range-print (between 5 12) (omega arith, omega arith)

accepted_tail : parse_range (codes "bytes=-7") ≡ ok (meaning (last 7))
unfolding format_uint
accepted_tail = parse_range-print (last 7) (omega arith, omega arith)

parse_range-Accepted_example : Accepted (codes "bytes=-7") (meaning (last 7))
parse_range-Accepted_example =
    parse_range-Accepted (codes "bytes=-7") (meaning (last 7)) accepted_tail

beyond_the_end : selected (from 10) 10 ≡ nothing
beyond_the_end = refl

tail_span :
    resolve (pos 0) minus_one (pos 4) true (pos 10) ≡ span (record { start = pos 6; end = pos 9 })
unfolding resolve sub64
tail_span = refl
