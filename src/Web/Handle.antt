-- ===== src/Web/Handle.antt =====
-- services/web.go, parseKey and Web.handle: one HTTP request, from its method, path and Range header.
pub mod Answers
use s3_cache.Prelude.{
  ℕ, List, [], ◌∷◌, ◌++◌, Option, none, some, Bool, true, false, not, ◌||◌, Result, ok, err,
  if◌then◌else◌,
}
use s3_cache.Prelude.Int.{ℤ}
use s3_cache.Prelude.Assoc.{Key, same}
use s3_cache.Prelude.Text.{NumError, codes, trim_prefix}
use s3_cache.HeadCache.{HeadCache}
use s3_cache.Http.{Writer, Error, http_error, http_error_from_s3}
use s3_cache.WriteGuard.{WriteGuard}
use s3_cache.Web.Range.{
  Range, RangeError, only_bytes, multi_range, bad_range, bad_suffix, end_before_start,
  bad_suffix_number, bad_start, bad_end, parse_range,
}
use s3_cache.Fetcher.Get.{World, Got, Request, get, head}

-- `range` is empty if the header is missing.
pub record HttpRequest : Type 0 where
  pub method : List ℕ
  pub path : List ℕ
  pub range : List ℕ

unfoldable pub parse_key : List ℕ → Option Key
parse_key p = let key : Key = trim_prefix p (codes "/") in if same key [] then none else some key

-- The text of an error, where `text` is that of ParseInt's, which quotes from the header.
abbrev pub range_error_text : (NumError → List ℕ) → RangeError → List ℕ
range_error_text text only_bytes = codes "only bytes= ranges supported"
range_error_text text multi_range = codes "multi-range not supported"
range_error_text text bad_range = codes "bad range"
range_error_text text bad_suffix = codes "bad suffix range"
range_error_text text end_before_start = codes "end before start"
range_error_text text (bad_suffix_number e) = codes "bad suffix range: " ++ text e
range_error_text text (bad_start e) = codes "bad range start: " ++ text e
range_error_text text (bad_end e) = codes "bad range end: " ++ text e

-- What a request leaves; `got` is the result of Get, where it was called.
pub record Handled : Type 0 where
  pub heads : HeadCache
  pub writer : Writer
  pub got : Option Got

abbrev only_written : HeadCache → Writer → Handled
only_written heads w = record { heads = heads; writer = w; got = none }

unfoldable pub handle_head : World → Key → HeadCache → Writer → Handled
handle_head world key heads w =
    let (heads', w', e) = head world key heads w in
    elim e [
      | none ↦ only_written heads' w'
      | some why ↦ only_written heads' (http_error_from_s3 why w')
    ]

unfoldable pub handle_get :
    World → ℤ → HttpRequest → Key → Range → HeadCache → WriteGuard → Writer → Handled
handle_get world chunk_size q key r heads g w =
    let res : Got =
      get world chunk_size
        (record {
          key = key;
          start = r.start;
          end = r.end;
          suffix_len = r.suffix_len;
          range_requested = not (same q.range []);
        })
        heads g w in
    record { heads = res.heads; writer = res.writer; got = some res }

-- Once the method is known to be GET or HEAD.
handle_key :
    World
    → (List ℕ → NumError → List ℕ)
    → ℤ
    → HttpRequest
    → Option Key
    → HeadCache
    → WriteGuard
    → Writer
    → Handled
unfolding handle_head handle_get
handle_key world text chunk_size q none heads g w =
    only_written heads (http_error (codes "expected /{key}") 400 w)
handle_key world text chunk_size q (some key) heads g w = elim (parse_range q.range) [
  | err e ↦ only_written heads (http_error (range_error_text (text q.range) e) 400 w)
  | ok r ↦
      if same q.method (codes "HEAD")
      then handle_head world key heads w
      else handle_get world chunk_size q key r heads g w
]

-- `text` gives the text of ParseInt's errors on a part of a header.
unfoldable pub handle :
    World
    → (List ℕ → NumError → List ℕ)
    → ℤ
    → HttpRequest
    → HeadCache
    → WriteGuard
    → Writer
    → Handled
unfolding handle_key
handle world text chunk_size q heads g w =
    if not (same q.method (codes "GET") || same q.method (codes "HEAD"))
    then only_written heads (
        http_error (codes "method not allowed") 405
          (record w { header = record w.header { allow = some (codes "GET, HEAD") } }))
    else handle_key world text chunk_size q (parse_key q.path) heads g w
