-- ===== src/Web/Handle/Answers.antt =====
-- services/web.go, Web.handle: what comes of a request, branch by branch and for a range as a whole.
use s3_cache.Prelude.{
  ℕ, ◌+◌, ◌^◌, ◌<◌, ◌≤◌, ◌≡◌, refl, ap, List, [], ◌∷◌, none, some, Bool, true, false, ◌||◌, ok, err,
  length,
}
use s3_cache.Prelude.Int.{ℤ, pos}
use s3_cache.Prelude.Assoc.{Key, same}
use s3_cache.Prelude.Text.{NumError, codes, trim_prefix-append}
use s3_cache.HeadCache.{Head, HeadCache, head_object}
use s3_cache.Http.{Writer}
use s3_cache.WriteGuard.{WriteGuard}
use s3_cache.Web.Range.{Range, RangeError, parse_range}
use s3_cache.Web.Range.Forms.{Form, print, meaning, IsProper, Accepted, parse_range-print}
use s3_cache.Fetcher.Get.{World, Got, get}
use s3_cache.Fetcher.Get.Ranges.{asking, HonestWorld, RangeAnswer, get-RangeAnswer}
use s3_cache.Fetcher.Serve.Response.{IsFresh}
use s3_cache.Web.Handle.{
  HttpRequest, Handled, parse_key, handle, handle_key, handle_get, handle_head,
}

-- The key is the path without its slash.
parse_key-slash : (c : ℕ) (key : List ℕ) → parse_key (b'/' ∷ c ∷ key) ≡ some (c ∷ key)
unfolding parse_key same
parse_key-slash c key = rw (parse_key, trim_prefix-append (codes "/") (c ∷ key)) refl

abbrev pub is_served : List ℕ → Bool
is_served method = same method (codes "GET") || same method (codes "HEAD")

-- A request that ends before the fetcher is called: the status, and nothing else changed.
pub record IsRefused (code : ℕ) (heads : HeadCache) (r : Handled) : Type 0 where
  pub status : r.writer.status ≡ some code
  pub same_heads : r.heads ≡ heads
  pub no_get : r.got ≡ none

-- What becomes of a request.
pub data Handling (world : World) (c : ℤ) (q : HttpRequest) (heads : HeadCache) (g : WriteGuard)
    (w : Writer) (r : Handled) : Type 0 where
  bad_method : is_served q.method ≡ false → IsRefused 405 heads r → Handling world c q heads g w r
  bad_path :
      is_served q.method ≡ true
      → parse_key q.path ≡ none
      → IsRefused 400 heads r
      → Handling world c q heads g w r
  bad_header :
      (key : Key) (e : RangeError)
      → is_served q.method ≡ true
      → parse_key q.path ≡ some key
      → parse_range q.range ≡ err e
      → IsRefused 400 heads r
      → Handling world c q heads g w r
  headed :
      (key : Key)
      → q.method ≡ codes "HEAD"
      → parse_key q.path ≡ some key
      → r ≡ handle_head world key heads w
      → Handling world c q heads g w r
  fetched :
      (key : Key) (range : Range)
      → q.method ≡ codes "GET"
      → parse_key q.path ≡ some key
      → Accepted q.range range
      → r ≡ handle_get world c q key range heads g w
      → Handling world c q heads g w r

print-ne-nil : (f : Form) → same (print f) [] ≡ false
unfolding same
print-ne-nil f = refl

get_accepted :
    (world : World) (text : List ℕ → NumError → List ℕ) (c : ℤ) (q : HttpRequest)
    (heads : HeadCache) (g : WriteGuard) (w : Writer) (key : Key) (r : Range)
    → q.method ≡ codes "GET"
    → parse_key q.path ≡ some key
    → parse_range q.range ≡ ok r
    → handle world text c q heads g w ≡ handle_get world c q key r heads g w
unfolding handle handle_key same
get_accepted world text c q heads g w key r m k p =
    let served : is_served q.method ≡ true = rw m refl in
    let not_head : same q.method (codes "HEAD") ≡ false = rw m refl in
    rw (handle, served, k, handle_key, p, not_head) refl

-- A GET of "/key" with the Range header of a proper form is answered by the part of the object that
-- the form selects, as `RangeAnswer` says, if the store tells the object's size and the chunks arrive
-- unaltered or with an error; the chunk size is positive, and the object and one more chunk fit an
-- int64.
pub handle-RangeAnswer :
    (object : List ℕ) (c : ℕ) (f : Form) (world : World) (b : ℕ) (name : List ℕ) (hd : Head)
    (text : List ℕ → NumError → List ℕ) (heads : HeadCache) (g : WriteGuard) (w : Writer)
    → IsProper f
    → 0 < c
    → length object + c ≤ 2 ^ 63
    → (head_object world.head (b ∷ name) heads).result ≡ ok hd
    → hd.content_length ≡ some (pos (length object))
    → HonestWorld object c f world (b ∷ name) hd
    → IsFresh w
    → let q : HttpRequest = record {
      method = codes "GET";
      path = b'/' ∷ b ∷ name;
      range = print f;
    } in
      let r : Handled = handle world text (pos c) q heads g w in
      (res : Got) × (r.got ≡ some res)
      × (r.writer ≡ res.writer)
      × (r.heads ≡ res.heads)
      × RangeAnswer object f hd world.http_time w res
unfolding handle_get same
handle-RangeAnswer object c f world b name hd text heads g w proper c_pos fits asked len honest
      fresh =
    let q : HttpRequest = record {
      method = codes "GET";
      path = b'/' ∷ b ∷ name;
      range = print f;
    } in
    let e =
      get_accepted world text (pos c) q heads g w (b ∷ name) (meaning f) refl
        (parse_key-slash b name) (parse_range-print f proper) in
    (
      get world (pos c) (asking (b ∷ name) f) heads g w,
      ap (λ (h : Handled). h.got) e,
      ap (λ (h : Handled). h.writer) e,
      ap (λ (h : Handled). h.heads) e,
      get-RangeAnswer object c f world (b ∷ name) hd heads g w proper c_pos fits asked len honest
          fresh,
    )
