-- ===== src/Fetcher/Get/Whole.antt =====
-- A request without a range through Fetcher.Get as a whole.
use s3_cache.Prelude.{
  ℕ, ◌+◌, ◌-◌, ◌/◌, ◌^◌, ◌<◌, ◌≤◌, ◌≡◌, refl, List, [], ◌∷◌, none, some, false, ok, arith, length,
  subst, sym,
}
use s3_cache.Prelude.Int.{pos, minus_one}
use s3_cache.Prelude.Assoc.{Key}
use s3_cache.Prelude.Text.{codes}
use s3_cache.HeadCache.{Head, HeadCache, head_object}
use s3_cache.Http.{Headers, Writer, write_header}
use s3_cache.WriteGuard.{WriteGuard}
use s3_cache.Fetcher.Resolve.{resolve}
use s3_cache.Fetcher.Resolve.Agrees.{resolve_whole}
use s3_cache.Fetcher.Serve.{Job, Outcome, Turn, serve_aligned}
use s3_cache.Fetcher.Serve.Plan.{job}
use s3_cache.Fetcher.Serve.Pieces.{Honest}
use s3_cache.Fetcher.Serve.Response.{Answer, IsFresh, serve_aligned-Answer}
use s3_cache.Fetcher.Get.Ranges.{version_of, set_object_headers-IsFresh, served_ok, not_empty}
use s3_cache.Fetcher.Get.{
  World, Got, Request, set_object_headers, serve_empty, get, serve_asked, serve_head,
  serve_resolved,
}

-- The request that Web.handle makes where there is no Range header.
abbrev pub plain : Key → Request
plain key = record {
  key = key;
  start = pos 0;
  end = minus_one;
  suffix_len = pos 0;
  range_requested = false;
}

-- What a client sees of a plain request. An empty object has an empty 200.
pub data WholeAnswer (object : List ℕ) (hd : Head) (time : ℕ → List ℕ) (w : Writer) (r : Got)
    : Type 0 where
  empty :
      (sent : Headers)
      → object ≡ []
      → r.writer.status ≡ some 200
      → r.writer.sent ≡ some sent
      → sent.content_length ≡ some (codes "0")
      → r.writer.body ≡ []
      → r.failed ≡ none
      → WholeAnswer object hd time w r
  answered :
      (o : Outcome)
      → 0 < length object
      → Answer object 0 (length object - 1) false (set_object_headers time hd w).header o
      → r.writer ≡ o.writer
      → (r.failed ≡ none → o.failed ≡ none)
      → WholeAnswer object hd time w r

module _ (c : ℕ) (world : World) (key : Key) (hd : Head) where
  -- The chunks of the whole object arrive unaltered or with an error.
  abbrev pub HonestWhole : List ℕ → Type 0
  HonestWhole object =
      let j : Job = job c 0 (length object - 1) (length object) false in
      (i : ℕ)
      → 0 / c + i ≤ (length object - 1) / c
      → Honest object j i (world.turns (version_of hd) j i).arrival

  get-plain :
      (total : ℕ) (heads : HeadCache) (g : WriteGuard) (w : Writer)
      → (head_object world.head key heads).result ≡ ok hd
      → hd.content_length ≡ some (pos total)
      → get world (pos c) (plain key) heads g w
        ≡ serve_resolved world
            (pos c)
            (plain key)
            (head_object world.head key heads).cache
            hd
            (pos total)
            g
            w
            (resolve (pos 0) minus_one (pos 0) false (pos total))
  unfolding get serve_asked serve_head
  get-plain total heads g w asked len = rw (get, asked, len) refl

  answered_whole :
      (object : List ℕ) (heads : HeadCache) (g : WriteGuard) (w : Writer)
      → 0 < c
      → 0 < length object
      → length object + c ≤ 2 ^ 63
      → HonestWhole object
      → IsFresh w
      → WholeAnswer object hd world.http_time w (
          serve_resolved world
            (pos c)
            (plain key)
            heads
            hd
            (pos (length object))
            g
            w
            (resolve (pos 0) minus_one (pos 0) false (pos (length object))))
  unfolding serve_resolved
  answered_whole object heads g w c_pos some_bytes fits honest fresh =
      let j : Job = job c 0 (length object - 1) (length object) false in
      let w' : Writer = set_object_headers world.http_time hd w in
      let turns : ℕ → Turn = world.turns (version_of hd) j in
      let o : Outcome = serve_aligned j turns g w' in
      rw
        (
          resolve_whole (length object) some_bytes (omega arith),
          not_empty (length object) some_bytes,
        )
        (answered o some_bytes
          (serve_aligned-Answer object c 0 (length object - 1) false
            (record { size_pos = c_pos; ordered = omega arith; inside = omega arith; small = fits })
            turns g w' honest (set_object_headers-IsFresh world.http_time hd w fresh))
          refl (served_ok heads o))

  empty_whole :
      (heads : HeadCache) (g : WriteGuard) (w : Writer)
      → IsFresh w
      → WholeAnswer [] hd world.http_time w (
          serve_resolved world
            (pos c)
            (plain key)
            heads
            hd
            (pos 0)
            g
            w
            (resolve (pos 0) minus_one (pos 0) false (pos 0)))
  unfolding serve_resolved serve_empty resolve set_object_headers write_header
  empty_whole heads g w fresh =
      empty
        (record (set_object_headers world.http_time hd w).header {
          content_length = some (codes "0");
          accept_ranges = some (codes "bytes");
        })
        refl (ground arith) (ground arith) refl (ground arith) refl

  -- A request without a range, for an object whose size the store tells and whose chunks arrive
  -- unaltered or with an error, is answered as serveAligned answers for the whole object; an empty
  -- object has an empty 200. The chunk size is positive, and the object and one more chunk fit an
  -- int64.
  pub get-WholeAnswer :
      (object : List ℕ) (heads : HeadCache) (g : WriteGuard) (w : Writer)
      → 0 < c
      → length object + c ≤ 2 ^ 63
      → (head_object world.head key heads).result ≡ ok hd
      → hd.content_length ≡ some (pos (length object))
      → HonestWhole object
      → IsFresh w
      → WholeAnswer object hd world.http_time w (get world (pos c) (plain key) heads g w)
  get-WholeAnswer [] heads g w c_pos fits asked len honest fresh =
      subst (WholeAnswer [] hd world.http_time w) (sym (get-plain 0 heads g w asked len))
        (empty_whole (head_object world.head key heads).cache g w fresh)
  get-WholeAnswer (b ∷ object) heads g w c_pos fits asked len honest fresh =
      subst (WholeAnswer (b ∷ object) hd world.http_time w)
        (sym (get-plain (length (b ∷ object)) heads g w asked len))
        (answered_whole (b ∷ object) (head_object world.head key heads).cache g w c_pos
          (omega arith) fits honest fresh)
