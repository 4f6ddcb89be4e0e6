-- ===== src/Fetcher/Get/Ranges.antt =====
-- A range request through Fetcher.Get as a whole, from the form of its Range header to the response.
use s3_cache.Prelude.{
  ℕ, ◌+◌, ◌-◌, ◌/◌, ◌^◌, ◌<◌, ◌≤◌, ◌≡◌, ◌⊎◌, refl, List, ◌++◌, none, some, true, false, ok, arith,
  length, ◌&&◌, Option-cases, inl, inr, subst, sym,
}
use s3_cache.Prelude.Int.{ℤ, pos, sub64, leb_ℤ}
use s3_cache.Prelude.Assoc.{Key}
use s3_cache.Prelude.Text.{codes, format_int}
use s3_cache.HeadCache.{Head, HeadCache, head_object}
use s3_cache.Http.{Headers, Writer, http_error}
use s3_cache.WriteGuard.{WriteGuard}
use s3_cache.Web.Range.{Range}
use s3_cache.Web.Range.Forms.{Form, from, between, last, meaning, IsProper}
use s3_cache.Fetcher.Resolve.{Resolved, unsatisfiable, span, resolve}
use s3_cache.Fetcher.Resolve.Agrees.{Part, nothing, piece, selected}
use s3_cache.Fetcher.Serve.{Job, Outcome, Turn, serve_aligned}
use s3_cache.Fetcher.Serve.Plan.{job}
use s3_cache.Fetcher.Serve.Pieces.{Honest}
use s3_cache.Fetcher.Serve.Response.{Answer, IsFresh, serve_aligned-Answer}
use s3_cache.Fetcher.Get.{
  ObjVersion, World, Got, Request, not_satisfiable, set_object_headers, refuse_range, served_by,
  get, serve_asked, serve_head, serve_resolved, or_empty, or_zero,
}

-- The request that Web.handle makes of a Range header of this form.
abbrev pub asking : Key → Form → Request
asking key f =
    let r : Range = meaning f in
    record {
      key = key;
      start = r.start;
      end = r.end;
      suffix_len = r.suffix_len;
      range_requested = true;
    }

abbrev resolved : Form → ℕ → Resolved
resolved f total = let r : Range = meaning f in resolve r.start r.end r.suffix_len true (pos total)

resolve_piece :
    (f : Form) (total s n : ℕ)
    → IsProper f
    → total < 2 ^ 63
    → selected f total ≡ piece s n
    → (resolved f total ≡ span (record { start = pos s; end = pos (s + n - 1) }))
      × (0 < n)
      × (s + n ≤ total)
unfolding resolve sub64
resolve_piece (from a) total s n h k e = (ground arith, ground arith, ground arith)
resolve_piece (between a b) total s n h k e = (ground arith, ground arith, ground arith)
resolve_piece (last m) total s n h k e = (ground arith, ground arith, ground arith)

resolve_nothing :
    (f : Form) (total : ℕ)
    → IsProper f
    → total < 2 ^ 63
    → selected f total ≡ nothing
    → (a : ℤ) × (resolved f total ≡ unsatisfiable a (pos total))
unfolding resolve sub64
resolve_nothing (from a) total h k e = (pos a, ground arith)
resolve_nothing (between a b) total h k e = (pos a, ground arith)
resolve_nothing (last m) total h k e = (pos 0, ground arith)

Part-cases : (p : Part) → (p ≡ nothing) ⊎ ((s : ℕ) × (n : ℕ) × (p ≡ piece s n))
Part-cases nothing = inl refl
Part-cases (piece s n) = inr (s, n, refl)

-- What a client sees of a request for the form `f`, of an object that the store described by `hd`.
-- `refused` is a 416 that tells the size of the object and claims no validators for it.
pub data RangeAnswer (object : List ℕ) (f : Form) (hd : Head) (time : ℕ → List ℕ) (w : Writer)
    (r : Got) : Type 0 where
  refused :
      (sent : Headers)
      → selected f (length object) ≡ nothing
      → r.writer.status ≡ some 416
      → r.writer.sent ≡ some sent
      → sent.content_range ≡ some (codes "bytes */" ++ format_int (pos (length object)))
      → sent.etag ≡ w.header.etag
      → sent.last_modified ≡ w.header.last_modified
      → r.failed ≡ some not_satisfiable
      → RangeAnswer object f hd time w r
  answered :
      (s n : ℕ) (o : Outcome)
      → selected f (length object) ≡ piece s n
      → 0 < n
      → Answer object s (s + n - 1) true (set_object_headers time hd w).header o
      → r.writer ≡ o.writer
      → (r.failed ≡ none → o.failed ≡ none)
      → RangeAnswer object f hd time w r

abbrev pub version_of : Head → ObjVersion
version_of hd = record { etag = or_empty hd.etag; modified = or_zero hd.last_modified }

pub set_object_headers-IsFresh :
    (time : ℕ → List ℕ) (hd : Head) (w : Writer)
    → IsFresh w
    → IsFresh (set_object_headers time hd w)
unfolding set_object_headers
set_object_headers-IsFresh time hd w fresh = record {
  no_status = fresh.no_status;
  no_body = fresh.no_body;
}

pub not_empty : (n : ℕ) → 0 < n → (leb_ℤ (pos n) (pos 0) && leb_ℤ (pos 0) (pos n)) ≡ false
not_empty n h = ground arith

pub served_ok :
    (heads : HeadCache) (o : Outcome) → (served_by heads o).failed ≡ none → o.failed ≡ none
served_ok heads o h = elim (Option-cases o.failed) [
  | inl e ↦ e
  | inr (x, e) ↦ absurd (ground arith)
]

module _ (object : List ℕ) (c : ℕ) (f : Form) (world : World) (key : Key) (hd : Head) where
  -- The chunks that arrive for this version of the object hold its bytes, whatever span of it is
  -- served.
  abbrev pub HonestWorld : Type 0
  HonestWorld =
      (s e i : ℕ)
      → s ≤ e
      → e < length object
      → s / c + i ≤ e / c
      → let j : Job = job c s e (length object) true in
        Honest object j i (world.turns (version_of hd) j i).arrival

  get-resolved :
      (heads : HeadCache) (g : WriteGuard) (w : Writer)
      → (head_object world.head key heads).result ≡ ok hd
      → hd.content_length ≡ some (pos (length object))
      → get world (pos c) (asking key f) heads g w
        ≡ serve_resolved world
            (pos c)
            (asking key f)
            (head_object world.head key heads).cache
            hd
            (pos (length object))
            g
            w
            (resolved f (length object))
  unfolding get serve_asked serve_head
  get-resolved heads g w asked len = rw (get, asked, len) refl

  refused_get :
      (heads : HeadCache) (g : WriteGuard) (w : Writer) (a : ℤ)
      → IsFresh w
      → selected f (length object) ≡ nothing
      → resolved f (length object) ≡ unsatisfiable a (pos (length object))
      → RangeAnswer object f hd world.http_time w (
          serve_resolved world
            (pos c)
            (asking key f)
            heads
            hd
            (pos (length object))
            g
            w
            (resolved f (length object)))
  unfolding serve_resolved refuse_range http_error
  refused_get heads g w a fresh none_selected e = rw e (
      refused
        (record w.header {
          content_range = some (codes "bytes */" ++ format_int (pos (length object)));
          content_length = none;
          content_type = some (codes "text/plain; charset=utf-8");
          content_type_options = some (codes "nosniff");
        })
        none_selected (ground arith) (ground arith) refl refl refl refl)

  answered_get :
      (heads : HeadCache) (g : WriteGuard) (w : Writer) (s n : ℕ)
      → HonestWorld
      → IsFresh w
      → length object + c ≤ 2 ^ 63
      → 0 < c
      → 0 < n
      → s + n ≤ length object
      → selected f (length object) ≡ piece s n
      → resolved f (length object) ≡ span (record { start = pos s; end = pos (s + n - 1) })
      → RangeAnswer object f hd world.http_time w (
          serve_resolved world
            (pos c)
            (asking key f)
            heads
            hd
            (pos (length object))
            g
            w
            (resolved f (length object)))
  unfolding serve_resolved
  answered_get heads g w s n honest fresh fits c_pos n_pos inside sel e =
      let j : Job = job c s (s + n - 1) (length object) true in
      let w' : Writer = set_object_headers world.http_time hd w in
      let turns : ℕ → Turn = world.turns (version_of hd) j in
      let o : Outcome = serve_aligned j turns g w' in
      rw (e, not_empty (length object) (omega arith))
        (answered s n o sel n_pos
          (serve_aligned-Answer object c s (s + n - 1) true
            (record { size_pos = c_pos; ordered = omega arith; inside = omega arith; small = fits })
            turns g w' (λ i. honest s (s + n - 1) i (omega arith) (omega arith))
            (set_object_headers-IsFresh world.http_time hd w fresh))
          refl (served_ok heads o))

  -- A range request of a proper form, for an object whose size the store tells and whose chunks
  -- arrive unaltered or with an error, is answered by the part of the object that the form selects:
  -- with a 416 that tells the size and adds no validators where that is nothing, and else as
  -- serveAligned answers for exactly that part. The chunk size is positive, and the object and one
  -- more chunk fit an int64.
  pub get-RangeAnswer :
      (heads : HeadCache) (g : WriteGuard) (w : Writer)
      → IsProper f
      → 0 < c
      → length object + c ≤ 2 ^ 63
      → (head_object world.head key heads).result ≡ ok hd
      → hd.content_length ≡ some (pos (length object))
      → HonestWorld
      → IsFresh w
      → RangeAnswer object f hd world.http_time w (get world (pos c) (asking key f) heads g w)
  get-RangeAnswer heads g w proper c_pos fits asked len honest fresh =
      let cache : HeadCache = (head_object world.head key heads).cache in
      subst (RangeAnswer object f hd world.http_time w) (sym (get-resolved heads g w asked len))
        (elim (Part-cases (selected f (length object))) [
          | inl e ↦
              let (a, q) = resolve_nothing f (length object) proper (omega arith) e in
              refused_get cache g w a fresh e q
          | inr (s, n, e) ↦
              let (q, n_pos, inside) = resolve_piece f (length object) s n proper (omega arith) e in
              answered_get cache g w s n honest fresh fits c_pos n_pos inside e q
        ])
