-- ===== src/Fetcher/Get.antt =====
-- services/fetcher.go, Fetcher.Head and Fetcher.Get. `http_time` is the text of a time in a header
-- (time.Format with http.TimeFormat); what the object store answers and what the chunk fetches
-- deliver are in the environment.
pub mod Ranges
pub mod Whole
use s3_cache.Prelude.{
  ℕ, List, [], ◌∷◌, ◌++◌, Option, none, some, Bool, true, false, Result, ok, err, if◌then◌else◌,
  ◌||◌, ◌&&◌,
}
use s3_cache.Prelude.Int.{ℤ, pos, leb_ℤ}
use s3_cache.Prelude.Assoc.{Key, same}
use s3_cache.Prelude.Text.{codes, format_int}
use s3_cache.HeadCache.{Head, HeadCache, Env, Asked, head_object}
use s3_cache.Http.{Headers, Writer, Error, write_header, http_error, http_error_from_s3}
use s3_cache.WriteGuard.{WriteGuard}
use s3_cache.Fetcher.Resolve.{Span, Resolved, unsatisfiable, span, resolve}
use s3_cache.Fetcher.Serve.{Job, Turn, Outcome, ServeError, serve_aligned}

-- services/cache.go, objVersion; a missing ETag is the empty text, a missing time the zero time.
pub record ObjVersion : Type 0 where
  pub etag : List ℕ
  pub modified : ℕ

abbrev or_empty : Option (List ℕ) → List ℕ
or_empty none = []
or_empty (some text) = text

abbrev or_zero : Option ℕ → ℕ
or_zero none = 0
or_zero (some t) = t

-- The Content-Type that is passed on.
abbrev pub content_type_of : Option (List ℕ) → List ℕ
content_type_of none = codes "application/octet-stream"
content_type_of (some text) =
    if same text [] || same text (codes "binary/octet-stream")
    then codes "application/octet-stream"
    else text

abbrev keep_or_set : Option (List ℕ) → Option (List ℕ) → Option (List ℕ)
keep_or_set old none = old
keep_or_set old (some text) = some text

unfoldable pub set_object_headers : (ℕ → List ℕ) → Head → Writer → Writer
set_object_headers http_time out w = record w {
  header = record w.header {
    content_type = some (content_type_of out.content_type);
    etag = keep_or_set w.header.etag out.etag;
    last_modified = elim out.last_modified [
      | none ↦ w.header.last_modified
      | some t ↦ some (http_time t)
    ];
  };
}

pub data GetError : Type 0 where
  head_failed : Error → GetError
  no_length not_satisfiable : GetError
  serve_failed : ServeError → GetError

-- What the request meets: the object store's answer to HEAD, and the turns of the chunks for a
-- version of the object and a job.
pub record World : Type 0 where
  pub http_time : ℕ → List ℕ
  pub head : Env Error
  pub turns : ObjVersion → Job → ℕ → Turn

pub record Got : Type 0 where
  pub heads : HeadCache
  pub writer : Writer
  pub failed : Option GetError
  pub kick : Option ℤ

abbrev failing : HeadCache → GetError → Writer → Got
failing heads e w = record { heads = heads; writer = w; failed = some e; kick = none }

abbrev pub served_by : HeadCache → Outcome → Got
served_by heads o = record {
  heads = heads;
  writer = o.writer;
  failed = elim o.failed [ none ↦ none | some e ↦ some (serve_failed e) ];
  kick = o.kick;
}

-- The empty object.
unfoldable pub serve_empty : Writer → Writer
serve_empty w = write_header 200 (record w {
  header = record w.header {
    content_length = some (codes "0");
    accept_ranges = some (codes "bytes");
  };
})

unfoldable pub refuse_range : ℤ → Writer → Writer
refuse_range total w = http_error (codes "range not satisfiable") 416 (record w {
  header = record w.header { content_range = some (codes "bytes */" ++ format_int total) };
})

pub record Request : Type 0 where
  pub key : Key
  pub start : ℤ
  pub end : ℤ
  pub suffix_len : ℤ
  pub range_requested : Bool

-- What follows once the span is resolved.
serve_resolved : World → ℤ → Request → HeadCache → Head → ℤ → WriteGuard → Writer → Resolved → Got
serve_resolved world chunk_size r heads hd total g w (unsatisfiable start size) =
    failing heads not_satisfiable (refuse_range total w)
serve_resolved world chunk_size r heads hd total g w (span s) =
    let w' : Writer = set_object_headers world.http_time hd w in
    let v : ObjVersion = record { etag = or_empty hd.etag; modified = or_zero hd.last_modified } in
    let j : Job = record {
      chunk_size = chunk_size;
      start = s.start;
      stop = s.end;
      total = total;
      range_requested = r.range_requested;
    } in
    if leb_ℤ total (pos 0) && leb_ℤ (pos 0) total
    then record { heads = heads; writer = serve_empty w'; failed = none; kick = none }
    else served_by heads (serve_aligned j (world.turns v j) g w')

serve_head : World → ℤ → Request → HeadCache → WriteGuard → Writer → Head → Option ℤ → Got
unfolding serve_resolved
serve_head world chunk_size r heads g w hd none =
    failing heads no_length (http_error (codes "upstream missing Content-Length") 502 w)
serve_head world chunk_size r heads g w hd (some total) =
    serve_resolved world chunk_size r heads hd total g w
      (resolve r.start r.end r.suffix_len r.range_requested total)

serve_asked : World → ℤ → Request → WriteGuard → Writer → HeadCache → Result Error Head → Got
unfolding serve_head
serve_asked world chunk_size r g w heads (err e) =
    failing heads (head_failed e) (http_error_from_s3 e w)
serve_asked world chunk_size r g w heads (ok hd) =
    serve_head world chunk_size r heads g w hd hd.content_length

unfoldable pub get : World → ℤ → Request → HeadCache → WriteGuard → Writer → Got
unfolding serve_asked
get world chunk_size r heads g w =
    let a : Asked Error = head_object world.head r.key heads in
    serve_asked world chunk_size r g w a.cache a.result

-- Fetcher.Head: the error is left to the caller.
unfoldable pub head : World → Key → HeadCache → Writer → HeadCache × Writer × Option Error
unfolding set_object_headers
head world key heads w =
    let a : Asked Error = head_object world.head key heads in
    elim a.result [
      | err e ↦ (a.cache, w, some e)
      | ok out ↦
          let w' : Writer = record w {
            header = record w.header {
              content_length = elim out.content_length [
                | none ↦ w.header.content_length
                | some n ↦ some (format_int n)
              ];
            };
          } in
          let w'' : Writer = set_object_headers world.http_time out w' in
          (
            a.cache,
            write_header 200 (record w'' {
              header = record w''.header { accept_ranges = some (codes "bytes") };
            }),
            none,
          )
    ]
