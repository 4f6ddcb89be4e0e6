-- ===== src/Tests/Serving.antt =====
-- A response of three chunks (services/fetcher.go, serveAligned) at a concrete request.
use s3_cache.Prelude.{
  ℕ, zero, suc, ◌+◌, ◌*◌, ◌/◌, ◌≡◌, ◌≤◌, refl, arith, List, [], ◌∷◌, none, some, true, ok, extract,
  length,
}
use s3_cache.Prelude.Int.{pos, sub64, add64, mul64, div64}
use s3_cache.Prelude.Text.{codes}
use s3_cache.Chunk.{ChunkResult, Via, size}
use s3_cache.Http.{Error, Writer, fresh_writer}
use s3_cache.WriteGuard.{WriteGuard, new_write_guard}
use s3_cache.Fetcher.Serve.{Turn, got, Outcome, chunk_bounds, first_chunk, serve_aligned}
use s3_cache.Prelude.Assoc.{lookup}
use s3_cache.HeadCache.{Head, HeadCache, get, head_object}
use s3_cache.Web.Handle.{HttpRequest, Handled, handle}
use s3_cache.Web.Handle.Answers.{handle-RangeAnswer}
use s3_cache.Prelude.Text.{NumError}
use s3_cache.Fetcher.Get.{Got}
use s3_cache.Web.Range.Forms.{print, between}
use s3_cache.Fetcher.Get
use s3_cache.Fetcher.Get.{World}
use s3_cache.Fetcher.Get.Whole.{plain, HonestWhole, WholeAnswer, get-WholeAnswer}
use s3_cache.Fetcher.Get.Ranges.{asking, HonestWorld, RangeAnswer, get-RangeAnswer}
use s3_cache.Fetcher.Serve.Plan.{Fits, job}
use s3_cache.Fetcher.Serve.Pieces.{Honest, bytes_within}
use s3_cache.Fetcher.Serve.Response.{IsFresh, success, success_headers}
use s3_cache.Fetcher.Serve.Complete.{Arrives, serve_aligned_complete}

abbrev object : List ℕ
object = codes "0123456789"

fits : Fits 4 3 8 (length object)
fits = record {
  size_pos = omega arith;
  ordered = omega arith;
  inside = omega arith;
  small = omega arith;
}

abbrev chunk_of : List ℕ → ChunkResult Error
chunk_of bytes = record {
  payload = some bytes;
  file = none;
  section = none;
  file_size = pos 0;
  error = none;
  chunk_start = pos 0;
  via = some Via.buffer;
  done = none;
}

abbrev turns : ℕ → Turn
turns i = record {
  arrival = got (chunk_of (extract object (i * 4) 4));
  before = pos 1 ∷ [];
  now = pos 2;
  during = [];
  flush_ok = true;
}

abbrev guard : WriteGuard
guard = new_write_guard true (pos 30)

abbrev client : Writer
client = fresh_writer 100

honest : (i : ℕ) → 3 / 4 + i ≤ 8 / 4 → Honest object (job 4 3 8 10 true) i (turns i).arrival
unfolding size chunk_bounds sub64 add64 mul64 div64
honest zero h = λ e. (refl, refl)
honest (suc zero) h = λ e. (refl, refl)
honest (suc (suc zero)) h = λ e. (refl, refl)
honest (suc (suc (suc i))) h = absurd (omega arith)

arrives : (i : ℕ) → 3 / 4 + i ≤ 8 / 4 → Arrives (turns i)
arrives i h = record {
  res = chunk_of (extract object (i * 4) 4);
  here = refl;
  fine = refl;
  flushes = refl;
}

client-IsFresh : IsFresh client
client-IsFresh = record { no_status = refl; no_body = refl }

serve_aligned_complete_example :
    let o : Outcome = serve_aligned (job 4 3 8 10 true) turns guard client in
    (o.failed ≡ none)
    × (o.writer.status ≡ some (success true))
    × (o.writer.sent ≡ some (success_headers 3 8 10 true client.header))
    × (o.writer.body ≡ codes "345678")
    × (o.kick ≡ some (pos 3))
serve_aligned_complete_example =
    serve_aligned_complete object 4 3 8 true fits turns guard client honest arrives client-IsFresh
      (omega arith)

abbrev heads : HeadCache
heads = record { m = []; ttl = pos 60; limit = 8192 }

abbrev answer : Head
answer = record {
  content_length = some (pos 10);
  content_type = none;
  etag = some (codes "e1");
  last_modified = none;
}

abbrev world : World
world = record {
  http_time = λ t. [];
  head = record { first = 1; second = 2; stored = 3; order = []; answer = ok answer };
  turns = λ v j i. record {
    arrival =
        got (chunk_of (bytes_within object (chunk_bounds j.chunk_size j.total (first_chunk j) i)));
    before = [];
    now = pos 2;
    during = [];
    flush_ok = true;
  };
}

asked_head : (head_object world.head (codes "k") heads).result ≡ ok answer
unfolding head_object get lookup
asked_head = refl

world-Honest : HonestWorld object 4 (between 3 8) world (codes "k") answer
unfolding size
world-Honest s e i h k l = λ p. (refl, refl)

get-RangeAnswer_example :
    RangeAnswer object
      (between 3 8)
      answer
      world.http_time
      client
      (Get.get world (pos 4) (asking (codes "k") (between 3 8)) heads guard client)
get-RangeAnswer_example =
    get-RangeAnswer object 4 (between 3 8) world (codes "k") answer heads guard client
      (omega arith, omega arith) (omega arith) (omega arith) asked_head refl world-Honest
      client-IsFresh

abbrev num_error_text : List ℕ → NumError → List ℕ
num_error_text header e = header

-- A POST is refused.
abbrev post : HttpRequest
post = record { method = codes "POST"; path = codes "/k"; range = [] }

handle-RangeAnswer_example :
    let q : HttpRequest = record {
      method = codes "GET";
      path = codes "/k";
      range = print (between 3 8);
    } in
    let r : Handled = handle world num_error_text (pos 4) q heads guard client in
    (res : Got) × (r.got ≡ some res)
    × (r.writer ≡ res.writer)
    × (r.heads ≡ res.heads)
    × RangeAnswer object (between 3 8) answer world.http_time client res
handle-RangeAnswer_example =
    handle-RangeAnswer object 4 (between 3 8) world b'k' [] answer num_error_text heads guard client
      (omega arith, omega arith) (omega arith) (omega arith) asked_head refl world-Honest
      client-IsFresh

world-HonestWhole : HonestWhole 4 world (codes "k") answer object
unfolding size
world-HonestWhole i h = λ p. (refl, refl)

get-WholeAnswer_example :
    WholeAnswer object answer world.http_time client
      (Get.get world (pos 4) (plain (codes "k")) heads guard client)
get-WholeAnswer_example =
    get-WholeAnswer 4 world (codes "k") answer object heads guard client (omega arith) (omega arith)
      asked_head refl world-HonestWhole client-IsFresh
