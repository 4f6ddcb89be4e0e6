-- ===== src/Tests/Chunks.antt =====
-- Chunks, flights and the head cache at concrete inputs.
use s3_cache.Prelude.{ℕ, ◌≡◌, refl, arith, [], ◌∷◌, none, some, true, err}
use s3_cache.Prelude.Int.{pos}
use s3_cache.Prelude.Assoc.{lookup, member}
use s3_cache.Prelude.Text.{codes}
use s3_cache.Chunk.{ChunkResult, Via, send, write_slice, size}
use s3_cache.Chunk.Slice.{IsWhole, write_slice-served}
use s3_cache.Flight.{ChunkFlight}
use s3_cache.HeadCache.{Head, HeadCache, Env, shed_expired}
use s3_cache.HeadCache.Bounded.{Covers}

abbrev some_chunk : ChunkResult ℕ
some_chunk = record {
  payload = none;
  file = some (codes "abcdefgh");
  section = none;
  file_size = pos 8;
  error = none;
  chunk_start = pos 16;
  via = some Via.file;
  done = none;
}

some_chunk-IsWhole : IsWhole some_chunk
unfolding size
some_chunk-IsWhole = refl

write_slice-served_example :
    write_slice some_chunk (pos 18) (pos 21) 100 ≡ send 100 4 (codes "cdef")
write_slice-served_example =
    write_slice-served some_chunk 16 18 21 100 some_chunk-IsWhole refl (omega arith) (omega arith)
      (omega arith)

abbrev pinned_flight : ChunkFlight
pinned_flight = record {
  error = none;
  size = pos 3;
  path = codes "/cache/0a/b";
  pin = some (codes "xyz");
  buf = none;
  free = true;
  refs = pos 2;
}

abbrev some_head : Head
some_head = record {
  content_length = some (pos 10);
  content_type = none;
  etag = some (codes "e1");
  last_modified = none;
}

abbrev empty_heads : HeadCache
empty_heads = record { m = []; ttl = pos 60; limit = 8192 }

abbrev full_heads : HeadCache
full_heads = record {
  m = (codes "a", record { out = some_head; at = 0 }) ∷ [];
  ttl = pos 60;
  limit = 1;
}

full_heads-Covers : Covers (codes "a" ∷ []) (shed_expired 5 full_heads.ttl full_heads.m)
unfolding shed_expired lookup member
full_heads-Covers k h = ground arith

abbrev outage : Env ℕ
outage = record { first = 100; second = 101; stored = 102; order = []; answer = err 503 }

abbrev stale_heads : HeadCache
stale_heads = record {
  m = (codes "k", record { out = some_head; at = 5 }) ∷ [];
  ttl = pos 60;
  limit = 8192;
}
