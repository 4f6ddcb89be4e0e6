-- ===== src/Config.antt =====
-- The settings, and what the services are made of: NewDiskCache with ensureMarkers (services/cache.go),
-- validateFetcherConfig and NewFetcher (services/fetcher.go), NewEvictor and Evictor.runOnce
-- (services/eviction.go). Times are in nanoseconds.
pub mod Markers
pub mod Accepted
use s3_cache.Prelude.{
  ℕ, List, [], ◌∷◌, Option, none, some, Bool, true, false, Result, ok, err, if◌then◌else◌,
}
use s3_cache.Prelude.Int.{ℤ, pos, pos_part, div64, ltb_ℤ, leb_ℤ}
use s3_cache.Prelude.Assoc.{same}
use s3_cache.Singleflight.{Singleflight, new_singleflight}
use s3_cache.Budget.{ChunkBudget, new_chunk_budget}
use s3_cache.HeadCache.{HeadCache, new_head_cache}
use s3_cache.Eviction.{FileEntry, Evicted, SortSlice, sweep_shard}
use s3_cache.Readahead.{Readahead}
use s3_cache.Cache.Shards.{Host, ShardError}
use s3_cache.Cache.Names.{Places, cache_roots}
use s3_cache.Cache.Files.{Files, CacheState, Calls, Times, marker_time}

-- The flags of the fetcher.
pub record FetcherFlags : Type 0 where
  pub bucket : List ℕ
  pub chunk_size : ℤ
  pub workers : ℤ
  pub fetch_concurrency : ℤ
  pub chunk_fetch_timeout : ℤ
  pub head_cache_ttl : ℤ

pub data ConfigError : Type 0 where
  bucket_required bad_chunk_size bad_fetch_concurrency bad_timeout : ConfigError

-- Fetcher, but for its client of the store and its cache.
pub record Fetcher : Type 0 where
  pub bucket : List ℕ
  pub chunk_size : ℤ
  pub workers : ℤ
  pub group : Singleflight
  pub readahead : Option Readahead
  pub budget : ChunkBudget
  pub chunk_fetch_timeout : ℤ
  pub write_guard_timeout : ℤ
  pub heads : HeadCache

unfoldable pub validate_fetcher_config : ℤ → ℤ → ℤ → Option ConfigError
validate_fetcher_config chunk_size fetch_concurrency chunk_fetch_timeout =
    if ltb_ℤ chunk_size (pos 1)
    then some bad_chunk_size
    else if ltb_ℤ fetch_concurrency (pos 1)
    then some bad_fetch_concurrency
    else if leb_ℤ chunk_fetch_timeout (pos 0)
    then some bad_timeout
    else none

abbrev pub made : FetcherFlags → Option Readahead → Fetcher
made c readahead = record {
  bucket = c.bucket;
  chunk_size = c.chunk_size;
  workers = c.workers;
  group = new_singleflight;
  readahead = readahead;
  budget = new_chunk_budget (pos_part c.fetch_concurrency);
  chunk_fetch_timeout = c.chunk_fetch_timeout;
  write_guard_timeout = div64 c.chunk_fetch_timeout (pos 2);
  heads = new_head_cache c.head_cache_ttl;
}

-- NewFetcher; an error ends the program.
unfoldable pub new_fetcher : FetcherFlags → Option Readahead → Result ConfigError Fetcher
unfolding validate_fetcher_config
new_fetcher c readahead =
    if same c.bucket []
    then err bucket_required
    else elim (validate_fetcher_config c.chunk_size c.fetch_concurrency c.chunk_fetch_timeout) [
      | some e ↦ err e
      | none ↦ ok (made c readahead)
    ]

-- ensureMarkers over the listed roots; `calls` are the answers of the host at each.
unfoldable pub mark_roots : Times → (List ℕ → Calls) → List (List ℕ) → CacheState → CacheState
mark_roots times calls [] st = st
mark_roots times calls (dir ∷ dirs) st =
    mark_roots times calls dirs (marker_time times (calls dir) dir st).0

abbrev marked_roots :
    Times → (List ℕ → Calls) → Result ShardError (List (List ℕ)) → CacheState → CacheState
marked_roots times calls (err e) st = st
marked_roots times calls (ok dirs) st = mark_roots times calls dirs st

unfoldable pub ensure_markers :
    Host → Times → (List ℕ → Calls) → Option Places → CacheState → CacheState
unfolding mark_roots
ensure_markers host times calls none st = st
ensure_markers host times calls (some places) st =
    marked_roots times calls (cache_roots host places) st

-- NewDiskCache, on the files that are there.
unfoldable pub new_disk_cache :
    Host → Times → (List ℕ → Calls) → Bool → Places → Files → Option Places × CacheState
unfolding ensure_markers
new_disk_cache host times calls enabled places files =
    let fresh : CacheState = record { files = files; since = [] } in
    if enabled
    then (some places, ensure_markers host times calls (some places) fresh)
    else (none, fresh)

pub record Evictor : Type 0 where
  pub cache : Places
  pub max_bytes : ℤ
  pub interval : ℤ

unfoldable pub new_evictor : Option Places → ℤ → ℤ → Option Evictor
new_evictor none max_bytes interval = none
new_evictor (some places) max_bytes interval =
    if leb_ℤ max_bytes (pos 0)
    then none
    else some (record { cache = places; max_bytes = max_bytes; interval = interval })

-- What the evictor meets in a shard root: the time, the files of the walk, sort.Slice and which
-- files can be removed.
pub record Shard : Type 0 where
  pub now : ℕ
  pub files : List FileEntry
  pub sort_slice : SortSlice
  pub removes : FileEntry → Bool

unfoldable pub sweep_all : ℤ → (List ℕ → Shard) → List (List ℕ) → List (List ℕ × Evicted)
sweep_all max_bytes at [] = []
sweep_all max_bytes at (dir ∷ dirs) =
    let s : Shard = at dir in
    (dir, sweep_shard max_bytes s.now s.sort_slice s.removes s.files) ∷ sweep_all max_bytes at dirs

-- Evictor.runOnce: what each root's sweep came to.
unfoldable pub run_once : Host → (List ℕ → Shard) → Evictor → List (List ℕ × Evicted)
unfolding sweep_all
run_once host at e = elim (cache_roots host e.cache) [
  | err x ↦ []
  | ok dirs ↦ sweep_all e.max_bytes at dirs
]
