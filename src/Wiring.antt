-- ===== src/Wiring.antt =====
-- configure.go: how the program is put together, from the values of its flags. Of the common services
-- and of the command line package, what the program relies on is an argument.
pub mod Flags
pub mod Closing
pub mod Defaults
use s3_cache.Prelude.{
  ℕ, List, [], ◌∷◌, ◌++◌, Option, none, some, Bool, true, false, not, Result, ok, err, is_some,
  if◌then◌else◌,
}
use s3_cache.Prelude.Int.{ℤ}
use s3_cache.Readahead.{Readahead, new_readahead}
use s3_cache.Cache.Shards.{Host}
use s3_cache.Cache.Names.{Places}
use s3_cache.Cache.Files.{Files, CacheState, Calls, Times}
use s3_cache.Config.{
  FetcherFlags, ConfigError, Fetcher, new_fetcher, new_disk_cache, Evictor, new_evictor,
}
use s3_cache.Wiring.Flags.{
  Context, bucket_flag, chunk_size_flag, workers_flag, fetch_concurrency_flag,
  chunk_fetch_timeout_flag, head_cache_ttl_flag, cache_dir_flag, cache_enabled_flag,
  cache_shard_subdir_flag, readahead_chunks_flag, readahead_concurrency_flag,
  readahead_timeout_flag, eviction_max_bytes_flag, eviction_interval_flag, web_host_flag,
  web_port_flag,
}

-- What NewFetcher, NewDiskCache, NewReadahead, NewEvictor and NewWeb read of the flags.
unfoldable pub fetcher_settings : Context → FetcherFlags
fetcher_settings c = record {
  bucket = c.string bucket_flag;
  chunk_size = c.int chunk_size_flag;
  workers = c.int workers_flag;
  fetch_concurrency = c.int fetch_concurrency_flag;
  chunk_fetch_timeout = c.duration chunk_fetch_timeout_flag;
  head_cache_ttl = c.duration head_cache_ttl_flag;
}

unfoldable pub cache_places : Context → Places
cache_places c = record {
  location = c.string cache_dir_flag;
  subdir = c.string cache_shard_subdir_flag;
}

unfoldable pub readahead_from : Context → Readahead
readahead_from c =
    new_readahead (c.int readahead_chunks_flag) (c.int readahead_concurrency_flag)
      (c.duration readahead_timeout_flag)

unfoldable pub evictor_from : Context → Option Places → Option Evictor
evictor_from c cache =
    new_evictor cache (c.int eviction_max_bytes_flag) (c.duration eviction_interval_flag)

pub record WebServer : Type 0 where
  pub host : List ℕ
  pub port : ℤ
  pub fetcher : Fetcher

unfoldable pub new_web : Context → Fetcher → WebServer
new_web c fetcher = record {
  host = c.string web_host_flag;
  port = c.int web_port_flag;
  fetcher = fetcher;
}

pub data Server : Type 0 where
  probe prom pprof evictor web : Server

-- The servers so far, and the deferred calls of Close, the next to run first.
pub record Started : Type 0 where
  pub servers : List Server
  pub deferred : List Server

abbrev pub nothing_started : Started
nothing_started = record { servers = []; deferred = [] }

-- A server that is made is served, and closed in the end.
unfoldable pub start_server : Bool → Server → Started → Started
start_server made s st =
    if made then record { servers = st.servers ++ s ∷ []; deferred = s ∷ st.deferred } else st

-- What `run` meets: the flags, which of the common services are switched on, whether the client of
-- the store is configured, and the host with its files.
pub record World : Type 0 where
  pub context : Context
  pub probe_on : Bool
  pub prom_on : Bool
  pub pprof_on : Bool
  pub s3_client : Bool
  pub host : Host
  pub times : Times
  pub calls : List ℕ → Calls
  pub files : Files

pub data Fatal : Type 0 where
  no_s3_client : Fatal
  bad_settings : ConfigError → Fatal

-- The program as it is served.
pub record Program : Type 0 where
  pub cache : Option Places
  pub disk : CacheState
  pub front : WebServer
  pub sweeper : Option Evictor
  pub started : Started

abbrev pub services : World → Started
services w =
    start_server w.pprof_on pprof
      (start_server w.prom_on prom (start_server w.probe_on probe nothing_started))

abbrev pub assembled : World → Option Places × CacheState → Fetcher → Program
assembled w (cache, disk) fetcher =
    let sweeper : Option Evictor = evictor_from w.context cache in
    record {
      cache = cache;
      disk = disk;
      front = new_web w.context fetcher;
      sweeper = sweeper;
      started = start_server true web (start_server (is_some sweeper) evictor (services w));
    }

-- `run` up to the call of Serve; a fatal error ends the process, and nothing that is deferred runs.
unfoldable pub assemble : World → Result Fatal Program
unfolding start_server evictor_from new_web fetcher_settings cache_places readahead_from
assemble w =
    if not w.s3_client
    then err no_s3_client
    else elim (new_fetcher (fetcher_settings w.context) (some (readahead_from w.context))) [
      | err e ↦ err (bad_settings e)
      | ok fetcher ↦ ok (
          assembled w
            (new_disk_cache w.host w.times w.calls (w.context.bool cache_enabled_flag)
              (cache_places w.context) w.files)
            fetcher)
    ]

-- What `run` has closed when it returns, whether Serve returns an error or not.
unfoldable pub closed_by_run : Program → List Server
closed_by_run p = p.started.deferred
