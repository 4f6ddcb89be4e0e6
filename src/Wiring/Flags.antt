-- ===== src/Wiring/Flags.antt =====
-- The flags of the program: RegisterWebFlags (services/web.go), RegisterFetcherFlags (services/fetcher.go),
-- RegisterCacheFlags (services/cache.go), RegisterReadaheadFlags (services/readahead.go),
-- RegisterEvictionFlags (services/eviction.go) and configure (configure.go). The usage texts are left
-- out. Times are in nanoseconds.
use s3_cache.Prelude.{ℕ, ◌*◌, List, [], ◌∷◌, ◌++◌, Bool}
use s3_cache.Prelude.Int.{ℤ, pos}
use s3_cache.Prelude.Text.{codes}

-- The kind of a flag, with its default.
pub data FlagValue : Type 0 where
  bool_flag : FlagValue
  string_flag : List ℕ → FlagValue
  int_flag : ℤ → FlagValue
  duration_flag : ℤ → FlagValue

pub record Flag : Type 0 where
  pub name : List ℕ
  pub env_var : List ℕ
  pub value : FlagValue

-- What the command line package gives for the name of a flag.
pub record Context : Type 0 where
  pub bool : List ℕ → Bool
  pub string : List ℕ → List ℕ
  pub int : List ℕ → ℤ
  pub duration : List ℕ → ℤ

abbrev pub bucket_flag : List ℕ
bucket_flag = codes "aws-bucket"

abbrev pub chunk_size_flag : List ℕ
chunk_size_flag = codes "chunk-size"

abbrev pub workers_flag : List ℕ
workers_flag = codes "workers"

abbrev pub fetch_concurrency_flag : List ℕ
fetch_concurrency_flag = codes "fetch-concurrency"

abbrev pub chunk_fetch_timeout_flag : List ℕ
chunk_fetch_timeout_flag = codes "chunk-fetch-timeout"

abbrev pub head_cache_ttl_flag : List ℕ
head_cache_ttl_flag = codes "head-cache-ttl"

abbrev pub cache_dir_flag : List ℕ
cache_dir_flag = codes "cache-dir"

abbrev pub cache_enabled_flag : List ℕ
cache_enabled_flag = codes "cache-enabled"

abbrev pub cache_shard_subdir_flag : List ℕ
cache_shard_subdir_flag = codes "cache-shard-subdir"

abbrev pub readahead_chunks_flag : List ℕ
readahead_chunks_flag = codes "readahead-chunks"

abbrev pub readahead_concurrency_flag : List ℕ
readahead_concurrency_flag = codes "readahead-concurrency"

abbrev pub readahead_timeout_flag : List ℕ
readahead_timeout_flag = codes "readahead-timeout"

abbrev pub eviction_max_bytes_flag : List ℕ
eviction_max_bytes_flag = codes "eviction-max-bytes"

abbrev pub eviction_interval_flag : List ℕ
eviction_interval_flag = codes "eviction-interval"

abbrev pub web_host_flag : List ℕ
web_host_flag = codes "host"

abbrev pub web_port_flag : List ℕ
web_port_flag = codes "port"

abbrev flag : List ℕ → List ℕ → FlagValue → Flag
flag name env_var value = record { name = name; env_var = env_var; value = value }

abbrev pub seconds : ℕ → ℤ
seconds n = pos (n * 1000000000)

unfoldable pub register_fetcher_flags : List Flag → List Flag
register_fetcher_flags f =
    f
    ++ flag chunk_size_flag (codes "CHUNK_SIZE") (int_flag (pos 4194304))
      ∷ flag workers_flag (codes "WORKERS") (int_flag (pos 8))
      ∷ flag bucket_flag (codes "AWS_BUCKET") (string_flag [])
      ∷ flag fetch_concurrency_flag (codes "FETCH_CONCURRENCY") (int_flag (pos 32))
      ∷ flag chunk_fetch_timeout_flag (codes "CHUNK_FETCH_TIMEOUT") (duration_flag (seconds 90))
      ∷ flag head_cache_ttl_flag (codes "HEAD_CACHE_TTL") (duration_flag (seconds 60))
      ∷ []

unfoldable pub register_cache_flags : List Flag → List Flag
register_cache_flags f =
    f
    ++ flag cache_enabled_flag (codes "CACHE_ENABLED") bool_flag
      ∷ flag cache_dir_flag (codes "CACHE_DIR") (string_flag (codes "/webtor/data*"))
      ∷ flag cache_shard_subdir_flag (codes "CACHE_SHARD_SUBDIR") (string_flag (codes "s3-cache"))
      ∷ []

unfoldable pub register_readahead_flags : List Flag → List Flag
register_readahead_flags f =
    f
    ++ flag readahead_chunks_flag (codes "READAHEAD_CHUNKS") (int_flag (pos 4))
      ∷ flag readahead_concurrency_flag (codes "READAHEAD_CONCURRENCY") (int_flag (pos 8))
      ∷ flag readahead_timeout_flag (codes "READAHEAD_TIMEOUT") (duration_flag (seconds 30))
      ∷ []

unfoldable pub register_eviction_flags : List Flag → List Flag
register_eviction_flags f =
    f
    ++ flag eviction_max_bytes_flag (codes "EVICTION_MAX_BYTES") (int_flag (pos 10737418240))
      ∷ flag eviction_interval_flag (codes "EVICTION_INTERVAL") (duration_flag (seconds 60))
      ∷ []

-- The Register functions of the common services.
pub record CommonFlags : Type 0 where
  pub probe_flags : List Flag → List Flag
  pub prom_flags : List Flag → List Flag
  pub pprof_flags : List Flag → List Flag
  pub s3_client_flags : List Flag → List Flag
  pub shutdown_flags : List Flag → List Flag

unfoldable pub register_web_flags : CommonFlags → List Flag → List Flag
register_web_flags cs f =
    cs.shutdown_flags f
    ++ flag web_host_flag (codes "WEB_HOST") (string_flag [])
      ∷ flag web_port_flag (codes "WEB_PORT") (int_flag (pos 8080))
      ∷ []

-- The flags of the program.
unfoldable pub configure : CommonFlags → List Flag
unfolding register_fetcher_flags register_cache_flags register_readahead_flags
    register_eviction_flags register_web_flags
configure cs = register_eviction_flags (
    register_readahead_flags (
      register_cache_flags (
        register_fetcher_flags (
          register_web_flags cs
            (cs.s3_client_flags (cs.pprof_flags (cs.prom_flags (cs.probe_flags []))))))))
