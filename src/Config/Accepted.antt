-- ===== src/Config/Accepted.antt =====
-- services/fetcher.go, NewFetcher: which settings are accepted, and that those can serve.
use s3_cache.Prelude.{
  ℕ, ◌<◌, ◌/◌, ◌≡◌, ◌⊎◌, refl, inl, inr, [], Option, true, false, ok, err, arith, Bool-cases,
}
use s3_cache.Prelude.Int.{ℤ, pos, negsuc, ltb_ℤ, leb_ℤ, pos_part, div64, ◌<ℤ◌, ◌≤ℤ◌}
use s3_cache.Prelude.Assoc.{same, eq_of_same}
use s3_cache.Budget.{new_chunk_budget, acquire}
use s3_cache.Readahead.{Readahead}
use s3_cache.Config.{
  FetcherFlags, ConfigError, Fetcher, bucket_required, bad_chunk_size, bad_fetch_concurrency,
  bad_timeout, validate_fetcher_config, new_fetcher, made,
}

-- The settings under which a cache miss can be served.
pub record Serves (c : FetcherFlags) : Type 0 where
  pub has_bucket : same c.bucket [] ≡ false
  pub has_size : pos 0 <ℤ c.chunk_size
  pub has_buffers : pos 0 <ℤ c.fetch_concurrency
  pub has_time : pos 0 <ℤ c.chunk_fetch_timeout

-- What an error of NewFetcher says of the settings.
abbrev pub Blames : FetcherFlags → ConfigError → Type 0
Blames c bucket_required = c.bucket ≡ []
Blames c bad_chunk_size = c.chunk_size ≤ℤ pos 0
Blames c bad_fetch_concurrency = c.fetch_concurrency ≤ℤ pos 0
Blames c bad_timeout = c.chunk_fetch_timeout ≤ℤ pos 0

first_acquire : (id units : ℕ) → 0 < units → (acquire id (new_chunk_budget units)).1 ≡ true
unfolding acquire new_chunk_budget
first_acquire id units h = ground arith

half : (z : ℤ) → pos 0 <ℤ z → div64 z (pos 2) ≡ pos (pos_part z / 2)
unfolding div64
half (pos n) h = refl
half (negsuc n) h = absurd (omega arith)

-- NewFetcher either accepts settings under which misses can be served, and then its budget has a unit
-- for the first fetch, its chunk size and its timeout are those of the settings, and the write guard
-- has half that timeout; or it refuses, and names a setting under which none can be served.
pub new_fetcher-Serves :
    (c : FetcherFlags) (readahead : Option Readahead)
    → ((f : Fetcher) × (new_fetcher c readahead ≡ ok f)
        × Serves c
        × ((id : ℕ) → (acquire id f.budget).1 ≡ true)
        × (f.chunk_size ≡ c.chunk_size)
        × (f.chunk_fetch_timeout ≡ c.chunk_fetch_timeout)
        × (f.write_guard_timeout ≡ pos (pos_part c.chunk_fetch_timeout / 2)))
      ⊎ ((e : ConfigError) × (new_fetcher c readahead ≡ err e) × Blames c e)
unfolding new_fetcher
new_fetcher-Serves c readahead = elim (Bool-cases (same c.bucket [])) [
  | inl e ↦ inr (bucket_required, rw e refl, eq_of_same c.bucket [] e)
  | inr e ↦ elim (Bool-cases (ltb_ℤ c.chunk_size (pos 1))) [
    | inl p ↦
        inr
          (bad_chunk_size, rw (new_fetcher, e, validate_fetcher_config, p) refl, ground (arith, p))
    | inr p ↦ elim (Bool-cases (ltb_ℤ c.fetch_concurrency (pos 1))) [
      | inl q ↦ inr (
        bad_fetch_concurrency,
        rw (new_fetcher, e, validate_fetcher_config, p, q) refl,
        ground (arith, q),
      )
      | inr q ↦ elim (Bool-cases (leb_ℤ c.chunk_fetch_timeout (pos 0))) [
        | inl t ↦ inr (
          bad_timeout,
          rw (new_fetcher, e, validate_fetcher_config, p, q, t) refl,
          ground (arith, t),
        )
        | inr t ↦
            let buffers : pos 0 <ℤ c.fetch_concurrency = ground (arith, q) in
            let time : pos 0 <ℤ c.chunk_fetch_timeout = ground (arith, t) in
            inl (
              made c readahead,
              rw (new_fetcher, e, validate_fetcher_config, p, q, t) refl,
              record {
                has_bucket = e;
                has_size = ground (arith, p);
                has_buffers = buffers;
                has_time = time;
              },
              λ id. first_acquire id (pos_part c.fetch_concurrency) (omega arith),
              refl,
              refl,
              half c.chunk_fetch_timeout time,
            )
      ]
    ]
  ]
]
