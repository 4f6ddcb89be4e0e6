-- ===== src/Tests/Programs.antt =====
-- The program as it is put together (configure.go) at concrete settings.
use s3_cache.Prelude.{
  ℕ, ◌≡◌, ◌≢◌, ◌⊎◌, refl, List, [], ◌∷◌, ◌++◌, none, Bool, true, false, ok, err, if◌then◌else◌,
  Bool-cases, inl, inr,
}
use s3_cache.Prelude.Int.{pos}
use s3_cache.Prelude.Assoc.{same, eq_of_same}
use s3_cache.Prelude.Text.{codes}
use s3_cache.Config.{Fetcher, new_fetcher}
use s3_cache.Config.Accepted.{Serves}
use s3_cache.Wiring.Flags.{
  Flag, Context, CommonFlags, bucket_flag, chunk_size_flag, workers_flag, fetch_concurrency_flag,
  chunk_fetch_timeout_flag, cache_dir_flag, cache_shard_subdir_flag, readahead_chunks_flag,
  readahead_concurrency_flag, readahead_timeout_flag, eviction_max_bytes_flag, seconds,
  register_web_flags, register_fetcher_flags, register_cache_flags, register_readahead_flags,
  register_eviction_flags, configure,
}
use s3_cache.Wiring.{World, Program, Fatal, assemble, fetcher_settings}
use s3_cache.Wiring.Closing.{IsServed, Cause, assemble-IsServed}
use s3_cache.Wiring.Defaults.{Registered, here, there, AtDefault, Answers, defaults_accepted}
use s3_cache.Tests.Fixture.{host, times, calls}

-- Common services without flags of their own.
abbrev common : CommonFlags
common = record {
  probe_flags = λ f. f;
  prom_flags = λ f. f;
  pprof_flags = λ f. f;
  s3_client_flags = λ f. f;
  shutdown_flags = λ f. f;
}

abbrev is_bucket : List ℕ → Bool
is_bucket name = same name bucket_flag

abbrev pick {ℓ} : {A : Type ℓ} → List (List ℕ × A) → A → List ℕ → A
pick [] x name = x
pick ((key, value) ∷ rest) x name =
    let other = pick rest x name in if same name key then value else other

-- Only the bucket is set.
abbrev context : Context
context = record {
  bool = λ name. false;
  string =
      pick
        ((bucket_flag, codes "b")
          ∷ (cache_dir_flag, codes "/webtor/data*")
          ∷ (cache_shard_subdir_flag, codes "s3-cache")
          ∷ [])
        [];
  int =
      pick
        ((chunk_size_flag, pos 4194304)
          ∷ (workers_flag, pos 8)
          ∷ (fetch_concurrency_flag, pos 32)
          ∷ (readahead_chunks_flag, pos 4)
          ∷ (readahead_concurrency_flag, pos 8)
          ∷ (eviction_max_bytes_flag, pos 10737418240)
          ∷ [])
        (pos 8080);
  duration =
      pick ((chunk_fetch_timeout_flag, seconds 90) ∷ (readahead_timeout_flag, seconds 30) ∷ [])
        (seconds 60);
}

in_web :
    (f : Flag)
    → Registered f (register_web_flags common [])
    → is_bucket f.name ≡ false
    → AtDefault context f.name f.value
unfolding register_web_flags same
in_web f here h = refl
in_web f (there here) h = refl
in_web f (there (there r)) h = elim r [ ]

in_fetcher :
    (f : Flag)
    → Registered f (register_fetcher_flags [])
    → is_bucket f.name ≡ false
    → AtDefault context f.name f.value
unfolding register_fetcher_flags same
in_fetcher f here h = refl
in_fetcher f (there here) h = refl
in_fetcher f (there (there here)) h = absurd (cc)
in_fetcher f (there (there (there here))) h = refl
in_fetcher f (there (there (there (there here)))) h = refl
in_fetcher f (there (there (there (there (there here))))) h = refl
in_fetcher f (there (there (there (there (there (there r)))))) h = elim r [ ]

in_cache :
    (f : Flag)
    → Registered f (register_cache_flags [])
    → is_bucket f.name ≡ false
    → AtDefault context f.name f.value
unfolding register_cache_flags same
in_cache f here h = refl
in_cache f (there here) h = refl
in_cache f (there (there here)) h = refl
in_cache f (there (there (there r))) h = elim r [ ]

in_readahead :
    (f : Flag)
    → Registered f (register_readahead_flags [])
    → is_bucket f.name ≡ false
    → AtDefault context f.name f.value
unfolding register_readahead_flags same
in_readahead f here h = refl
in_readahead f (there here) h = refl
in_readahead f (there (there here)) h = refl
in_readahead f (there (there (there r))) h = elim r [ ]

in_eviction :
    (f : Flag)
    → Registered f (register_eviction_flags [])
    → is_bucket f.name ≡ false
    → AtDefault context f.name f.value
unfolding register_eviction_flags same
in_eviction f here h = refl
in_eviction f (there here) h = refl
in_eviction f (there (there r)) h = elim r [ ]

Registered-split :
    {f : Flag} (fs gs : List Flag) → Registered f (fs ++ gs) → Registered f fs ⊎ Registered f gs
Registered-split [] gs r = inr r
Registered-split (g ∷ fs) gs here = inl here
Registered-split (g ∷ fs) gs (there r) = elim (Registered-split fs gs r) [
  | inl q ↦ inl (there q)
  | inr q ↦ inr q
]

answers : Answers (configure common) is_bucket context
unfolding configure register_web_flags register_fetcher_flags register_cache_flags
    register_readahead_flags register_eviction_flags
answers f r h = elim (Registered-split _ _ r) [
  | inr q ↦ in_eviction f q h
  | inl r1 ↦ elim (Registered-split _ _ r1) [
    | inr q ↦ in_readahead f q h
    | inl r2 ↦ elim (Registered-split _ _ r2) [
      | inr q ↦ in_cache f q h
      | inl r3 ↦ elim (Registered-split _ _ r3) [ inr q ↦ in_fetcher f q h | inl q ↦ in_web f q h ]
    ]
  ]
]

only_bucket : (name : List ℕ) → name ≢ bucket_flag → is_bucket name ≡ false
only_bucket name h = elim (Bool-cases (is_bucket name)) [
  | inl e ↦ absurd (h (eq_of_same name bucket_flag e))
  | inr e ↦ e
]

defaults_accepted_example :
    (f : Fetcher) × (new_fetcher (fetcher_settings context) none ≡ ok f)
    × (f.bucket ≡ codes "b")
    × (f.chunk_size ≡ pos 4194304)
    × (f.budget.capacity ≡ 32)
    × (f.chunk_fetch_timeout ≡ seconds 90)
    × (f.write_guard_timeout ≡ seconds 45)
unfolding same
defaults_accepted_example =
    defaults_accepted common is_bucket context none answers only_bucket (λ e. absurd (cc))

abbrev world : World
world = record {
  context = context;
  probe_on = true;
  prom_on = false;
  pprof_on = false;
  s3_client = true;
  host = host;
  times = times;
  calls = λ dir. calls;
  files = [];
}

assemble-IsServed_example :
    ((p : Program) × (assemble world ≡ ok p)
      × IsServed world p
      × (world.s3_client ≡ true)
      × Serves (fetcher_settings world.context))
    ⊎ ((x : Fatal) × (assemble world ≡ err x) × Cause world x)
assemble-IsServed_example = assemble-IsServed world
