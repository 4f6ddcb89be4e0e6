-- ===== src/Wiring/Defaults.antt =====
-- The flags' defaults (services/fetcher.go, RegisterFetcherFlags): with a bucket they can serve.
use s3_cache.Prelude.{
  ℕ, ◌≡◌, ◌≢◌, refl, ap, inl, inr, List, [], ◌∷◌, ◌++◌, Option, none, Bool, false, ok, arith,
  Bool-cases,
}
use s3_cache.Prelude.Int.{pos, pos_part, div64}
use s3_cache.Prelude.Assoc.{same, same_refl, eq_of_same}
use s3_cache.Budget.{new_chunk_budget}
use s3_cache.Readahead.{Readahead}
use s3_cache.Config.{FetcherFlags, Fetcher, validate_fetcher_config, new_fetcher, made}
use s3_cache.Wiring.Flags.{
  FlagValue, bool_flag, string_flag, int_flag, duration_flag, Flag, Context, CommonFlags,
  bucket_flag, chunk_size_flag, fetch_concurrency_flag, chunk_fetch_timeout_flag, seconds,
  register_fetcher_flags, register_cache_flags, register_readahead_flags, register_eviction_flags,
  configure,
}
use s3_cache.Wiring.{fetcher_settings}

-- A flag is one of those registered.
pub data Registered (f : Flag) : List Flag → Type 0 where
  here : {fs : List Flag} → Registered f (f ∷ fs)
  there : {g : Flag} {fs : List Flag} → Registered f fs → Registered f (g ∷ fs)

-- A flag has its default.
abbrev pub AtDefault : Context → List ℕ → FlagValue → Type 0
AtDefault c name bool_flag = c.bool name ≡ false
AtDefault c name (string_flag v) = c.string name ≡ v
AtDefault c name (int_flag v) = c.int name ≡ v
AtDefault c name (duration_flag v) = c.duration name ≡ v

-- The command line package gives the default of each registered flag that was not set.
abbrev pub Answers : List Flag → (List ℕ → Bool) → Context → Type 0
Answers flags is_set c =
    (f : Flag) → Registered f flags → is_set f.name ≡ false → AtDefault c f.name f.value

Registered-left : {f : Flag} (fs gs : List Flag) → Registered f fs → Registered f (fs ++ gs)
Registered-left fs gs here = here
Registered-left fs gs (there r) = there (Registered-left _ gs r)

Registered-right : {f : Flag} (fs gs : List Flag) → Registered f gs → Registered f (fs ++ gs)
Registered-right [] gs r = r
Registered-right (g ∷ fs) gs r = there (Registered-right fs gs r)

-- What the fetcher registers is registered.
fetcher_flags-Registered :
    {f : Flag} (cs : CommonFlags)
    → Registered f (register_fetcher_flags [])
    → Registered f (configure cs)
unfolding configure register_fetcher_flags register_cache_flags register_readahead_flags
    register_eviction_flags
fetcher_flags-Registered cs r =
    Registered-left _ _ (Registered-left _ _ (Registered-left _ _ (Registered-right _ _ r)))

other_name : (a b : List ℕ) → same a b ≡ false → a ≢ b
other_name a b h e = absurd (ground (arith, h, same_refl b, ap (λ x. same x b) e))

accepted :
    (s : FetcherFlags) (readahead : Option Readahead)
    → s.bucket ≢ []
    → s.chunk_size ≡ pos 4194304
    → s.fetch_concurrency ≡ pos 32
    → s.chunk_fetch_timeout ≡ seconds 90
    → new_fetcher s readahead ≡ ok (made s readahead)
unfolding new_fetcher validate_fetcher_config
accepted s readahead bucket size buffers time = elim (Bool-cases (same s.bucket [])) [
  | inl e ↦ absurd (bucket (eq_of_same s.bucket [] e))
  | inr e ↦
      let fine : validate_fetcher_config s.chunk_size s.fetch_concurrency s.chunk_fetch_timeout
          ≡ none =
        rw (size, buffers, time) refl in
      rw (new_fetcher, e, fine) refl
]

-- Out of the box, with no flag set but the bucket, NewFetcher accepts the settings; its chunks have 4 MiB,
-- its budget has 32 units, and a fetch and a write have 90 and 45 seconds.
pub defaults_accepted :
    (cs : CommonFlags) (is_set : List ℕ → Bool) (c : Context) (readahead : Option Readahead)
    → Answers (configure cs) is_set c
    → ((name : List ℕ) → name ≢ bucket_flag → is_set name ≡ false)
    → c.string bucket_flag ≢ []
    → (f : Fetcher) × (new_fetcher (fetcher_settings c) readahead ≡ ok f)
      × (f.bucket ≡ c.string bucket_flag)
      × (f.chunk_size ≡ pos 4194304)
      × (f.budget.capacity ≡ 32)
      × (f.chunk_fetch_timeout ≡ seconds 90)
      × (f.write_guard_timeout ≡ seconds 45)
unfolding fetcher_settings register_fetcher_flags same new_chunk_budget div64
defaults_accepted cs is_set c readahead answers unset bucket =
    let size : c.int chunk_size_flag ≡ pos 4194304 =
      answers _ (fetcher_flags-Registered cs here) (unset _ (other_name _ bucket_flag refl)) in
    let buffers : c.int fetch_concurrency_flag ≡ pos 32 =
      answers _ (fetcher_flags-Registered cs (there (there (there here))))
        (unset _ (other_name _ bucket_flag refl)) in
    let time : c.duration chunk_fetch_timeout_flag ≡ seconds 90 =
      answers _ (fetcher_flags-Registered cs (there (there (there (there here)))))
        (unset _ (other_name _ bucket_flag refl)) in
    (
      made (fetcher_settings c) readahead,
      accepted (fetcher_settings c) readahead bucket size buffers time,
      refl,
      size,
      ap pos_part buffers,
      time,
      ap (λ t. div64 t (pos 2)) time,
    )
