-- ===== src/Wiring/Closing.antt =====
-- configure.go, run: what is served, what is closed in the end, and when the program does not start.
use s3_cache.Prelude.{
  ◌≡◌, ◌⊎◌, refl, sym, inl, inr, List, [], ◌∷◌, ◌++◌, append-nil, append_assoc, Option, some, Bool,
  true, false, ok, err, is_some, if◌then◌else◌, ◌&&◌, Bool-cases, arith,
}
use s3_cache.Prelude.Int.{ℤ, pos, ltb_ℤ}
use s3_cache.Cache.Names.{Places}
use s3_cache.Cache.Files.{CacheState}
use s3_cache.Config.{Fetcher, ConfigError, new_disk_cache, new_evictor}
use s3_cache.Config.Accepted.{Serves, Blames, new_fetcher-Serves}
use s3_cache.Wiring.Flags.{Context, cache_enabled_flag, eviction_max_bytes_flag}
use s3_cache.Wiring.{
  services, nothing_started, Server, probe, prom, pprof, evictor, web, Started, start_server, World,
  Fatal, no_s3_client, bad_settings, Program, fetcher_settings, readahead_from, cache_places,
  evictor_from, assembled, assemble, closed_by_run,
}

abbrev pub backwards : List Server → List Server
backwards [] = []
backwards (x ∷ xs) = backwards xs ++ x ∷ []

backwards-append : (xs : List Server) (x : Server) → backwards (xs ++ x ∷ []) ≡ x ∷ backwards xs
backwards-append [] x = refl
backwards-append (y ∷ xs) x = rw (backwards-append xs x) refl

abbrev pub only : Bool → Server → List Server
only made s = if made then s ∷ [] else []

start_server-servers :
    (made : Bool) (s : Server) (st : Started)
    → (start_server made s st).servers ≡ st.servers ++ only made s
unfolding start_server
start_server-servers true s st = refl
start_server-servers false s st = sym (append-nil st.servers)

start_server-deferred :
    (made : Bool) (s : Server) (st : Started)
    → st.deferred ≡ backwards st.servers
    → (start_server made s st).deferred ≡ backwards (start_server made s st).servers
unfolding start_server
start_server-deferred true s st h = rw (backwards-append st.servers s, h) refl
start_server-deferred false s st h = h

-- Why the program does not start.
pub data Cause (w : World) : Fatal → Type 0 where
  no_client : w.s3_client ≡ false → Cause w no_s3_client
  blamed :
      (e : ConfigError)
      → w.s3_client ≡ true
      → Blames (fetcher_settings w.context) e
      → Cause w (bad_settings e)

-- The evictor runs if there is a cache and a cap.
abbrev pub is_swept : Context → Bool
is_swept c = c.bool cache_enabled_flag && ltb_ℤ (pos 0) (c.int eviction_max_bytes_flag)

pub record IsServed (w : World) (p : Program) : Type 0 where
  pub servers :
      p.started.servers
      ≡ only w.probe_on probe
        ++ (only w.prom_on prom
            ++ (only w.pprof_on pprof ++ (only (is_swept w.context) evictor ++ web ∷ [])))
  pub closes : closed_by_run p ≡ backwards p.started.servers
  pub drains : (rest : List Server) × (closed_by_run p ≡ web ∷ rest)

-- NewEvictor makes one for a positive cap.
capped :
    (places : Places) (max interval : ℤ)
    → is_some (new_evictor (some places) max interval) ≡ ltb_ℤ (pos 0) max
unfolding new_evictor
capped places max interval = ground arith

abbrev disk_of : World → Option Places × CacheState
disk_of w =
    new_disk_cache w.host w.times w.calls (w.context.bool cache_enabled_flag)
      (cache_places w.context) w.files

swept_iff : (w : World) → is_some (evictor_from w.context (disk_of w).0) ≡ is_swept w.context
unfolding new_disk_cache evictor_from new_evictor
swept_iff w = elim (Bool-cases (w.context.bool cache_enabled_flag)) [
  | inl e ↦
      rw (new_disk_cache, evictor_from, e)
        (capped (cache_places w.context) (w.context.int eviction_max_bytes_flag) _)
  | inr e ↦ rw (new_disk_cache, evictor_from, e, new_evictor) refl
]

module _ (w : World) (disk : Option Places × CacheState) (f : Fetcher) where
  servers_lem :
      (assembled w disk f).started.servers
      ≡ only w.probe_on probe
        ++ (only w.prom_on prom
            ++ (only w.pprof_on pprof
                ++ (only (is_some (evictor_from w.context disk.0)) evictor ++ web ∷ [])))
  servers_lem =
      let sweeps = is_some (evictor_from w.context disk.0) in
      rw
        (
          start_server-servers true web (start_server sweeps evictor (services w)),
          start_server-servers sweeps evictor (services w),
          start_server-servers w.pprof_on pprof
              (start_server w.prom_on prom (start_server w.probe_on probe nothing_started)),
          start_server-servers w.prom_on prom (start_server w.probe_on probe nothing_started),
          start_server-servers w.probe_on probe nothing_started,
        )
        (simp append_assoc)

  deferred_lem :
      (assembled w disk f).started.deferred ≡ backwards (assembled w disk f).started.servers
  deferred_lem = start_server-deferred true web _ (
      start_server-deferred (is_some (evictor_from w.context disk.0)) evictor _ (
        start_server-deferred w.pprof_on pprof _ (
          start_server-deferred w.prom_on prom _
            (start_server-deferred w.probe_on probe nothing_started refl))))

  drains_lem : (rest : List Server) × ((assembled w disk f).started.deferred ≡ web ∷ rest)
  unfolding start_server
  drains_lem = (_, refl)

  assembled-IsServed :
      is_some (evictor_from w.context disk.0) ≡ is_swept w.context → IsServed w (assembled w disk f)
  unfolding closed_by_run
  assembled-IsServed h = record {
    servers = rw⁻¹ h servers_lem;
    closes = deferred_lem;
    drains = drains_lem;
  }

-- The program starts exactly if the client of the store is configured and a cache miss can be served
-- under the settings. Then the common services that are switched on, the evictor, if there is a
-- cache and a positive cap, and the web server are served, in this order; and when `run` returns, each
-- of them is closed once, in the opposite order, the web server before everything else.
pub assemble-IsServed :
    (w : World)
    → ((p : Program) × (assemble w ≡ ok p)
        × IsServed w p
        × (w.s3_client ≡ true)
        × Serves (fetcher_settings w.context))
      ⊎ ((x : Fatal) × (assemble w ≡ err x) × Cause w x)
unfolding assemble
assemble-IsServed w = elim (Bool-cases w.s3_client) [
  | inr e ↦ inr (no_s3_client, rw (assemble, e) refl, no_client e)
  | inl e ↦
      elim (new_fetcher-Serves (fetcher_settings w.context) (some (readahead_from w.context))) [
        | inl (f, same, serves, _, _, _, _) ↦
            let p : Program = assembled w (disk_of w) f in
            inl (
              p,
              rw (assemble, e, same) refl,
              assembled-IsServed w (disk_of w) f (swept_iff w),
              e,
              serves,
            )
        | inr (x, same, blames) ↦
            inr (bad_settings x, rw (assemble, e, same) refl, blamed x e blames)
      ]
]
