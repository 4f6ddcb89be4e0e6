-- ===== src/Fetcher/Fetch/Cached/Delivered.antt =====
-- services/fetcher.go, services/chunk.go and services/cache.go: what a caller finds of a chunk that was
-- fetched and written to disk, whatever has happened to the disk since.
use mathlib.Core.Option.{some_inj}
use s3_cache.Prelude.{
  ℕ, ◌+◌, ◌/◌, ◌^◌, ◌<◌, ◌≤◌, ◌≡◌, ◌⊎◌, inl, inr, refl, sym, ap, ◌∙◌, subst, List, [], Option, none,
  some, Bool, false, Result, ok, err, arith, length, extract, Option-cases, Result-cases,
}
use s3_cache.Prelude.Int.{ℤ, pos}
use s3_cache.Prelude.Assoc.{Key, same}
use s3_cache.Http.{Error}
use s3_cache.Flight.{ChunkFlight, Claimed, claim}
use s3_cache.Fetcher.Get.{ObjVersion}
use s3_cache.Fetcher.Serve.{got}
use s3_cache.Fetcher.Serve.Plan.{Fits, job, offset, offset-le}
use s3_cache.Fetcher.Serve.Pieces.{Honest}
use s3_cache.Cache.Shards.{Host}
use s3_cache.Cache.Names.{Places, chunk_path}
use s3_cache.Cache.Names.Distinct.{IsDigest}
use s3_cache.Cache.Files.{CacheState, Calls, Times, open_file}
use s3_cache.Cache.Access.{put_chunk, put_path, put_wrote, marked}
use s3_cache.Cache.Access.Kept.{PlainTemp, Found-cases}
use s3_cache.Cache.Access.Contents.{IsDistinct}
use s3_cache.Cache.Access.Hits.{open_found}
use s3_cache.Cache.Access.History.{History, History-IsVersioned}
use s3_cache.Fetcher.Fetch.{Store, Fetching, PutOutcome, downloaded}
use s3_cache.Fetcher.Fetch.Content.{IsRangeOf}
use s3_cache.Fetcher.Fetch.Deliver.{chunk_length, claim-Honest}
use s3_cache.Fetcher.Fetch.Publish.{Published, fetch_of, read_of, lead_granted_res}
use s3_cache.Fetcher.Fetch.Cached.{store_read, put_outcome, lead_cached, handle_of, claim_cached}
use s3_cache.Fetcher.Fetch.Cached.Sound.{lead_cached-History}

-- A flight of an error or of a buffer: claim does not look at the disk.
abbrev IsOffDisk : ChunkFlight → Type 0
IsOffDisk fl = ((e : Error) × (fl.error ≡ some e)) ⊎ ((bytes : List ℕ) × (fl.buf ≡ some bytes))

claim-IsOffDisk :
    (id : ℕ) (start : ℤ) (opened : Option (List ℕ)) (fl : ChunkFlight)
    → IsOffDisk fl
    → claim id start none fl ≡ claim id start opened fl
unfolding claim
claim-IsOffDisk id start opened fl (inl (e, p)) = rw (claim, p) refl
claim-IsOffDisk id start opened fl (inr (bytes, p)) = elim (Option-cases fl.error) [
  | inl q ↦ rw (claim, q, p) refl
  | inr (e, q) ↦ rw (claim, q) refl
]

module _ (host : Host) (places : Places) (times : Times) (calls : Calls) (id : ℕ) (sf_key key : Key)
    (v : ObjVersion) (s n : ℕ) where
  -- What Put comes to for a chunk: an error, or the path of that chunk.
  store_read_lem :
      (bytes : List ℕ) (st : CacheState)
      → let put : PutOutcome =
          (store_read host (some places) times calls key v (pos s) (ok bytes) st).1 in
        (put ≡ PutOutcome.put_failed)
        ⊎ ((p : List ℕ) × (put ≡ PutOutcome.put_at p)
            × (chunk_path host places key v (pos s) ≡ ok p))
  unfolding store_read put_chunk put_path put_outcome
  store_read_lem bytes st = elim (Result-cases (chunk_path host places key v (pos s))) [
    | inr (e, h) ↦ rw (store_read, put_chunk, h) (inl refl)
    | inl (p, h) ↦
        let st' : CacheState = marked host places times calls key v st in
        elim (Option-cases (put_wrote calls p bytes st'.files).failed) [
          | inl k ↦ inr (p, rw (store_read, put_chunk, h, put_path, k) refl, h)
          | inr (e, k) ↦ inl (rw (store_read, put_chunk, h, put_path, k) refl)
        ]
  ]

  abbrev flight_of : Result Error (List ℕ) → PutOutcome → ℤ → ChunkFlight
  flight_of read put waiters = record (downloaded (fetch_of id sf_key key v s n) read put).0 {
    refs = waiters;
  }

  -- A flight of a file has the path of the chunk.
  located :
      (read : Result Error (List ℕ)) (st : CacheState) (waiters : ℤ)
      → let put : PutOutcome =
          (store_read host (some places) times calls key v (pos s) read st).1 in
        IsOffDisk (flight_of read put waiters)
        ⊎ (chunk_path host places key v (pos s) ≡ ok (flight_of read put waiters).path)
  located (err e) st waiters = inl (inl (e, refl))
  located (ok bytes) st waiters = elim (store_read_lem bytes st) [
    | inl h ↦ rw h (inl (inr (bytes, refl)))
    | inr (p, h, at) ↦ rw h (inr at)
  ]

module _ (host : Host) (places : Places) (digests : (s : List ℕ) → IsDigest (host.digest s))
    (has_subdir : same places.subdir [] ≡ false) (Known : Key → List ℕ → ℕ → Type 0)
    (distinct : IsDistinct host Known) (content : Key → List ℕ → ℕ → List ℕ) where
  -- A file under the path of a chunk of a version, if there is one that can be opened, has its bytes.
  opened_right :
      (calls : Calls) (key : Key) (v : ObjVersion) (m : ℕ) (p bytes : List ℕ) {later : CacheState}
      → Known key v.etag m
      → same v.etag [] ≡ false
      → content key v.etag m ≡ bytes
      → chunk_path host places key v (pos m) ≡ ok p
      → History host places digests has_subdir Known distinct content later
      → let opened : Option (List ℕ) = handle_of (open_file calls p later.files) in
        (opened ≡ none) ⊎ (opened ≡ some bytes)
  opened_right calls key v m p bytes {later} kn versioned chunk at past =
      elim (Found-cases (open_file calls p later.files)) [
        | inl o ↦ rw o (inl refl)
        | inr (inl o) ↦ rw o (inl refl)
        | inr (inr (p', b, o)) ↦
            let (f, l, fb, e) = open_found calls p p' b later.files o in
            let right : f.bytes ≡ content key v.etag m =
              History-IsVersioned host places digests has_subdir Known distinct content past key v m
                p f kn versioned at l in
            rw o (inr (ap some (sym fb ∙ right ∙ chunk)))
      ]

  -- A flight that holds a chunk, and lies under its path if it is on disk.
  located-Honest :
      (now : Calls) (object : List ℕ) (rr : Bool) (caller : ℕ) (key : Key) (v : ObjVersion)
      (c s e i : ℕ) (fl : ChunkFlight) {later : CacheState} (fits : Fits c s e (length object))
      → s / c + i ≤ e / c
      → Known key v.etag (offset c s i)
      → same v.etag [] ≡ false
      → content key v.etag (offset c s i)
        ≡ extract object (offset c s i) (chunk_length object c s e rr fits i)
      → History host places digests has_subdir Known distinct content later
      → Published (extract object (offset c s i) (chunk_length object c s e rr fits i)) fl
      → IsOffDisk fl ⊎ (chunk_path host places key v (pos (offset c s i)) ≡ ok fl.path)
      → Honest object
          (job c s e (length object) rr)
          i
          (got (claim_cached now caller (pos (offset c s i)) later fl).result)
  unfolding claim_cached
  located-Honest now object rr caller key v c s e i fl {later} fits h kn versioned chunk since holds
        at =
      elim at [
        | inl off ↦
            subst (λ (x : Claimed). Honest object (job c s e (length object) rr) i (got x.result))
              (claim-IsOffDisk caller (pos (offset c s i))
                (handle_of (open_file now fl.path later.files)) fl off)
              (claim-Honest object c s e rr fits i caller none fl h holds (inl refl))
        | inr p ↦
            claim-Honest object c s e rr fits i caller
              (handle_of (open_file now fl.path later.files)) fl h holds
              (opened_right now key v (offset c s i) fl.path
                (extract object (offset c s i) (chunk_length object c s e rr fits i)) kn versioned
                chunk p since)
      ]

  -- Whatever has happened to the disk by the time a caller claims the flight that a fetch of a chunk of
  -- a version left in its call, what arrives at the consumer of chunk `i` is an error or the chunk's bytes of the
  -- object: other puts, gets, evictions, restarts and crashes. The store answers a range
  -- request for the version by a prefix of the range or an error; the object has an ETag; digests have
  -- 40 hexadecimal digits and do not collide on the chunks in use, the cache has a subdirectory, and
  -- temporary names have no slash.
  pub lead_cached-Honest :
      (times : Times) (calls now : Calls) (object : List ℕ) (store : Store) (expired rr : Bool)
      (id caller : ℕ) (sf_key key : Key) (v : ObjVersion) (c s e i : ℕ) (f : Fetching)
      (fl : ChunkFlight) {st later : CacheState} (fits : Fits c s e (length object))
      → s / c + i ≤ e / c
      → PlainTemp calls
      → Known key v.etag (offset c s i)
      → same v.etag [] ≡ false
      → content key v.etag (offset c s i)
        ≡ extract object (offset c s i) (chunk_length object c s e rr fits i)
      → IsRangeOf object store key v (offset c s i) (chunk_length object c s e rr fits i)
      → History host places digests has_subdir Known distinct content st
      → History host places digests has_subdir Known distinct content later
      → ((lead_cached host
            (some places)
            times
            calls
            store
            expired
            (fetch_of id sf_key key v (offset c s i) (chunk_length object c s e rr fits i))
            f
            st).0.group.calls
          id).res
        ≡ some fl
      → Honest object
          (job c s e (length object) rr)
          i
          (got (claim_cached now caller (pos (offset c s i)) later fl).result)
  unfolding lead_cached claim_cached
  lead_cached-Honest times calls now object store expired rr id caller sf_key key v c s e i f fl
        {st} {later} fits h plain kn versioned chunk ranged past since res =
      let o : ℕ = offset c s i in
      let n : ℕ = chunk_length object c s e rr fits i in
      let n_pos : 0 < n = omega (arith, offset-le fits i h, fits.inside, fits.size_pos) in
      let small : o + n < 2 ^ 63 = omega (arith, fits.small, offset-le fits i h) in
      let inside : o + n ≤ length object = omega (arith, offset-le fits i h, fits.inside) in
      let read : Result Error (List ℕ) =
        read_of object store id sf_key key v o n n_pos small expired f.heads in
      let put : PutOutcome = (store_read host (some places) times calls key v (pos o) read st).1 in
      let here =
        some_inj.0 (
          sym (lead_granted_res object store id sf_key key v o n n_pos small expired put f)
          ∙ res) in
      let (past', (fl', res', refs, holds)) =
        lead_cached-History host places digests has_subdir Known distinct content times calls object
          store expired id sf_key key v o n f n_pos small inside plain kn chunk ranged past in
      located-Honest now object rr caller key v c s e i fl fits h kn versioned chunk since
        (subst (λ (b : List ℕ). Published b fl) chunk
          (subst (Published (content key v.etag o)) (some_inj.0 (sym res' ∙ res)) holds))
        (subst
          (λ (x : ChunkFlight). IsOffDisk x ⊎ (chunk_path host places key v (pos o) ≡ ok x.path))
          here
          (located host places times calls id sf_key key v o n read st (f.group.calls id).waiters))
