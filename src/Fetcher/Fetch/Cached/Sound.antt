-- ===== src/Fetcher/Fetch/Cached/Sound.antt =====
-- services/fetcher.go and services/cache.go: a fetch leaves nothing wrong on disk or in its flight.
use s3_cache.Prelude.{
  ℕ, ◌+◌, ◌^◌, ◌<◌, ◌≤◌, ◌≡◌, refl, sym, ◌∙◌, List, [], some, Bool, false, Result, ok, err, length,
  extract, subst,
}
use s3_cache.Prelude.Int.{pos}
use s3_cache.Prelude.Assoc.{Key, same}
use s3_cache.Http.{Error}
use s3_cache.Flight.{ChunkFlight}
use s3_cache.Fetcher.Get.{ObjVersion}
use s3_cache.Cache.Shards.{Host}
use s3_cache.Cache.Names.{Places}
use s3_cache.Cache.Names.Distinct.{IsDigest}
use s3_cache.Cache.Files.{CacheState, Calls, Times}
use s3_cache.Cache.Access.Kept.{PlainTemp}
use s3_cache.Cache.Access.Contents.{IsDistinct}
use s3_cache.Cache.Access.History.{History, puts}
use s3_cache.Fetcher.Fetch.{Store, Fetching, PutOutcome}
use s3_cache.Fetcher.Fetch.Content.{IsRangeOf}
use s3_cache.Fetcher.Fetch.Publish.{Published, fetch_of, read_of, read_lem, lead_granted-Published}
use s3_cache.Fetcher.Fetch.Cached.{store_read, lead_cached}

module _ (host : Host) (places : Places) (digests : (s : List ℕ) → IsDigest (host.digest s))
    (has_subdir : same places.subdir [] ≡ false) (Known : Key → List ℕ → ℕ → Type 0)
    (distinct : IsDistinct host Known) (content : Key → List ℕ → ℕ → List ℕ) where
  store_read-History :
      (times : Times) (calls : Calls) (key : Key) (v : ObjVersion) (s : ℕ)
      (read : Result Error (List ℕ)) {st : CacheState}
      → PlainTemp calls
      → Known key v.etag s
      → ((bytes : List ℕ) → read ≡ ok bytes → bytes ≡ content key v.etag s)
      → History host places digests has_subdir Known distinct content st
      → History host places digests has_subdir Known distinct content
          (store_read host (some places) times calls key v (pos s) read st).0
  unfolding store_read
  store_read-History times calls key v s (err e) plain kn right past = past
  store_read-History times calls key v s (ok bytes) plain kn right past =
      puts times calls key v s bytes plain kn (λ versioned. right bytes refl) past

  -- A fetch of a chunk of a version, with a unit of budget, takes the cache from one state of its history
  -- to another, so nothing wrong comes to lie on disk, and its callers find an error or exactly the
  -- bytes of the chunk. The store answers a range request for the version by a prefix of the range or
  -- an error, and the range lies in the object. Digests have 40 hexadecimal digits
  -- and do not collide on the chunks in use, the cache has a subdirectory, and temporary names have
  -- no slash.
  pub lead_cached-History :
      (times : Times) (calls : Calls) (object : List ℕ) (store : Store) (expired : Bool) (id : ℕ)
      (sf_key key : Key) (v : ObjVersion) (s n : ℕ) (f : Fetching) {st : CacheState}
      → 0 < n
      → s + n < 2 ^ 63
      → s + n ≤ length object
      → PlainTemp calls
      → Known key v.etag s
      → content key v.etag s ≡ extract object s n
      → IsRangeOf object store key v s n
      → History host places digests has_subdir Known distinct content st
      → let (f', st') =
          lead_cached host
            (some places)
            times
            calls
            store
            expired
            (fetch_of id sf_key key v s n)
            f
            st in
        History host places digests has_subdir Known distinct content st'
        × ((fl : ChunkFlight) × ((f'.group.calls id).res ≡ some fl)
            × (fl.refs ≡ (f.group.calls id).waiters)
            × Published (content key v.etag s) fl)
  unfolding lead_cached
  lead_cached-History times calls object store expired id sf_key key v s n f {st} n_pos small inside
        plain kn chunk ranged past =
      let read : Result Error (List ℕ) =
        read_of object store id sf_key key v s n n_pos small expired f.heads in
      let put : PutOutcome = (store_read host (some places) times calls key v (pos s) read st).1 in
      let (fl, res, done, free_key, refs, free, published) =
        lead_granted-Published object store id sf_key key v s n n_pos small expired put f inside
          ranged in
      (
        store_read-History times calls key v s read plain kn
            (λ bytes p.
              read_lem object store id sf_key key v s n n_pos small expired f.heads bytes inside
                ranged p
              ∙ sym chunk)
            past,
        (fl, res, refs, subst (λ (b : List ℕ). Published b fl) (sym chunk) published),
      )
