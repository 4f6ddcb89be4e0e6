-- ===== src/Fetcher/Lookup/Starts.antt =====
-- services/fetcher.go, fetchChunk: what a caller finds, or which call it waits for.
use s3_cache.Prelude.{
  ℕ, ◌≡◌, ◌≢◌, refl, ◌∙◌, inl, inr, List, [], none, some, Bool, true, false, not, is_some, length,
  Option-cases,
}
use s3_cache.Prelude.Int.{ℤ, pos}
use s3_cache.Prelude.Assoc.{Key, same, lookup, lookup-insert, same_refl}
use s3_cache.Http.{Error}
use s3_cache.Chunk.{ChunkResult, size}
use s3_cache.Chunk.Slice.{served, IsWhole}
use s3_cache.Singleflight.{Singleflight, Joined, join}
use s3_cache.Fetcher.Get.{ObjVersion}
use s3_cache.Cache.Shards.{Host}
use s3_cache.Cache.Names.{Places, flight_key}
use s3_cache.Cache.Names.Distinct.{IsDigest}
use s3_cache.Cache.Files.{CacheState, Calls, Times}
use s3_cache.Cache.Access.{GetResult, miss, hit, get_failed, get_chunk}
use s3_cache.Cache.Access.Kept.{PlainTemp}
use s3_cache.Cache.Access.Contents.{IsDistinct, IsVersioned}
use s3_cache.Cache.Access.Hits.{IsHit, get_chunk-IsHit}
use s3_cache.Fetcher.Lookup.{
  Begun, from_disk, gone, waiting, disk_chunk, begin_flight, begin_found, begin_fetch,
}

-- The call that a caller joined: it is the one of the chunk's key, and is led by this caller if the key
-- had none.
pub record Joins (sf_key : Key) (g : Singleflight) (j : Joined) : Type 0 where
  pub registered : lookup sf_key j.group.m ≡ some j.call
  pub kept : lookup sf_key g.m ≢ none → lookup sf_key g.m ≡ some j.call
  pub leads : j.leader ≡ not (is_some (lookup sf_key g.m))

join-Joins : (sf_key : Key) (g : Singleflight) → Joins sf_key g (join sf_key g)
unfolding join
join-Joins sf_key g = elim (Option-cases (lookup sf_key g.m)) [
  | inl e ↦
      rw (join, e)
        (record {
          registered = lookup-insert sf_key sf_key g.next g.m ∙ rw (same_refl sf_key) refl;
          kept = λ h. absurd (h e);
          leads = rw e refl;
        })
  | inr (id, e) ↦ rw (join, e) (record { registered = e; kept = λ h. e; leads = rw e refl })
]

module _ (host : Host) (places : Places) (digests : (s : List ℕ) → IsDigest (host.digest s))
    (has_subdir : same places.subdir [] ≡ false) (Known : Key → List ℕ → ℕ → Type 0)
    (distinct : IsDistinct host Known) (content : Key → List ℕ → ℕ → List ℕ) where
  -- What fetchChunk comes to before it waits.
  pub data Starts (times : Times) (calls : Calls) (ended : Bool) (key : Key) (v : ObjVersion)
      (m : ℕ) (st : CacheState) (g : Singleflight) : Begun → Type 0 where
    served_from_disk :
        {cr : ChunkResult Error}
        → cr.error ≡ none
        → cr.chunk_start ≡ pos m
        → IsWhole cr
        → IsHit host places digests has_subdir Known distinct content times calls key v m st
            (served cr)
        → Starts times calls ended key v m st g (from_disk cr)
    ended_already : ended ≡ true → Starts times calls ended key v m st g gone
    waits :
        {j : Joined}
        → ended ≡ false
        → Joins (flight_key key (pos m) v) g j
        → Starts times calls ended key v m st g (waiting j)

  begin_flight-Starts :
      (times : Times) (calls : Calls) (ended : Bool) (key : Key) (v : ObjVersion) (m : ℕ)
      (st : CacheState) (g : Singleflight)
      → Starts times calls ended key v m st g (begin_flight ended (flight_key key (pos m) v) g)
  unfolding begin_flight
  begin_flight-Starts times calls true key v m st g = ended_already refl
  begin_flight-Starts times calls false key v m st g =
      waits refl (join-Joins (flight_key key (pos m) v) g)

  -- fetchChunk serves the chunk from disk, where it has the bytes of the asked version or those of a
  -- trusted file from before versioning; or its caller is gone; or the caller waits for the call of this
  -- chunk, and leads it exactly if there was none. An error of the cache is a miss. The chunk has an
  -- ETag, and every versioned chunk on disk is right. Digests have 40 hexadecimal digits and do not
  -- collide on the chunks in use, the cache has a subdirectory, and temporary names have no slash.
  pub begin_fetch-Starts :
      (times : Times) (calls : Calls) (ended : Bool) (key : Key) (v : ObjVersion) (m : ℕ)
      (st : CacheState) (g : Singleflight)
      → PlainTemp calls
      → Known key v.etag m
      → same v.etag [] ≡ false
      → IsVersioned host places digests has_subdir Known distinct content st.files
      → Starts times calls ended key v m st g
          (begin_fetch host (some places) times calls ended key v (pos m) st g).1
  unfolding begin_fetch size
  begin_fetch-Starts times calls ended key v m st g plain kn versioned inv =
      begin_found-Starts (get_chunk host (some places) times calls key v (pos m) st).1 (λ bytes n e.
        get_chunk-IsHit host places digests has_subdir Known distinct content times calls key v m
          bytes n st plain kn versioned inv e)
    where
      begin_found-Starts :
          (got : GetResult)
          → ((bytes : List ℕ) (n : ℤ)
              → got ≡ hit bytes n
              → IsHit host places digests has_subdir Known distinct content times calls key v m st
                  bytes
                × (n ≡ pos (length bytes)))
          → Starts times calls ended key v m st g
              (begin_found got ended (flight_key key (pos m) v) (pos m) g)
      begin_found-Starts miss right = begin_flight-Starts times calls ended key v m st g
      begin_found-Starts (get_failed e) right = begin_flight-Starts times calls ended key v m st g
      begin_found-Starts (hit bytes n) right =
          let (bytes_right, sized) = right bytes n refl in
          served_from_disk {cr = disk_chunk (pos m) bytes n} refl refl sized bytes_right
