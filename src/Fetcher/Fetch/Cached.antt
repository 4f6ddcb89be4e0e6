-- ===== src/Fetcher/Fetch/Cached.antt =====
-- services/fetcher.go, Fetcher.lead with the disk cache behind it: the outcome of DiskCache.Put is that
-- of the model of the cache, and so is the file
-- that a caller of the fetch opens (services/chunk.go, claim).
pub mod Sound
pub mod Delivered
use s3_cache.Prelude.{ℕ, List, Option, none, some, Bool, Result, ok, err}
use s3_cache.Prelude.Int.{ℤ, pos_part}
use s3_cache.Prelude.Assoc.{Key}
use s3_cache.Http.{Error}
use s3_cache.Fetcher.Get.{ObjVersion}
use s3_cache.Cache.Shards.{Host}
use s3_cache.Cache.Names.{Places}
use s3_cache.Flight.{ChunkFlight, Claimed, claim}
use s3_cache.Cache.Files.{CacheState, Calls, Times, Found, found, open_file}
use s3_cache.Cache.Access.{PutResult, put_chunk}
use s3_cache.Fetcher.Fetch.{Store, Lead, Fetching, PutOutcome, download, lead_size, lead_granted}

unfoldable pub put_outcome : PutResult → PutOutcome
put_outcome PutResult.disabled = PutOutcome.no_cache
put_outcome (PutResult.put_failed e) = PutOutcome.put_failed
put_outcome (PutResult.put_at path) = PutOutcome.put_at path

-- The call of Put behind a download that went well.
unfoldable pub store_read :
    Host
    → Option Places
    → Times
    → Calls
    → Key
    → ObjVersion
    → ℤ
    → Result Error (List ℕ)
    → CacheState
    → CacheState × PutOutcome
unfolding put_outcome
store_read host cache times calls key v start (err e) st = (st, PutOutcome.no_cache)
store_read host cache times calls key v start (ok bytes) st =
    let (st', put) = put_chunk host cache times calls key v start bytes st in (st', put_outcome put)

-- A fetch that holds a unit of budget, with what it leaves on disk.
unfoldable pub lead_cached :
    Host
    → Option Places
    → Times
    → Calls
    → Store
    → Bool
    → Lead
    → Fetching
    → CacheState
    → Fetching × CacheState
unfolding store_read
lead_cached host cache times calls store expired l f st =
    let read : Result Error (List ℕ) =
      (download store expired l.key l.version l.start l.end (pos_part (lead_size l)) f.heads).1 in
    let (st', put) = store_read host cache times calls l.key l.version l.start read st in
    (lead_granted store expired put l f, st')

-- What os.Open comes to for claim: a handle by its bytes, or some error.
abbrev pub handle_of : Found → Option (List ℕ)
handle_of (found p bytes) = some bytes
handle_of _ = none

-- claim, with what lies on disk when it is called.
unfoldable pub claim_cached : Calls → ℕ → ℤ → CacheState → ChunkFlight → Claimed
claim_cached calls id start st fl = claim id start (handle_of (open_file calls fl.path st.files)) fl
