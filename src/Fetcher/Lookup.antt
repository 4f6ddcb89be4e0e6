-- ===== src/Fetcher/Lookup.antt =====
-- services/fetcher.go, fetchChunk: a chunk is looked up on disk, and else in the flight that fetches it.
-- When the context of the caller ends is an argument.
pub mod Starts
pub mod Waits
use s3_cache.Prelude.{ℕ, List, Option, none, some, Bool, true, false, if◌then◌else◌}
use s3_cache.Prelude.Int.{ℤ, pos}
use s3_cache.Prelude.Assoc.{Key}
use s3_cache.Http.{Error}
use s3_cache.Chunk.{ChunkResult, Via, close}
use s3_cache.Flight.{ChunkFlight, unref, Claimed, claim, nothing}
use s3_cache.Singleflight.{Singleflight, Joined, join}
use s3_cache.Fetcher.Get.{ObjVersion}
use s3_cache.Cache.Shards.{Host}
use s3_cache.Cache.Names.{Places, flight_key}
use s3_cache.Cache.Files.{CacheState, Calls, Times}
use s3_cache.Cache.Access.{GetResult, miss, hit, get_failed, get_chunk}

-- fetchChunk up to its wait: the chunk from disk, a caller who is gone, or a call to wait for, which
-- the caller leads or not.
pub data Begun : Type 0 where
  from_disk : ChunkResult Error → Begun
  gone : Begun
  waiting : Joined → Begun

-- The chunkResult of a hit.
abbrev pub disk_chunk : ℤ → List ℕ → ℤ → ChunkResult Error
disk_chunk start bytes size = record (nothing start) {
  file = some bytes;
  file_size = size;
  via = some Via.hit;
}

-- Without the chunk on disk; `ended` says whether the context has ended.
unfoldable pub begin_flight : Bool → Key → Singleflight → Begun
begin_flight ended sf_key g = if ended then gone else waiting (join sf_key g)

unfoldable pub begin_found : GetResult → Bool → Key → ℤ → Singleflight → Begun
unfolding begin_flight
begin_found (hit bytes size) ended sf_key start g = from_disk (disk_chunk start bytes size)
begin_found miss ended sf_key start g = begin_flight ended sf_key g
begin_found (get_failed e) ended sf_key start g = begin_flight ended sf_key g

unfoldable pub begin_fetch :
    Host
    → Option Places
    → Times
    → Calls
    → Bool
    → Key
    → ObjVersion
    → ℤ
    → CacheState
    → Singleflight
    → CacheState × Begun
unfolding begin_found
begin_fetch host cache times calls ended key v start st g =
    let (st', got) = get_chunk host cache times calls key v start st in
    (st', begin_found got ended (flight_key key start v) start g)

-- How the two waits of a caller end: its context ends before or after its fetch was admitted, or the
-- handoff goes through.
pub data Wait : Type 0 where
  left_queue left_fetch handed : Wait

-- A claimed result that nobody takes is closed.
abbrev pub close_unread : Claimed → ChunkFlight × Bool
close_unread c = elim (close c.result).2 [ none ↦ (c.flight, c.freed) | some held ↦ unref c.flight ]

-- The goroutine that claims the result, once the flight is published: the result that is handed to
-- the caller, the flight, and whether it was freed. `id` names the flight's call.
unfoldable pub deliver :
    Wait → ℕ → ℤ → Option (List ℕ) → ChunkFlight → Option (ChunkResult Error) × ChunkFlight × Bool
deliver handed id start opened fl =
    let c : Claimed = claim id start opened fl in (some c.result, c.flight, c.freed)
deliver left_queue id start opened fl =
    let (fl', freed) = close_unread (claim id start opened fl) in (none, fl', freed)
deliver left_fetch id start opened fl =
    let (fl', freed) = close_unread (claim id start opened fl) in (none, fl', freed)
