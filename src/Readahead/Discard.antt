-- ===== src/Readahead/Discard.antt =====
-- services/readahead.go, the goroutine of schedule: what a fetch brings is thrown away.
use s3_cache.Prelude.{ℕ, List, Option, none, some, Bool}
use s3_cache.Prelude.Int.{ℤ}
use s3_cache.Http.{Error}
use s3_cache.Chunk.{ChunkResult, close}
use s3_cache.Flight.{ChunkFlight, unref}
use s3_cache.Fetcher.Lookup.{Wait, deliver}

-- The result is closed, if there is one; that drops the reference to a flight which it holds.
unfoldable pub discard : Option (ChunkResult Error) → ChunkFlight → Bool → ChunkFlight × Bool
discard none fl freed = (fl, freed)
discard (some cr) fl freed = elim (close cr).2 [ none ↦ (fl, freed) | some held ↦ unref fl ]

-- The fetch of a chunk that is not on disk, once the flight it waits for is published.
unfoldable pub run_fetch : Wait → ℕ → ℤ → Option (List ℕ) → ChunkFlight → ChunkFlight × Bool
unfolding discard
run_fetch wait id start opened fl =
    let (got, fl', freed) = deliver wait id start opened fl in discard got fl' freed
