-- ===== src/Tests/Wiring.antt =====
-- Settings, the dispatcher and the handoff of a result (services/fetcher.go) at concrete inputs.
use s3_cache.Prelude.{
  ℕ, ◌+◌, ◌-◌, ◌/◌, ◌<◌, ◌≤◌, ◌≡◌, ◌≢◌, ◌⊎◌, refl, [], none, some, true, false, ok, err,
}
use s3_cache.Prelude.Int.{pos}
use s3_cache.Prelude.Text.{codes}
use s3_cache.Http.{Error}
use s3_cache.Chunk.{ChunkResult, close}
use s3_cache.Flight.{ChunkFlight, unref}
use s3_cache.Budget.{acquire}
use s3_cache.Fetcher.Lookup.{left_fetch, handed, deliver}
use s3_cache.Fetcher.Lookup.Waits.{deliver_reference}
use s3_cache.Fetcher.Dispatch.{
  Dispatch, idle, new_dispatch, can_start, start_next, admit_chunk, window_of,
}
use s3_cache.Fetcher.Dispatch.Order.{Run, start, starts, admits, Admitted, in_order}
use s3_cache.Config.{FetcherFlags, ConfigError, Fetcher, new_fetcher}
use s3_cache.Config.Accepted.{Serves, Blames, new_fetcher-Serves}

abbrev flags : FetcherFlags
flags = record {
  bucket = codes "b";
  chunk_size = pos 4;
  workers = pos 8;
  fetch_concurrency = pos 2;
  chunk_fetch_timeout = pos 90;
  head_cache_ttl = pos 60;
}

new_fetcher-Serves_example :
    ((f : Fetcher) × (new_fetcher flags none ≡ ok f)
      × Serves flags
      × ((id : ℕ) → (acquire id f.budget).1 ≡ true)
      × (f.chunk_size ≡ pos 4)
      × (f.chunk_fetch_timeout ≡ pos 90)
      × (f.write_guard_timeout ≡ pos (90 / 2)))
    ⊎ ((e : ConfigError) × (new_fetcher flags none ≡ err e) × Blames flags e)
new_fetcher-Serves_example = new_fetcher-Serves flags none

-- A flight in the buffer, with two callers left.
abbrev shared : ChunkFlight
shared = record {
  error = none;
  size = pos 3;
  path = [];
  pin = none;
  buf = some (codes "xyz");
  free = true;
  refs = pos 2;
}

deliver_reference_example :
    let (got, fl', freed) = deliver left_fetch 7 (pos 0) none shared in
    (left_fetch ≢ handed → (got ≡ none) × ((fl', freed) ≡ unref shared))
    × (left_fetch ≡ handed
        → (cr : ChunkResult Error) × (got ≡ some cr)
          × ((((fl', freed) ≡ unref shared) × ((close cr).2 ≡ none))
              ⊎ ((fl' ≡ shared) × (freed ≡ false) × ((close cr).2 ≡ some 7))))
deliver_reference_example = deliver_reference left_fetch 7 (pos 0) none shared

-- Chunk 0 was admitted, and chunk 1 waits for budget.
abbrev first : Dispatch
first = admit_chunk 0 (start_next (new_dispatch (pos 2) 3))

abbrev second : Dispatch
second = start_next first

run : Run (pos 2) 3 second
unfolding can_start admit_chunk start_next new_dispatch
run = starts refl (admits 0 refl (starts refl start))

in_order_example :
    ((i j : ℕ) → i < j → second.phases j ≢ idle → Admitted (second.phases i))
    × (second.slots ≡ second.next - second.written)
    × (second.next ≤ second.written + window_of (pos 2))
    × (second.next ≤ 3)
in_order_example = in_order run
