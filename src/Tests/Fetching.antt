-- ===== src/Tests/Fetching.antt =====
-- One upstream fetch (services/fetcher.go, lead) at concrete inputs.
use s3_cache.Prelude.{ℕ, ◌≡◌, refl, arith, List, [], none, some, true, false, ok}
use s3_cache.Prelude.Int.{pos, add64, sub64}
use s3_cache.Prelude.Assoc.{Key, lookup, insert}
use s3_cache.Prelude.Text.{codes}
use s3_cache.Flight.{ChunkFlight}
use s3_cache.Singleflight.{join, new_singleflight, finish, admit}
use s3_cache.Budget.{new_chunk_budget, acquire, alloc, release}
use s3_cache.Fetcher.Get.{ObjVersion}
use s3_cache.Fetcher.Fetch.{
  Store, Fetching, no_cache, open_range, download, read_body, lead_granted, free_flight,
}
use s3_cache.Fetcher.Fetch.Content.{IsRangeOf}
use s3_cache.Fetcher.Fetch.Publish.{
  Published, fetch_of, lead_granted-Published, lead_granted_budget,
}

abbrev object : List ℕ
object = codes "0123456789"

abbrev key : Key
key = codes "k"

abbrev flight_key : Key
flight_key = codes "k/4/e1"

abbrev version : ObjVersion
version = record { etag = codes "e1"; modified = 0 }

abbrev store : Store
store request = ok (record { bytes = codes "4567"; cut = none })

store-IsRangeOf : IsRangeOf object store key version 4 4
unfolding open_range
store-IsRangeOf body p = ([], ground arith)

abbrev before : Fetching
before = record {
  group = (join flight_key new_singleflight).group;
  budget = (acquire 0 (new_chunk_budget 2)).0;
  heads = record { m = []; ttl = pos 60; limit = 8192 };
  flights = pos 0;
}

abbrev after : Fetching
after = lead_granted store false no_cache (fetch_of 0 flight_key key version 4 4) before

lead_granted-Published_example :
    (fl : ChunkFlight) × ((after.group.calls 0).res ≡ some fl)
    × ((after.group.calls 0).done ≡ true)
    × (lookup flight_key after.group.m ≡ none)
    × (fl.refs ≡ (before.group.calls 0).waiters)
    × (fl.free ≡ true)
    × Published (codes "4567") fl
lead_granted-Published_example =
    lead_granted-Published object store 0 flight_key key version 4 4 (omega arith) (omega arith)
      false no_cache before (omega arith) store-IsRangeOf

abbrev flight : ChunkFlight
flight = record {
  error = none;
  size = pos 4;
  path = [];
  pin = none;
  buf = some (codes "4567");
  free = true;
  refs = pos 1;
}

after_flight : (after.group.calls 0).res ≡ some flight
unfolding lead_granted join new_singleflight finish download open_range read_body add64 sub64 admit
    lookup insert
after_flight = refl

lead_granted_budget_example :
    ((free_flight flight after).budget ≡ (release (pos 4) (alloc (pos 4) before.budget)).0)
    × ((free_flight flight after).flights ≡ pos 0)
lead_granted_budget_example =
    lead_granted_budget object store 0 flight_key key version 4 4 (omega arith) (omega arith) false
      no_cache before flight 0 refl (omega arith) after_flight
