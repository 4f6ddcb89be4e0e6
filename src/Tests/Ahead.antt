-- ===== src/Tests/Ahead.antt =====
-- Readahead (services/readahead.go) at concrete inputs.
use s3_cache.Prelude.{◌+◌, ◌-◌, ◌/◌, ◌≤◌, ◌≡◌, refl, [], ◌∷◌, true, arith, length, min, is_some}
use s3_cache.Prelude.Int.{pos, pos_part, add64, sub64, mul64, div64}
use s3_cache.Prelude.Assoc.{Key, same, lookup, insert, remove}
use s3_cache.Prelude.Text.{codes}
use s3_cache.Fetcher.Get.{ObjVersion}
use s3_cache.Cache.Files.{CacheState}
use s3_cache.Cache.Access.{miss}
use s3_cache.Readahead.{
  Readahead, new_readahead, started, dropped, Lookup, itoa, itoa_digits, mark, claim_slot,
  start_fetch, schedule, kick_from, kick,
}
use s3_cache.Readahead.Spans.{AllAhead, kick-AllAhead}
use s3_cache.Readahead.Running.{
  Run, start, marks, claims, fetching, fetches, distinct, holds, slots, fetches_bounded,
}

abbrev version : ObjVersion
version = record { etag = codes "e"; modified = 0 }

abbrev empty : CacheState
empty = record { files = []; since = [] }

abbrev nothing_cached : Lookup
nothing_cached offset st = (st, miss)

abbrev idle : Readahead
idle = new_readahead (pos 4) (pos 1) (pos 30)

-- A slot for one fetch: of the two chunks that are left of the object, the second one is dropped.
kicked :
    (kick nothing_cached (pos 4) (codes "k") version (pos 1) (pos 10) idle empty).2
    ≡ started (codes "k/4/e") (pos 4) (pos 7) ∷ dropped ∷ []
unfolding kick kick_from schedule start_fetch mark claim_slot itoa itoa_digits new_readahead lookup
    insert remove same add64 sub64 mul64 div64
kicked = refl

kick-AllAhead_example :
    AllAhead
      (codes "k")
      version
      4
      10
      1
      (kick nothing_cached (pos 4) (codes "k") version (pos 1) (pos 10) idle empty).2
    × (length (kick nothing_cached (pos 4) (codes "k") version (pos 1) (pos 10) idle empty).2
        ≡ min (pos_part idle.chunks) ((10 - 1) / 4 + 1 - 1))
unfolding new_readahead
kick-AllAhead_example =
    kick-AllAhead nothing_cached (codes "k") version 4 10 1 idle empty (omega arith) (omega arith)
      (omega arith) (omega arith)

abbrev busy : Readahead
busy = (claim_slot (codes "k") (pos 4) (pos 7) (mark (codes "k") idle).0).0

run : Run (pos 4) (pos 1) (pos 30) busy ((codes "k", fetching) ∷ [])
unfolding mark new_readahead lookup
run = claims [] [] (codes "k") (pos 4) (pos 7) (omega arith) (marks (codes "k") refl start)

fetches_bounded_example :
    (busy.taken ≡ fetches ((codes "k", fetching) ∷ []))
    × (fetches ((codes "k", fetching) ∷ []) ≤ slots (pos 1))
    × (distinct ((codes "k", fetching) ∷ []) ≡ true)
    × ((j : Key) → is_some (lookup j busy.in_flight) ≡ holds j ((codes "k", fetching) ∷ []))
fetches_bounded_example = fetches_bounded run
