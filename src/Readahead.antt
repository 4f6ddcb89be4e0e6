-- ===== src/Readahead.antt =====
-- services/readahead.go: the chunks behind a served range are fetched ahead. The channel `sem` is the
-- number of values in it and its capacity; a fetch that was started runs until `done`.
pub mod Keys
pub mod Spans
pub mod Running
pub mod Discard
use s3_cache.Prelude.{
  ℕ, zero, suc, ◌+◌, ◌-◌, ◌/◌, ◌%◌, List, [], ◌∷◌, ◌++◌, Option, none, some, Bool, true, false,
  ◌&&◌, ◌||◌, if◌then◌else◌, ltb, ◌==◌, is_some,
}
use s3_cache.Prelude.Int.{ℤ, pos, pos_part, add64, sub64, mul64, div64, ltb_ℤ, leb_ℤ}
use s3_cache.Prelude.Assoc.{Key, lookup, insert, remove}
use s3_cache.Fetcher.Get.{ObjVersion}
use s3_cache.Cache.Files.{CacheState}
use s3_cache.Cache.Access.{GetResult, hit}

pub record Readahead : Type 0 where
  pub chunks : ℤ
  pub concurrency : ℤ
  pub timeout : ℤ
  pub capacity : ℕ
  pub taken : ℕ
  pub in_flight : List (Key × Unit {0})

-- NewReadahead, from the values of its flags.
unfoldable pub new_readahead : ℤ → ℤ → ℤ → Readahead
new_readahead chunks concurrency timeout =
    let conc : ℤ = if ltb_ℤ concurrency (pos 1) then pos 1 else concurrency in
    record {
      chunks = chunks;
      concurrency = conc;
      timeout = timeout;
      capacity = pos_part conc;
      taken = 0;
      in_flight = [];
    }

-- The digits of itoa's loop; 20 rounds are enough for 64 bits.
unfoldable pub itoa_digits : ℕ → ℕ → List ℕ → List ℕ
itoa_digits zero n acc = acc
itoa_digits (suc f) n acc =
    let rest = itoa_digits f (n / 10) ((b'0' + n % 10) ∷ acc) in if n == 0 then acc else rest

-- The negation of the least int64 is itself, and then the loop makes no digit.
unfoldable pub itoa : ℤ → List ℕ
unfolding itoa_digits
itoa n =
    if leb_ℤ n (pos 0) && leb_ℤ (pos 0) n
    then b'0' ∷ []
    else if ltb_ℤ n (pos 0)
    then b'-' ∷ itoa_digits 20 (pos_part (sub64 (pos 0) n)) []
    else itoa_digits 20 (pos_part n) []

-- key + "/" + itoa(cStart) + "/" + v.etag
abbrev pub dedup_key : Key → ObjVersion → ℤ → Key
dedup_key key v c_start = key ++ b'/' ∷ (itoa c_start ++ b'/' ∷ v.etag)

-- How schedule ended: `started` with the span that is fetched.
pub data Scheduled : Type 0 where
  already_cached already_running dropped : Scheduled
  started : Key → ℤ → ℤ → Scheduled

-- What the disk cache has at an offset (DiskCache.Get for the key and version).
abbrev pub Lookup : Type 0
Lookup = ℤ → CacheState → CacheState × GetResult

abbrev pub is_hit : GetResult → Bool
is_hit (hit bytes size) = true
is_hit _ = false

-- The end of a chunk, as schedule computes it.
abbrev pub span_end : ℤ → ℤ → ℤ → ℤ
span_end chunk_size total c_start =
    let c_end : ℤ = sub64 (add64 c_start chunk_size) (pos 1) in
    if ltb_ℤ (sub64 total (pos 1)) c_end then sub64 total (pos 1) else c_end

-- The key is marked, under the lock; whether it was not marked before.
unfoldable pub mark : Key → Readahead → Readahead × Bool
mark k r =
    if is_some (lookup k r.in_flight)
    then (r, false)
    else (record r { in_flight = insert k tt r.in_flight }, true)

-- The select on `sem`: a slot, or else the mark is taken back.
unfoldable pub claim_slot : Key → ℤ → ℤ → Readahead → Readahead × Scheduled
claim_slot k c_start c_end r =
    if ltb r.taken r.capacity
    then (record r { taken = r.taken + 1 }, started k c_start c_end)
    else (record r { in_flight = remove k r.in_flight }, dropped)

-- schedule behind the look into the cache.
unfoldable pub start_fetch : Key → ℤ → ℤ → Readahead → Readahead × Scheduled
unfolding mark claim_slot
start_fetch k c_start c_end r =
    let (r', fresh) = mark k r in
    if fresh then claim_slot k c_start c_end r' else (r', already_running)

unfoldable pub schedule :
    Lookup
    → ℤ
    → Key
    → ObjVersion
    → ℤ
    → ℤ
    → Readahead
    → CacheState
    → Readahead × CacheState × Scheduled
unfolding start_fetch
schedule get chunk_size key v idx total r st =
    let c_start : ℤ = mul64 idx chunk_size in
    let (st', got) = get c_start st in
    let (r', how) =
      start_fetch (dedup_key key v c_start) c_start (span_end chunk_size total c_start) r in
    if is_hit got then (r, st', already_cached) else (r', st', how)

-- The loop of Kick, from `i` on.
unfoldable pub kick_from :
    Lookup
    → ℤ
    → Key
    → ObjVersion
    → ℤ
    → ℤ
    → ℕ
    → ℕ
    → Readahead
    → CacheState
    → Readahead × CacheState × List Scheduled
unfolding schedule
kick_from get chunk_size key v from total zero i r st = (r, st, [])
kick_from get chunk_size key v from total (suc left) i r st =
    let c : ℤ = add64 from (pos i) in
    let (r', st', how) = schedule get chunk_size key v c total r st in
    let (r'', st'', rest) = kick_from get chunk_size key v from total left (i + 1) r' st' in
    if ltb_ℤ (div64 (sub64 total (pos 1)) chunk_size) c
    then (r, st, [])
    else (r'', st'', how ∷ rest)

-- Readahead.Kick; a nil Readahead does nothing.
unfoldable pub kick :
    Lookup
    → ℤ
    → Key
    → ObjVersion
    → ℤ
    → ℤ
    → Readahead
    → CacheState
    → Readahead × CacheState × List Scheduled
unfolding kick_from
kick get chunk_size key v from total r st =
    if leb_ℤ total (pos 0)
    then (r, st, [])
    else kick_from get chunk_size key v from total (pos_part r.chunks) 0 r st

-- What a fetch does when it ends: it frees its slot, and then takes its mark away.
unfoldable pub free_slot : Readahead → Readahead
free_slot r = record r { taken = r.taken - 1 }

unfoldable pub forget : Key → Readahead → Readahead
forget k r = record r { in_flight = remove k r.in_flight }
