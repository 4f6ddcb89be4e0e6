-- ===== src/Tests/Caching.antt =====
-- The disk cache (services/cache.go) at concrete inputs: two versions of one chunk.
use s3_cache.Prelude.{
  ℕ, ◌*◌, ◌/◌, ◌≡◌, inl, inr, refl, List, [], ◌∷◌, none, some, true, false, ok, arith, length, take,
  min,
}
use s3_cache.Prelude.Int.{pos, add64, sub64}
use s3_cache.Prelude.Assoc.{same, lookup, insert, remove}
use s3_cache.Prelude.Text.{has_prefix, codes, format_int, format_uint, digits}
use s3_cache.Prelude.Paths.{
  join_path, joined, split_path, clean, elements, elements_from, push_all, push, render,
}
use s3_cache.Cache.Shards.{
  listed, list_shards, get_dir, ends_in_star, trim_star, matching, insert_text, text_le, Host,
  parse_hex, distribute_by_hash, sort_strings,
}
use s3_cache.Cache.Shards.Even.{get_elem?, share, distribute_by_hash-get_elem}
use s3_cache.Singleflight.{new_singleflight, join, finish, admit}
use s3_cache.Flight.{ChunkFlight}
use s3_cache.Budget.{new_chunk_budget, acquire}
use s3_cache.Fetcher.Fetch.{Store, Fetching, open_range, lead_granted, download, read_body}
use s3_cache.Fetcher.Serve.{got}
use s3_cache.Fetcher.Serve.Plan.{Fits, job}
use s3_cache.Fetcher.Serve.Pieces.{Honest}
use s3_cache.Fetcher.Fetch.Content.{IsRangeOf}
use s3_cache.Fetcher.Fetch.Publish.{Published, fetch_of}
use s3_cache.Fetcher.Fetch.Cached.{lead_cached, store_read, put_outcome, claim_cached}
use s3_cache.Fetcher.Fetch.Cached.Delivered.{lead_cached-Honest}
use s3_cache.Fetcher.Fetch.Cached.Sound.{lead_cached-History}
use s3_cache.Fetcher.Lookup.{begin_fetch}
use s3_cache.Fetcher.Lookup.Starts.{Starts, begin_fetch-Starts}
use s3_cache.Cache.Names.{cache_roots, Places, chunk_path, root}
use s3_cache.Cache.Files.{
  open_file, write_file, write_temp, marker_time, marker_made, read_or_create_marker,
}
use s3_cache.Cache.Names.Distinct.{chunk_path_injective}
use s3_cache.Cache.Access.{get_chunk, put_chunk, hit, marked, marker_of}
use s3_cache.Cache.Access.Versions.{get_chunk-put_chunk}
use s3_cache.Cache.Access.Contents.{
  version, IsVersioned, AllVersioned, crash_disks, put_chunk-IsVersioned,
}
use s3_cache.Cache.Access.Hits.{IsHit}
use s3_cache.Cache.Access.History.{History, starts, puts, History-IsHit}
use s3_cache.Tests.Fixture.{
  toy, host, digests, places, has_subdir, times, calls, plain, key, old_path, empty, at_old_path,
  stored, Known, content, distinct, empty-IsVersioned, after,
}

get_chunk-put_chunk_example :
    (get_chunk host
      (some places)
      times
      calls
      key
      (version (codes "a"))
      (pos 0)
      (put_chunk host
        (some places)
        times
        calls
        key
        (version (codes "a"))
        (pos 0)
        (codes "old")
        empty).0).1
    ≡ hit (codes "old") (pos 3)
get_chunk-put_chunk_example =
    get_chunk-put_chunk host places digests has_subdir times calls calls key (version (codes "a"))
      (pos 0) (codes "old") old_path empty plain stored refl refl

put_chunk-IsVersioned_example :
    IsVersioned host places digests has_subdir Known distinct content
      (put_chunk host
        (some places)
        times
        calls
        key
        (version (codes "a"))
        (pos 0)
        (codes "old")
        empty).0.files
    × AllVersioned host places digests has_subdir Known distinct content (
        crash_disks host places digests has_subdir Known distinct content calls
          (chunk_path host places key (version (codes "a")) (pos 0))
          (codes "old")
          (marked host places times calls key (version (codes "a")) empty).files)
unfolding same
put_chunk-IsVersioned_example =
    put_chunk-IsVersioned host places digests has_subdir Known distinct content times calls key
      (version (codes "a")) 0 (codes "old") empty plain (refl, refl, inl refl) (λ e. refl)
      empty-IsVersioned

past : History host places digests has_subdir Known distinct content after
unfolding same
past =
    puts times calls key (version (codes "a")) 0 (codes "old") plain (refl, refl, inl refl)
      (λ e. refl) (starts [] empty-IsVersioned)

History-IsHit_example :
    IsHit host places digests has_subdir Known distinct content times calls key
      (version (codes "a"))
      0
      after
      (codes "old")
    × (pos 3 ≡ pos (length (codes "old")))
unfolding same
History-IsHit_example =
    History-IsHit host places digests has_subdir Known distinct content times calls key
      (version (codes "a")) 0 (codes "old") (pos 3) plain (refl, refl, inl refl) refl past
      get_chunk-put_chunk_example

chunk_path_injective_example :
    (key ≡ key) × (◌≡◌ {A = ℕ} 0 0) × (◌≡◌ {A = List ℕ} (codes "a") (codes "a"))
chunk_path_injective_example =
    chunk_path_injective host places digests has_subdir key key (version (codes "a"))
      (version (codes "a")) 0 0 old_path (omega arith) (omega arith) (λ e. refl) (λ e. refl)
      at_old_path at_old_path

abbrev shards : List (List ℕ)
shards = codes "/c2" ∷ codes "/c1" ∷ []

hash_value : parse_hex 0 (take 5 (toy 40 (toy 40 key))) ≡ some 699_050
unfolding parse_hex
hash_value = refl

distribute_by_hash-get_elem_example :
    (dir : List ℕ) × (distribute_by_hash host shards (toy 40 key) ≡ ok dir)
    × (get_elem? (sort_strings shards) (min (699_050 * 1000 / share 2) 1) ≡ some dir)
distribute_by_hash-get_elem_example =
    distribute_by_hash-get_elem host shards (toy 40 key) 699_050 (omega arith) (omega arith)
      (omega arith) hash_value

begin_fetch-Starts_example :
    Starts host places digests has_subdir Known distinct content times calls false key
      (version (codes "b"))
      0
      after
      new_singleflight
      (begin_fetch host
        (some places)
        times
        calls
        false
        key
        (version (codes "b"))
        (pos 0)
        after
        new_singleflight).1
unfolding same
begin_fetch-Starts_example =
    begin_fetch-Starts host places digests has_subdir Known distinct content times calls false key
      (version (codes "b")) 0 after new_singleflight plain (refl, refl, inr refl) refl
      put_chunk-IsVersioned_example.0

-- A wildcard location with two shards, and a file that is none.
abbrev two_shards : Host
two_shards = record {
  digest = toy 40;
  read_dir = λ dir. listed (
      record { name = codes "c2"; is_dir = true }
      ∷ record { name = codes "c9"; is_dir = false }
      ∷ record { name = codes "c1"; is_dir = true }
      ∷ []);
  makes_dir = λ dir. true;
}

abbrev starred : Places
starred = record { location = codes "/c*"; subdir = codes "s" }

two_roots : cache_roots two_shards starred ≡ ok (codes "/c1/s" ∷ codes "/c2/s" ∷ [])
unfolding cache_roots list_shards trim_star split_path matching has_prefix sort_strings insert_text
    text_le join_path joined same clean elements elements_from push_all push render
two_roots = refl

abbrev store : Store
store request = ok (record { bytes = codes "old"; cut = none })

store-IsRangeOf : IsRangeOf (codes "old") store key (version (codes "a")) 0 3
unfolding open_range
store-IsRangeOf body p = ([], ground arith)

abbrev fetching : Fetching
fetching = record {
  group = (join (codes "k/0/a") new_singleflight).group;
  budget = (acquire 0 (new_chunk_budget 2)).0;
  heads = record { m = []; ttl = pos 60; limit = 8192 };
  flights = pos 0;
}

lead_cached-History_example :
    let (f', st') =
      lead_cached host
        (some places)
        times
        calls
        store
        false
        (fetch_of 0 (codes "k/0/a") key (version (codes "a")) 0 3)
        fetching
        empty in
    History host places digests has_subdir Known distinct content st'
    × ((fl : ChunkFlight) × ((f'.group.calls 0).res ≡ some fl)
        × (fl.refs ≡ (fetching.group.calls 0).waiters)
        × Published (codes "old") fl)
unfolding same
lead_cached-History_example =
    lead_cached-History host places digests has_subdir Known distinct content times calls
      (codes "old") store false 0 (codes "k/0/a") key (version (codes "a")) 0 3 fetching
      (omega arith) (omega arith) (omega arith) plain (refl, refl, inl refl) refl store-IsRangeOf
      (starts [] empty-IsVersioned)

-- The flight that this fetch leaves: its file, and one caller.
abbrev on_disk : ChunkFlight
on_disk = record {
  error = none;
  size = pos 3;
  path = old_path;
  pin = some (codes "old");
  buf = none;
  free = true;
  refs = pos 1;
}

on_disk_left :
    ((lead_cached host
        (some places)
        times
        calls
        store
        false
        (fetch_of 0 (codes "k/0/a") key (version (codes "a")) 0 3)
        fetching
        empty).0.group.calls
      0).res
    ≡ some on_disk
unfolding lead_cached lead_granted store_read put_outcome put_chunk chunk_path root get_dir
    ends_in_star format_int format_uint digits join_path joined same clean elements elements_from
    push_all push render marker_of marker_time read_or_create_marker marker_made open_file
    write_file write_temp lookup insert remove split_path join new_singleflight finish download
    open_range read_body add64 sub64 admit
on_disk_left = refl

one_chunk : Fits 3 0 2 3
one_chunk = record {
  size_pos = omega arith;
  ordered = omega arith;
  inside = omega arith;
  small = omega arith;
}

lead_cached-Honest_example :
    Honest
      (codes "old")
      (job 3 0 2 3 true)
      0
      (got (claim_cached calls 0 (pos 0) after on_disk).result)
unfolding same
lead_cached-Honest_example =
    lead_cached-Honest host places digests has_subdir Known distinct content times calls calls
      (codes "old") store false true 0 0 (codes "k/0/a") key (version (codes "a")) 3 0 2 0 fetching
      on_disk {st = empty} {later = after} one_chunk (omega arith) plain (refl, refl, inl refl) refl
      refl store-IsRangeOf (starts [] empty-IsVersioned) past on_disk_left
