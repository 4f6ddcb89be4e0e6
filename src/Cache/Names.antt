-- ===== src/Cache/Names.antt =====
-- services/cache.go, DiskCache.CacheRoots, root and path: where the chunks of an object lie.
pub mod Distinct
use s3_cache.Prelude.{ℕ, List, [], ◌∷◌, ◌++◌, Result, ok, err, ◌>>=◌, if◌then◌else◌, take, map}
use s3_cache.Prelude.Int.{ℤ}
use s3_cache.Prelude.Assoc.{Key, same}
use s3_cache.Prelude.Text.{codes, format_int}
use s3_cache.Prelude.Paths.{join_path}
use s3_cache.Fetcher.Get.{ObjVersion}
use s3_cache.Cache.Shards.{Host, ShardError, list_shards, get_dir}

-- `location` and `subdir` of a DiskCache.
pub record Places : Type 0 where
  pub location : List ℕ
  pub subdir : List ℕ

abbrev roots_of : Places → Result ShardError (List (List ℕ)) → Result ShardError (List (List ℕ))
roots_of places (err e) = err e
roots_of places (ok shards) = ok (map (λ s. join_path (s ∷ places.subdir ∷ [])) shards)

unfoldable pub cache_roots : Host → Places → Result ShardError (List (List ℕ))
cache_roots host places = roots_of places (list_shards host places.location)

abbrev root_of : Places → List ℕ → Result ShardError (List ℕ) → Result ShardError (List ℕ × List ℕ)
root_of places h (err e) = err e
root_of places h (ok shard) = ok (join_path (shard ∷ places.subdir ∷ []), h)

-- DiskCache.root: the shard root of a key, and the key's digest.
unfoldable pub root : Host → Places → Key → Result ShardError (List ℕ × List ℕ)
root host places key =
    let h : List ℕ = host.digest key in root_of places h (get_dir host places.location h)

-- The name of a chunk before it is hashed: "key:offset" or "key:offset:etag".
abbrev pub version_suffix : List ℕ → List ℕ
version_suffix [] = []
version_suffix (c ∷ etag) = b':' ∷ c ∷ etag

abbrev pub chunk_name : Key → ObjVersion → ℤ → List ℕ
chunk_name key v offset = key ++ b':' ∷ (format_int offset ++ version_suffix v.etag)

abbrev path_of :
    Host → Key → ObjVersion → ℤ → Result ShardError (List ℕ × List ℕ) → Result ShardError (List ℕ)
path_of host key v offset (err e) = err e
path_of host key v offset (ok (r, h)) =
    ok (join_path (r ∷ take 2 h ∷ h ∷ host.digest (chunk_name key v offset) ∷ []))

-- DiskCache.path
unfoldable pub chunk_path : Host → Places → Key → ObjVersion → ℤ → Result ShardError (List ℕ)
unfolding root
chunk_path host places key v offset = path_of host key v offset (root host places key)

-- The version of chunks that were named before versioning.
abbrev pub unversioned : ObjVersion
unversioned = record { etag = []; modified = 0 }

-- services/fetcher.go, fetchChunk: "%s/%d/%s", the key of a flight.
abbrev pub flight_key : Key → ℤ → ObjVersion → Key
flight_key key start v = key ++ b'/' ∷ (format_int start ++ b'/' ∷ v.etag)
