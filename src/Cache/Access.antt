-- ===== src/Cache/Access.antt =====
-- services/cache.go, DiskCache.Get and DiskCache.Put. A nil cache is `none`.
pub mod Disks
pub mod Kept
pub mod Versions
pub mod Contents
pub mod Hits
pub mod History
use s3_cache.Prelude.{
  ℕ, List, [], ◌∷◌, ◌++◌, Option, none, some, Bool, true, false, ◌&&◌, ◌||◌, not, Result, ok, err,
  if◌then◌else◌, ltb, ◌==◌, length,
}
use s3_cache.Prelude.Int.{ℤ, pos}
use s3_cache.Prelude.Assoc.{Key, same, insert}
use s3_cache.Prelude.Text.{codes}
use s3_cache.Prelude.Paths.{split_path, clean}
use s3_cache.Fetcher.Get.{ObjVersion}
use s3_cache.Cache.Shards.{Host, ShardError}
use s3_cache.Cache.Names.{Places, root, chunk_path, unversioned}
use s3_cache.Cache.Files.{
  Files, CacheState, Calls, Times, CacheError, no_shard, not_stated, not_opened, Wrote, Found,
  absent, refused, found, open_file, write_file, marker_time, file_of,
}

-- The marker time of a key's shard root, or the error of finding the root.
unfoldable pub marker_of :
    Times → Calls → Result ShardError (List ℕ × List ℕ) → CacheState → CacheState × Option ℕ
marker_of times calls (err e) st = (st, none)
marker_of times calls (ok (dir, h)) st =
    let (st', t) = marker_time times calls dir st in (st', some t)

-- DiskCache.versionedSince
unfoldable pub versioned_since :
    Host → Places → Times → Calls → Key → CacheState → CacheState × Option ℕ
unfolding marker_of
versioned_since host places times calls key st = marker_of times calls (root host places key) st

-- Whether a chunk from before versioning may be served.
abbrev pub is_trusted : Option ℕ → ℕ → Bool
is_trusted none modified = true
is_trusted (some since) modified = since == 0 || modified == 0 || ltb modified since

pub data GetResult : Type 0 where
  miss : GetResult
  hit : List ℕ → ℤ → GetResult
  get_failed : CacheError → GetResult

-- The file is open: its size, and the touch.
unfoldable pub serve_found : Calls → Found → CacheState → CacheState × GetResult
serve_found calls absent st = (st, miss)
serve_found calls refused st = (st, get_failed not_opened)
serve_found calls (found p bytes) st =
    if calls.stat_ok
    then (
      (if calls.touch_ok
          then record st { files = insert p (file_of bytes calls.now) st.files }
          else st),
      hit bytes (pos (length bytes)),
    )
    else (st, get_failed not_stated)

unfoldable pub get_at : Calls → Result ShardError (List ℕ) → CacheState → CacheState × GetResult
unfolding serve_found
get_at calls (err e) st = (st, get_failed (no_shard e))
get_at calls (ok p) st = serve_found calls (open_file calls p st.files) st

-- There is no chunk of this version.
unfoldable pub get_old :
    Host → Places → Times → Calls → Key → ObjVersion → ℤ → CacheState → CacheState × GetResult
unfolding versioned_since get_at
get_old host places times calls key v offset st =
    let (st', since) = versioned_since host places times calls key st in
    if is_trusted since v.modified
    then get_at calls (chunk_path host places key unversioned offset) st'
    else (st', miss)

unfoldable pub get_found :
    Host
    → Places
    → Times
    → Calls
    → Key
    → ObjVersion
    → ℤ
    → Found
    → CacheState
    → CacheState × GetResult
unfolding get_old
get_found host places times calls key v offset absent st =
    if same v.etag [] then (st, miss) else get_old host places times calls key v offset st
get_found host places times calls key v offset refused st = serve_found calls refused st
get_found host places times calls key v offset (found p bytes) st =
    serve_found calls (found p bytes) st

unfoldable pub get_path :
    Host
    → Places
    → Times
    → Calls
    → Key
    → ObjVersion
    → ℤ
    → Result ShardError (List ℕ)
    → CacheState
    → CacheState × GetResult
unfolding get_found
get_path host places times calls key v offset (err e) st = (st, get_failed (no_shard e))
get_path host places times calls key v offset (ok p) st =
    get_found host places times calls key v offset (open_file calls p st.files) st

-- DiskCache.Get
unfoldable pub get_chunk :
    Host
    → Option Places
    → Times
    → Calls
    → Key
    → ObjVersion
    → ℤ
    → CacheState
    → CacheState × GetResult
unfolding get_path
get_chunk host none times calls key v offset st = (st, miss)
get_chunk host (some places) times calls key v offset st =
    get_path host places times calls key v offset (chunk_path host places key v offset) st

-- What Put returns: the path of the file, whose handle stays open.
pub data PutResult : Type 0 where
  disabled : PutResult
  put_failed : CacheError → PutResult
  put_at : List ℕ → PutResult

-- The write of a chunk file.
abbrev pub put_wrote : Calls → List ℕ → List ℕ → Files → Wrote
put_wrote calls p bytes files =
    write_file calls.writing true (clean (split_path p).0) (codes ".tmp_chunk_") p bytes files

unfoldable pub put_path :
    Calls → Result ShardError (List ℕ) → List ℕ → CacheState → CacheState × PutResult
put_path calls (err e) bytes st = (st, put_failed (no_shard e))
put_path calls (ok p) bytes st =
    let w : Wrote = put_wrote calls p bytes st.files in
    (record st { files = w.files }, elim w.failed [ none ↦ put_at p | some e ↦ put_failed e ])

-- The marker comes first, for a versioned chunk.
abbrev pub marked : Host → Places → Times → Calls → Key → ObjVersion → CacheState → CacheState
marked host places times calls key v st =
    if same v.etag [] then st else (versioned_since host places times calls key st).0

-- DiskCache.Put
unfoldable pub put_chunk :
    Host
    → Option Places
    → Times
    → Calls
    → Key
    → ObjVersion
    → ℤ
    → List ℕ
    → CacheState
    → CacheState × PutResult
unfolding put_path versioned_since
put_chunk host none times calls key v offset bytes st = (st, disabled)
put_chunk host (some places) times calls key v offset bytes st =
    put_path calls (chunk_path host places key v offset) bytes
      (marked host places times calls key v st)
