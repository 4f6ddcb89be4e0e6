-- ===== src/Cache/Files.antt =====
-- services/cache.go, DiskCache.Get and Put with the version markers, on the files of the host. Which
-- system calls fail is an argument, and so are the texts of times (time.RFC3339Nano).
use s3_cache.Prelude.{
  ℕ, List, [], ◌∷◌, ◌++◌, Option, none, some, Bool, Result, ok, err, if◌then◌else◌, take,
}
use s3_cache.Prelude.Assoc.{lookup, insert, remove}
use s3_cache.Prelude.Text.{codes}
use s3_cache.Prelude.Paths.{join_path}
use s3_cache.Eviction.{version_marker}
use s3_cache.Cache.Shards.{ShardError}

pub record FileNode : Type 0 where
  pub bytes : List ℕ
  pub mtime : ℕ

abbrev pub Files : Type 0
Files = List (List ℕ × FileNode)

-- `since` has the marker time of each shard root that was asked for; 0 is the zero time.
pub record CacheState : Type 0 where
  pub files : Files
  pub since : List (List ℕ × ℕ)

-- How the host answers the system calls of the write of one file, at the time `now`. `temp` is what
-- os.CreateTemp puts for the star, if it can make the file; `written` is how much of the data is
-- written before an error, if there is one.
pub record Writing : Type 0 where
  pub now : ℕ
  pub mkdir_ok : Bool
  pub temp : Option (List ℕ)
  pub written : Option ℕ
  pub rename_ok : Bool
  pub remove_ok : Bool

-- How it answers those of one call of Get or Put: `marking` is the write of the version marker, and
-- `sync_ok` says whether its Sync and Close go well; `writing` is the write of the chunk.
pub record Calls : Type 0 where
  pub now : ℕ
  pub opens : List ℕ → Bool
  pub stat_ok : Bool
  pub touch_ok : Bool
  pub marking : Writing
  pub sync_ok : Bool
  pub writing : Writing

-- `parse` reads a text whose surrounding space it drops.
pub record Times : Type 0 where
  pub format : ℕ → List ℕ
  pub parse : List ℕ → Option ℕ

pub data CacheError : Type 0 where
  no_shard : ShardError → CacheError
  not_opened not_stated not_made not_written not_renamed not_parsed : CacheError

-- A new file that comes to lie at `p` in the end. `during` are the files after each system call but
-- the last.
pub record Wrote : Type 0 where
  pub during : List Files
  pub files : Files
  pub failed : Option CacheError

abbrev pub file_of : List ℕ → ℕ → FileNode
file_of bytes now = record { bytes = bytes; mtime = now }

abbrev pub drop_temp : Writing → List ℕ → Files → Files
drop_temp calls tmp files = if calls.remove_ok then remove tmp files else files

-- The bytes were written to `tmp`: rename it, or remove it.
abbrev pub renamed : Writing → List ℕ → List ℕ → List ℕ → Files → List Files → Wrote
renamed calls tmp p bytes files before =
    if calls.rename_ok
    then record {
      during = before;
      files = insert p (file_of bytes calls.now) (remove tmp files);
      failed = none;
    }
    else record {
      during = before ++ files ∷ [];
      files = drop_temp calls tmp files;
      failed = some not_renamed;
    }

-- os.CreateTemp made `tmp`; Write, and then the rest. `synced` says whether the Sync and Close that
-- come before the rename go well.
unfoldable pub write_temp : Writing → Bool → List ℕ → List ℕ → List ℕ → Files → Wrote
write_temp calls synced tmp p bytes files =
    let empty : Files = insert tmp (file_of [] calls.now) files in
    elim calls.written [
      | some n ↦
          let part : Files = insert tmp (file_of (take n bytes) calls.now) empty in
          record {
            during = empty ∷ part ∷ [];
            files = drop_temp calls tmp part;
            failed = some not_written;
          }
      | none ↦
          let full : Files = insert tmp (file_of bytes calls.now) empty in
          if synced then renamed calls tmp p bytes full (empty ∷ full ∷ []) else record {
            during = empty ∷ full ∷ [];
            files = drop_temp calls tmp full;
            failed = some not_written;
          }
    ]

-- os.MkdirAll(dir), os.CreateTemp(dir, prefix + "*"), and the rest.
unfoldable pub write_file : Writing → Bool → List ℕ → List ℕ → List ℕ → List ℕ → Files → Wrote
unfolding write_temp
write_file calls synced dir prefix p bytes files =
    if calls.mkdir_ok
    then elim calls.temp [
      | none ↦ record { during = []; files = files; failed = some not_made }
      | some star ↦ write_temp calls synced (dir ++ b'/' ∷ (prefix ++ star)) p bytes files
    ]
    else record { during = []; files = files; failed = some not_made }

-- os.Open
pub data Found : Type 0 where
  absent refused : Found
  found : List ℕ → List ℕ → Found

abbrev found_at : List ℕ → Option FileNode → Found
found_at p none = absent
found_at p (some f) = found p f.bytes

unfoldable pub open_file : Calls → List ℕ → Files → Found
open_file calls p files = if calls.opens p then found_at p (lookup p files) else refused

abbrev parsed : Times → List ℕ → Result CacheError ℕ
parsed times text = elim (times.parse text) [ none ↦ err not_parsed | some t ↦ ok t ]

unfoldable pub marker_made : Times → ℕ → Wrote → Files × Result CacheError ℕ
marker_made times now w = elim w.failed [
  | some e ↦ (w.files, err e)
  | none ↦ (w.files, parsed times (times.format now))
]

-- readOrCreateMarker
unfoldable pub read_or_create_marker : Times → Calls → List ℕ → Files → Files × Result CacheError ℕ
unfolding marker_made
read_or_create_marker times calls dir files =
    let marker : List ℕ = join_path (dir ∷ version_marker ∷ []) in
    elim (open_file calls marker files) [
      | refused ↦ (files, err not_opened)
      | found p text ↦ (files, parsed times text)
      | absent ↦ marker_made times calls.now (
          write_file calls.marking calls.sync_ok dir (codes ".tmp_marker_") marker
            (times.format calls.now) files)
    ]

abbrev pub or_unknown : Result CacheError ℕ → ℕ
or_unknown (ok t) = t
or_unknown (err e) = 0

-- DiskCache.markerTime
unfoldable pub marker_time : Times → Calls → List ℕ → CacheState → CacheState × ℕ
marker_time times calls dir st = elim (lookup dir st.since) [
  | some t ↦ (st, t)
  | none ↦
      let (files, read) = read_or_create_marker times calls dir st.files in
      let t : ℕ = or_unknown read in (record { files = files; since = insert dir t st.since }, t)
]
