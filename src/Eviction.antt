-- ===== src/Eviction.antt =====
-- services/eviction.go: one sweep of a shard. What the walk finds, sort.Slice, and which files
-- os.Remove can remove are arguments.
pub mod Order
pub mod Sweep
pub mod Scan
pub mod Swept
pub mod Tidy
use s3_cache.Prelude.{
  ℕ, ◌+◌, ◌*◌, List, [], ◌∷◌, ◌++◌, Bool, true, false, ◌&&◌, if◌then◌else◌, ltb, length, take,
}
use s3_cache.Prelude.Int.{ℤ, pos, sub_ℕ, add64, sub64, div64, ltb_ℤ, leb_ℤ}
use s3_cache.Prelude.Assoc.{Key, same}
use s3_cache.Prelude.Text.{codes}

-- A regular file that the walk could stat; times are in nanoseconds.
pub record FileEntry : Type 0 where
  pub path : List ℕ
  pub name : List ℕ
  pub size : ℕ
  pub mtime : ℕ

-- ".versioned-since"
abbrev pub version_marker : List ℕ
version_marker = codes ".versioned-since"

-- 10 minutes
abbrev pub tmp_max_age : ℕ
tmp_max_age = 600 * 1_000_000_000

abbrev pub is_marker : FileEntry → Bool
is_marker f = same f.name version_marker

abbrev pub is_tmp : FileEntry → Bool
is_tmp f = ltb 5 (length f.name) && same (take 5 f.name) (codes ".tmp_")

abbrev pub is_stale : ℕ → FileEntry → Bool
is_stale now f = ltb_ℤ (pos tmp_max_age) (sub_ℕ now f.mtime)

-- What the walk leaves: the paths that it removed, the total size, and the candidates.
pub record Scanned : Type 0 where
  pub reaped : List FileEntry
  pub total : ℤ
  pub entries : List FileEntry

scan_from : ℕ → Scanned → List FileEntry → Scanned
scan_from now s [] = s
scan_from now s (f ∷ fs) =
    scan_from now
      (if is_marker f
        then s
        else if is_tmp f
        then (if is_stale now f then record s { reaped = s.reaped ++ f ∷ [] } else s)
        else record s { total = add64 s.total (pos f.size); entries = s.entries ++ f ∷ [] })
      fs

unfoldable pub scan : ℕ → List FileEntry → Scanned
unfolding scan_from
scan now fs = scan_from now (record { reaped = []; total = pos 0; entries = [] }) fs

-- The loop over the sorted candidates: the size that is left, the bytes freed, and what was removed.
pub record Evicted : Type 0 where
  pub total : ℤ
  pub freed : ℤ
  pub removed : List FileEntry

unfoldable pub evict : (FileEntry → Bool) → ℤ → ℤ → ℤ → List FileEntry → Evicted
evict removes target total freed [] = record { total = total; freed = freed; removed = [] }
evict removes target total freed (f ∷ fs) =
    let gone : Evicted =
      evict removes target (sub64 total (pos f.size)) (add64 freed (pos f.size)) fs in
    let stays : Evicted = evict removes target total freed fs in
    if leb_ℤ total target
    then record { total = total; freed = freed; removed = [] }
    else if removes f
    then record gone { removed = f ∷ gone.removed }
    else stays

-- Nine tenths of the cap.
unfoldable pub target_of : ℤ → ℤ
target_of max_bytes = sub64 max_bytes (div64 max_bytes (pos 10))

-- entries[i].mtime.Before(entries[j].mtime)
abbrev pub is_before : FileEntry → FileEntry → Bool
is_before f g = ltb f.mtime g.mtime

-- sort.Slice, given what its comparator says of two elements. It is not stable: which of the orders
-- that the comparator allows it leaves is its own choice.
abbrev pub SortSlice : Type 0
SortSlice = (FileEntry → FileEntry → Bool) → List FileEntry → List FileEntry

unfoldable pub sweep_shard : ℤ → ℕ → SortSlice → (FileEntry → Bool) → List FileEntry → Evicted
unfolding evict
sweep_shard max_bytes now sort_slice removes files =
    let s : Scanned = scan now files in
    if leb_ℤ s.total max_bytes
    then record { total = s.total; freed = pos 0; removed = [] }
    else evict removes (target_of max_bytes) s.total (pos 0) (sort_slice is_before s.entries)
