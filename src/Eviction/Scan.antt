-- ===== src/Eviction/Scan.antt =====
-- The walk of a sweep.
use s3_cache.Prelude.{
  ℕ, ◌+◌, ◌^◌, ◌<◌, ◌≡◌, ◌∙◌, List, [], ◌∷◌, ◌++◌, arith, Bool-cases, inl, inr, if◌then◌else◌, ◌||◌,
  append_assoc, append-nil,
}
use s3_cache.Prelude.Int.{pos, add64_pos}
use s3_cache.Eviction.{FileEntry, is_marker, is_tmp, is_stale, scan, scan_from}
use s3_cache.Eviction.Sweep.{bytes_of}

-- The chunks among the files: neither the version marker nor a temporary file.
abbrev pub chunks : List FileEntry → List FileEntry
chunks [] = []
chunks (f ∷ fs) = if is_marker f || is_tmp f then chunks fs else f ∷ chunks fs

-- The temporary files that a crash left behind long enough ago.
abbrev pub leftovers : ℕ → List FileEntry → List FileEntry
leftovers now [] = []
leftovers now (f ∷ fs) =
    if is_marker f
    then leftovers now fs
    else if is_tmp f
    then (if is_stale now f then f ∷ leftovers now fs else leftovers now fs)
    else leftovers now fs

scan_from_lem :
    (now t : ℕ) (reaped entries fs : List FileEntry)
    → t + bytes_of (chunks fs) < 2 ^ 63
    → scan_from now (record { reaped = reaped; total = pos t; entries = entries }) fs ≡ record {
      reaped = reaped ++ leftovers now fs;
      total = pos (t + bytes_of (chunks fs));
      entries = entries ++ chunks fs;
    }
unfolding scan_from
scan_from_lem now t reaped entries [] h = ground (arith, append-nil reaped, append-nil entries)
scan_from_lem now t reaped entries (f ∷ fs) h = elim (Bool-cases (is_marker f)) [
  | inl m ↦ rw (scan_from, m) (scan_from_lem now t reaped entries fs (rw m at h))
  | inr m ↦ elim (Bool-cases (is_tmp f)) [
    | inl p ↦ elim (Bool-cases (is_stale now f)) [
      | inl old ↦
          rw (scan_from, m, p, old)
            (scan_from_lem now t (reaped ++ f ∷ []) entries fs (rw (m, p) at h)
              ∙ ground (arith, append_assoc reaped (f ∷ []) (leftovers now fs)))
      | inr new ↦ rw (scan_from, m, p, new) (scan_from_lem now t reaped entries fs (rw (m, p) at h))
    ]
    | inr p ↦
        let h' : t + (f.size + bytes_of (chunks fs)) < 2 ^ 63 = rw (m, p) at h in
        rw (scan_from, m, p, add64_pos t f.size (omega arith))
          (scan_from_lem now (t + f.size) reaped (entries ++ f ∷ []) fs (omega arith)
            ∙ ground (arith, append_assoc entries (f ∷ []) (chunks fs)))
  ]
]

-- If the sizes of the chunks add up to less than 2^63, the walk reaps exactly the old temporary files,
-- and takes exactly the chunks for candidates: the version marker and the temporary files of running
-- writes are in neither list.
pub scan_lem :
    (now : ℕ) (fs : List FileEntry)
    → bytes_of (chunks fs) < 2 ^ 63
    → scan now fs ≡ record {
      reaped = leftovers now fs;
      total = pos (bytes_of (chunks fs));
      entries = chunks fs;
    }
unfolding scan
scan_lem now fs h = scan_from_lem now 0 [] [] fs (omega arith) ∙ ground arith
