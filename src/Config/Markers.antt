-- ===== src/Config/Markers.antt =====
-- services/cache.go, NewDiskCache: when the service starts, every shard has its marker time.
use s3_cache.Prelude.{
  ℕ, ◌≡◌, refl, ◌∙◌, inl, inr, List, [], ◌∷◌, none, some, true, ok, arith, Option-cases,
}
use s3_cache.Prelude.Assoc.{same_refl, same_iff, lookup, insert, lookup-insert}
use s3_cache.Cache.Shards.{Host}
use s3_cache.Cache.Names.{Places, cache_roots}
use s3_cache.Cache.Files.{
  Files, CacheState, Calls, Times, marker_time, or_unknown, read_or_create_marker,
}
use s3_cache.Config.{mark_roots, ensure_markers, new_disk_cache}

-- The marker time of a shard root is settled: it is asked for without a look at the disk.
abbrev pub Settled : List ℕ → CacheState → Type 0
Settled dir st =
    (t : ℕ) × ((times : Times) (calls : Calls) → marker_time times calls dir st ≡ (st, t))

abbrev pub AllSettled : List (List ℕ) → CacheState → Type 0
AllSettled [] st = Unit {0}
AllSettled (dir ∷ dirs) st = Settled dir st × AllSettled dirs st

marker_time-Settled :
    (dir : List ℕ) (st : CacheState) (t : ℕ) → lookup dir st.since ≡ some t → Settled dir st
unfolding marker_time
marker_time-Settled dir st t e = (t, λ times calls. rw (marker_time, e) refl)

insert_keeps :
    (dir other : List ℕ) (u t : ℕ) (m : List (List ℕ × ℕ))
    → lookup dir m ≡ none
    → lookup other m ≡ some t
    → lookup other (insert dir u m) ≡ some t
insert_keeps dir other u t m k e = ground (arith, lookup-insert dir other u m, same_iff other dir)

-- A time that was recorded stays.
marker_time_keeps :
    (times : Times) (calls : Calls) (dir other : List ℕ) (st : CacheState) (t : ℕ)
    → lookup other st.since ≡ some t
    → lookup other (marker_time times calls dir st).0.since ≡ some t
unfolding marker_time
marker_time_keeps times calls dir other st t e = elim (Option-cases (lookup dir st.since)) [
  | inr (u, k) ↦ rw (marker_time, k) e
  | inl k ↦ rw (marker_time, k) (insert_keeps dir other _ t st.since k e)
]

marker_time_records :
    (times : Times) (calls : Calls) (dir : List ℕ) (st : CacheState)
    → (t : ℕ) × (lookup dir (marker_time times calls dir st).0.since ≡ some t)
unfolding marker_time
marker_time_records times calls dir st = elim (Option-cases (lookup dir st.since)) [
  | inr (u, k) ↦ (u, rw (marker_time, k) k)
  | inl k ↦
      let u : ℕ = or_unknown (read_or_create_marker times calls dir st.files).1 in
      (u, rw (marker_time, k) (lookup-insert dir dir u st.since ∙ rw (same_refl dir) refl))
]

mark_roots_keeps :
    (times : Times) (calls : List ℕ → Calls) (dirs : List (List ℕ)) (other : List ℕ)
    (st : CacheState) (t : ℕ)
    → lookup other st.since ≡ some t
    → lookup other (mark_roots times calls dirs st).since ≡ some t
unfolding mark_roots
mark_roots_keeps times calls [] other st t e = e
mark_roots_keeps times calls (dir ∷ dirs) other st t e =
    mark_roots_keeps times calls dirs other (marker_time times (calls dir) dir st).0 t
      (marker_time_keeps times (calls dir) dir other st t e)

mark_roots-AllSettled :
    (times : Times) (calls : List ℕ → Calls) (dirs : List (List ℕ)) (st : CacheState)
    → AllSettled dirs (mark_roots times calls dirs st)
unfolding mark_roots
mark_roots-AllSettled times calls [] st = tt
mark_roots-AllSettled times calls (dir ∷ dirs) st =
    let st' : CacheState = (marker_time times (calls dir) dir st).0 in
    let (t, e) = marker_time_records times (calls dir) dir st in
    (
      marker_time-Settled dir (mark_roots times calls dirs st') t
          (mark_roots_keeps times calls dirs dir st' t e),
      mark_roots-AllSettled times calls dirs st',
    )

-- When a cache is made and caching is on, the marker time of every shard root is settled before the
-- first request, where the roots can be listed: asking for it then leaves the disk as it is.
pub new_disk_cache-AllSettled :
    (host : Host) (times : Times) (calls : List ℕ → Calls) (places : Places) (files : Files)
    (dirs : List (List ℕ))
    → cache_roots host places ≡ ok dirs
    → ((new_disk_cache host times calls true places files).0 ≡ some places)
      × AllSettled dirs (new_disk_cache host times calls true places files).1
unfolding new_disk_cache ensure_markers
new_disk_cache-AllSettled host times calls places files dirs e = (
  refl,
  rw (new_disk_cache, e)
      (mark_roots-AllSettled times calls dirs (record { files = files; since = [] })),
)
