-- ===== src/Tests/Sweeping.antt =====
-- The sweep of a shard (services/eviction.go) at a concrete input, with an insertion sort in the place
-- of sort.Slice.
use mathlib.Core.List.Perm
use mathlib.Core.List.{Perm}
use s3_cache.Prelude.{
  ℕ, ◌≡◌, ◌⊎◌, ◌≤◌, ◌<◌, ◌-◌, ◌/◌, inl, inr, arith, List, [], ◌∷◌, Bool, true, false, Bool-cases,
  if◌then◌else◌,
}
use s3_cache.Prelude.Int.{pos}
use s3_cache.Prelude.Assoc.{same}
use s3_cache.Prelude.Text.{codes}
use s3_cache.Eviction.{FileEntry, Evicted, sweep_shard}
use s3_cache.Eviction.Order.{AllAfter, IsSorted, IsStrictOrder, Sorts}
use s3_cache.Eviction.Sweep.{bytes_of}
use s3_cache.Eviction.Scan.{chunks}
use s3_cache.Eviction.Swept.{Swept, sweep_shard_lem}

place : (FileEntry → FileEntry → Bool) → FileEntry → List FileEntry → List FileEntry
place less f [] = f ∷ []
place less f (g ∷ gs) = let rest = place less f gs in if less g f then g ∷ rest else f ∷ g ∷ gs

insertion_sort : (FileEntry → FileEntry → Bool) → List FileEntry → List FileEntry
unfolding place
insertion_sort less [] = []
insertion_sort less (f ∷ fs) = place less f (insertion_sort less fs)

module _ (less : FileEntry → FileEntry → Bool) (o : IsStrictOrder less) where
  place-Perm : (f : FileEntry) (fs : List FileEntry) → Perm (place less f fs) (f ∷ fs)
  unfolding place
  place-Perm f [] = Perm.refl _
  place-Perm f (g ∷ gs) = elim (Bool-cases (less g f)) [
    | inl e ↦ rw (place, e) (Perm.trans (Perm.cons g (place-Perm f gs)) (Perm.swap f g gs))
    | inr e ↦ rw (place, e) (Perm.refl _)
  ]

  before_all :
      (f g : FileEntry) (gs : List FileEntry)
      → less g f ≡ false
      → AllAfter less g gs
      → AllAfter less f gs
  before_all f g [] h k = tt
  before_all f g (x ∷ xs) h (k, ks) = (not_less, before_all f g xs h ks)
    where
      not_less : less x f ≡ false
      not_less = elim (Bool-cases (less x f)) [
        | inr e ↦ e
        | inl e ↦ elim (o.weak x f g e) [
          | inl y ↦ absurd (ground arith)
          | inr y ↦ absurd (ground arith)
        ]
      ]

  place-AllAfter :
      (x f : FileEntry) (fs : List FileEntry)
      → less f x ≡ false
      → AllAfter less x fs
      → AllAfter less x (place less f fs)
  unfolding place
  place-AllAfter x f [] h k = (h, tt)
  place-AllAfter x f (g ∷ gs) h (k, ks) = elim (Bool-cases (less g f)) [
    | inl e ↦ rw (place, e) (k, place-AllAfter x f gs h ks)
    | inr e ↦ rw (place, e) (h, (k, ks))
  ]

  place-IsSorted :
      (f : FileEntry) (fs : List FileEntry) → IsSorted less fs → IsSorted less (place less f fs)
  unfolding place
  place-IsSorted f [] h = (tt, tt)
  place-IsSorted f (g ∷ gs) (h, hs) = elim (Bool-cases (less g f)) [
    | inl e ↦ rw (place, e) (place-AllAfter g f gs (o.asymmetric g f e) h, place-IsSorted f gs hs)
    | inr e ↦ rw (place, e) ((e, before_all f g gs e h), (h, hs))
  ]

insertion_sort-Sorts : Sorts insertion_sort
unfolding insertion_sort
insertion_sort-Sorts less [] o = (Perm.nil, tt)
insertion_sort-Sorts less (f ∷ fs) o =
    let (p, s) = insertion_sort-Sorts less fs o in
    (
      Perm.trans (place-Perm less o f (insertion_sort less fs)) (Perm.cons f p),
      place-IsSorted less o f (insertion_sort less fs) s,
    )

abbrev file_of : List ℕ → ℕ → ℕ → FileEntry
file_of name size mtime = record { path = name; name = name; size = size; mtime = mtime }

abbrev shard : List FileEntry
shard =
    file_of (codes "b") 50 2
    ∷ file_of (codes ".tmp_1") 9 0
    ∷ file_of (codes "a") 60 1
    ∷ file_of (codes ".versioned-since") 0 0
    ∷ []

shard_fits : bytes_of (chunks shard) < 9_223_372_036_854_775_808
unfolding same
shard_fits = omega arith

sweep_shard_lem_example :
    let r : Evicted = sweep_shard (pos 100) 700_000_000_000 insertion_sort (λ f. true) shard in
    ((bytes_of (chunks shard) ≤ 100) × (r.removed ≡ []))
    ⊎ ((100 < bytes_of (chunks shard)) × Swept (λ f. true) (100 - 100 / 10) (chunks shard) r)
sweep_shard_lem_example =
    sweep_shard_lem 100 700_000_000_000 insertion_sort (λ f. true) shard (omega arith) shard_fits
      insertion_sort-Sorts
