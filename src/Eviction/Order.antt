-- ===== src/Eviction/Order.antt =====
-- services/eviction.go, the sort of the candidates: lists in the order of a comparator, and what the
-- documentation of Go's sort.Slice says.
use mathlib.Core.List.{Perm}
use s3_cache.Prelude.{
  ◌≡◌, ◌≤◌, ◌⊎◌, inl, inr, List, [], ◌∷◌, ◌++◌, Bool, true, false, arith, Bool-cases,
}
use s3_cache.Eviction.{FileEntry, is_before, SortSlice}

-- None of these is less than `f`.
abbrev pub AllAfter : (FileEntry → FileEntry → Bool) → FileEntry → List FileEntry → Type 0
AllAfter less f [] = Unit {0}
AllAfter less f (g ∷ gs) = (less g f ≡ false) × AllAfter less f gs

abbrev pub IsSorted : (FileEntry → FileEntry → Bool) → List FileEntry → Type 0
IsSorted less [] = Unit {0}
IsSorted less (f ∷ fs) = AllAfter less f fs × IsSorted less fs

-- The requirements on a comparator: a strict order, for which being neither less nor greater is
-- transitive.
pub record IsStrictOrder (less : FileEntry → FileEntry → Bool) : Type 0 where
  pub asymmetric : (f g : FileEntry) → less f g ≡ true → less g f ≡ false
  pub weak : (f g h : FileEntry) → less f g ≡ true → (less f h ≡ true) ⊎ (less h g ≡ true)

-- sort.Slice reorders the slice, so that no element is less than one before it.
abbrev pub Sorts : SortSlice → Type 0
Sorts sort_slice =
    (less : FileEntry → FileEntry → Bool) (fs : List FileEntry)
    → IsStrictOrder less
    → Perm (sort_slice less fs) fs × IsSorted less (sort_slice less fs)

pub is_before-IsStrictOrder : IsStrictOrder is_before
is_before-IsStrictOrder = record {
  asymmetric = λ f g h. ground arith;
  weak =
      λ f g h k. elim (Bool-cases (is_before f h)) [ inl e ↦ inl e | inr e ↦ inr (ground arith) ];
}

-- None of these is older than `f`, by the times of the files.
abbrev pub AllYounger : FileEntry → List FileEntry → Type 0
AllYounger f [] = Unit {0}
AllYounger f (g ∷ gs) = (f.mtime ≤ g.mtime) × AllYounger f gs

-- Each of the first is at most as young as each of the second.
abbrev pub AllOlder : List FileEntry → List FileEntry → Type 0
AllOlder [] gs = Unit {0}
AllOlder (f ∷ fs) gs = AllYounger f gs × AllOlder fs gs

AllAfter-AllYounger :
    (f : FileEntry) (rs gs : List FileEntry) → AllAfter is_before f (rs ++ gs) → AllYounger f gs
AllAfter-AllYounger f [] [] h = tt
AllAfter-AllYounger f [] (g ∷ gs) (h, hs) = (ground arith, AllAfter-AllYounger f [] gs hs)
AllAfter-AllYounger f (r ∷ rs) gs (h, hs) = AllAfter-AllYounger f rs gs hs

-- In a list sorted by age, none of a part in front is younger than one of the rest.
pub front_older : (rs gs : List FileEntry) → IsSorted is_before (rs ++ gs) → AllOlder rs gs
front_older [] gs h = tt
front_older (r ∷ rs) gs (h, hs) = (AllAfter-AllYounger r rs gs h, front_older rs gs hs)
