-- ===== src/Eviction/Tidy/Kept.antt =====
-- services/eviction.go, removeIfEmpty: nothing is left without its directory.
use s3_cache.Prelude.{
  ℕ, zero, suc, ◌≡◌, refl, ap, ◌∙◌, List, [], ◌∷◌, Bool, true, false, ◌&&◌, ◌||◌, not, arith,
  Bool-cases, inl, inr,
}
use s3_cache.Prelude.Assoc.{same, same_iff, member}
use s3_cache.Eviction.{FileEntry}
use s3_cache.Eviction.Tidy.{Tree, parent, any_in, without, remove_if_empty, tidy_removed}

-- Every path of the list lies in one of the directories.
abbrev pub AllHoused : List (List ℕ) → List (List ℕ) → Type 0
AllHoused dirs [] = Unit {0}
AllHoused dirs (p ∷ ps) = (member (parent p) dirs ≡ true) × AllHoused dirs ps

member-without :
    (q p : List ℕ) (ps : List (List ℕ))
    → same q p ≡ false
    → member q ps ≡ true
    → member q (without p ps) ≡ true
unfolding member without
member-without q p [] ne h = h
member-without q p (x ∷ xs) ne h =
    ground (arith, member-without q p xs ne, same_iff q p, same_iff p x, same_iff q x)

-- An empty directory houses nothing, so it can go.
without-AllHoused :
    (dir : List ℕ) (dirs ps : List (List ℕ))
    → any_in dir ps ≡ false
    → AllHoused dirs ps
    → AllHoused (without dir dirs) ps
unfolding any_in
without-AllHoused dir dirs [] e h = tt
without-AllHoused dir dirs (p ∷ ps) e (here, rest) = (
  member-without (parent p) dir dirs (ground (arith, e)) here,
  without-AllHoused dir dirs ps (ground (arith, e)) rest,
)

AllHoused-without :
    (q : List ℕ) (dirs ps : List (List ℕ)) → AllHoused dirs ps → AllHoused dirs (without q ps)
unfolding without
AllHoused-without q dirs [] h = tt
AllHoused-without q dirs (p ∷ ps) (here, rest) = elim (Bool-cases (same q p)) [
  | inl e ↦ rw e (AllHoused-without q dirs ps rest)
  | inr e ↦ rw e (here, AllHoused-without q dirs ps rest)
]

remove_if_empty-AllHoused :
    (reads removes : List ℕ → Bool) (left : ℕ) (dir : List ℕ) (t : Tree)
    → AllHoused t.dirs t.files
    → let t' : Tree = remove_if_empty reads removes left dir t in
      (t'.files ≡ t.files) × AllHoused t'.dirs t'.files
unfolding remove_if_empty
remove_if_empty-AllHoused reads removes zero dir t h = (refl, h)
remove_if_empty-AllHoused reads removes (suc left) dir t h =
    elim (Bool-cases
      (reads dir && (not (any_in dir t.files || any_in dir t.dirs) && removes dir))) [
        | inr stays ↦ rw (remove_if_empty, stays) (refl, h)
        | inl goes ↦
            let empty : any_in dir t.files ≡ false = ground (arith, goes) in
            rw (remove_if_empty, goes)
              (remove_if_empty-AllHoused reads removes left (parent dir)
                (record t { dirs = without dir t.dirs })
                (without-AllHoused dir t.dirs t.files empty h))
      ]

-- The files without those that were removed.
abbrev pub remaining : List FileEntry → List (List ℕ) → List (List ℕ)
remaining [] ps = ps
remaining (f ∷ fs) ps = remaining fs (without f.path ps)

-- Tidying up behind the removed files of a sweep takes away no other file, and no directory that a file
-- lies in: if every file had its directory before, every file that is left has it.
pub tidy_removed-AllHoused :
    (reads removes : List ℕ → Bool) (removed : List FileEntry) (t : Tree)
    → AllHoused t.dirs t.files
    → let t' : Tree = tidy_removed reads removes removed t in
      (t'.files ≡ remaining removed t.files) × AllHoused t'.dirs t'.files
unfolding tidy_removed
tidy_removed-AllHoused reads removes [] t h = (refl, h)
tidy_removed-AllHoused reads removes (f ∷ fs) t h =
    let less : Tree = record t { files = without f.path t.files } in
    let (same_files, housed) =
      remove_if_empty-AllHoused reads removes 2 (parent f.path) less
        (AllHoused-without f.path t.dirs t.files h) in
    let (left, all) =
      tidy_removed-AllHoused reads removes fs (remove_if_empty reads removes 2 (parent f.path) less)
        housed in
    (left ∙ ap (remaining fs) same_files, all)
