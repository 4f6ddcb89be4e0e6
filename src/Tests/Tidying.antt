-- ===== src/Tests/Tidying.antt =====
-- Tidying up behind an eviction (services/eviction.go) at a concrete tree.
use s3_cache.Prelude.{◌≡◌, refl, List, [], ◌∷◌, true}
use s3_cache.Prelude.Assoc.{same, member}
use s3_cache.Prelude.Text.{codes}
use s3_cache.Prelude.Paths.{split_path, clean, elements, elements_from, push_all, push, render}
use s3_cache.Eviction.{FileEntry}
use s3_cache.Eviction.Tidy.{Tree, parent, tidy_removed}
use s3_cache.Eviction.Tidy.Kept.{AllHoused, remaining, tidy_removed-AllHoused}

abbrev tree : Tree
tree = record {
  files = codes "/s/aa/k/x" ∷ codes "/s/bb/k/y" ∷ [];
  dirs = codes "/s" ∷ codes "/s/aa" ∷ codes "/s/aa/k" ∷ codes "/s/bb" ∷ codes "/s/bb/k" ∷ [];
}

abbrev evicted : List FileEntry
evicted = record { path = codes "/s/aa/k/x"; name = codes "x"; size = 3; mtime = 1 } ∷ []

-- Both directories above the evicted chunk go, and no other.
tidied :
    (tidy_removed (λ dir. true) (λ dir. true) evicted tree).dirs
    ≡ codes "/s" ∷ codes "/s/bb" ∷ codes "/s/bb/k" ∷ []
unfolding tidy_removed parent same split_path clean elements elements_from push_all push render
tidied = refl

housed : AllHoused tree.dirs tree.files
unfolding member parent same split_path clean elements elements_from push_all push render
housed = (refl, (refl, tt))

tidy_removed-AllHoused_example :
    let t' : Tree = tidy_removed (λ dir. true) (λ dir. true) evicted tree in
    (t'.files ≡ remaining evicted tree.files) × AllHoused t'.dirs t'.files
tidy_removed-AllHoused_example =
    tidy_removed-AllHoused (λ dir. true) (λ dir. true) evicted tree housed
