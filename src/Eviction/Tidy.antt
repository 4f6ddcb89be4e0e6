-- ===== src/Eviction/Tidy.antt =====
-- services/eviction.go, removeIfEmpty: the directories that an eviction leaves empty. Which directories
-- can be read and removed are arguments.
pub mod Kept
use s3_cache.Prelude.{
  ℕ, zero, suc, List, [], ◌∷◌, Bool, true, false, ◌&&◌, ◌||◌, not, if◌then◌else◌,
}
use s3_cache.Prelude.Assoc.{same}
use s3_cache.Prelude.Paths.{split_path, clean}
use s3_cache.Eviction.{FileEntry}

-- The paths of the files and of the directories on disk.
pub record Tree : Type 0 where
  pub files : List (List ℕ)
  pub dirs : List (List ℕ)

-- filepath.Dir
unfoldable pub parent : List ℕ → List ℕ
parent p = clean (split_path p).0

-- Some path of the list lies in `dir`.
unfoldable pub any_in : List ℕ → List (List ℕ) → Bool
any_in dir [] = false
any_in dir (p ∷ ps) = same (parent p) dir || any_in dir ps

unfoldable pub without : List ℕ → List (List ℕ) → List (List ℕ)
without p [] = []
without p (q ∷ qs) = if same p q then without p qs else q ∷ without p qs

-- The loop of removeIfEmpty, for the rounds that are left.
unfoldable pub remove_if_empty : (List ℕ → Bool) → (List ℕ → Bool) → ℕ → List ℕ → Tree → Tree
unfolding any_in without
remove_if_empty reads removes zero dir t = t
remove_if_empty reads removes (suc left) dir t =
    let up : Tree =
      remove_if_empty reads removes left (parent dir) (record t { dirs = without dir t.dirs }) in
    if reads dir && (not (any_in dir t.files || any_in dir t.dirs) && removes dir) then up else t

-- The removed candidates of a sweep, each with the tidying behind it.
unfoldable pub tidy_removed : (List ℕ → Bool) → (List ℕ → Bool) → List FileEntry → Tree → Tree
unfolding remove_if_empty
tidy_removed reads removes [] t = t
tidy_removed reads removes (f ∷ fs) t =
    tidy_removed reads removes fs (
      remove_if_empty reads removes 2 (parent f.path) (record t { files = without f.path t.files }))
