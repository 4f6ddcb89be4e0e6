-- ===== src/Prelude/Paths.antt =====
-- What the program uses of the package path/filepath: Clean, Join and Split on slash-separated paths.
pub mod Clean
use Prim.Native.Nat.{ℕ, ◌+◌}
use mathlib.Core.Path.{◌≡◌, refl, sym, ap, ◌∙◌}
use mathlib.Core.Logic.{◌≢◌}
use mathlib.Core.Bool.{Bool, true, false, ◌&&◌, ◌||◌}
use mathlib.Core.List.{List, [], ◌∷◌, ◌++◌, append_assoc}
use native.Mathlib.Omega.{arith}
use s3_cache.Prelude.Tests.{◌==◌, if◌then◌else◌}
use s3_cache.Prelude.Text.{codes, Lacks}
use s3_cache.Prelude.Assoc.{same}

-- The elements between the slashes.
unfoldable pub elements_from : List ℕ → List ℕ → List (List ℕ)
elements_from acc [] = acc ∷ []
elements_from acc (c ∷ s) =
    let rest = elements_from [] s in
    let more = elements_from (acc ++ c ∷ []) s in if c == b'/' then acc ∷ rest else more

unfoldable pub elements : List ℕ → List (List ℕ)
unfolding elements_from
elements s = elements_from [] s

-- ".." takes back the element before it; at a rooted path's start it is dropped.
abbrev back : Bool → List (List ℕ) → List (List ℕ)
back rooted [] = if rooted then [] else codes ".." ∷ []
back rooted (top ∷ st) = if same top (codes "..") then codes ".." ∷ top ∷ st else st

-- One element of the path, on those before it, the last one first.
unfoldable pub push : Bool → List (List ℕ) → List ℕ → List (List ℕ)
push rooted st e =
    if same e [] || same e (codes ".")
    then st
    else if same e (codes "..")
    then back rooted st
    else e ∷ st

unfoldable pub push_all : Bool → List (List ℕ) → List (List ℕ) → List (List ℕ)
push_all rooted st [] = st
push_all rooted st (e ∷ es) = push_all rooted (push rooted st e) es

-- The path of those elements, the last one first.
unfoldable pub render : Bool → List (List ℕ) → List ℕ
render true [] = b'/' ∷ []
render false [] = codes "."
render rooted (e ∷ []) = if rooted then b'/' ∷ e else e
render rooted (e ∷ f ∷ st) = render rooted (f ∷ st) ++ b'/' ∷ e

abbrev pub is_rooted : List ℕ → Bool
is_rooted [] = false
is_rooted (c ∷ s) = c == b'/'

-- filepath.Clean
unfoldable pub clean : List ℕ → List ℕ
unfolding elements push_all render
clean p = render (is_rooted p) (push_all (is_rooted p) [] (elements p))

-- The elements that are not empty, with slashes between them.
unfoldable pub joined : List (List ℕ) → List ℕ
joined [] = []
joined (e ∷ es) =
    let rest = joined es in if same e [] then rest else if same rest [] then e else e ++ b'/' ∷ rest

-- filepath.Join
unfoldable pub join_path : List (List ℕ) → List ℕ
unfolding joined clean
join_path es = let p : List ℕ = joined es in if same p [] then [] else clean p

-- path.Split: the part up to the last slash, and the rest.
unfoldable pub split_path : List ℕ → List ℕ × List ℕ
split_path [] = ([], [])
split_path (c ∷ s) =
    let (dir, file) = split_path s in
    if same dir [] then (if c == b'/' then (c ∷ [], file) else ([], c ∷ file)) else (c ∷ dir, file)

join_example : join_path (codes "/a//b/" ∷ [] ∷ codes "c" ∷ []) ≡ codes "/a/b/c"
unfolding join_path clean elements elements_from push_all push render joined same
join_example = refl

split_example : split_path (codes "/webtor/data") ≡ (codes "/webtor/", codes "data")
unfolding split_path same
split_example = refl
