-- ===== src/Cache/Shards.antt =====
-- services/cache.go, getDir, listShards and distributeByHash: the shard of a hash. What os.ReadDir
-- and os.MkdirAll find on the host, and the hexadecimal SHA-1 of a text, are arguments.
pub mod Even
use s3_cache.Prelude.{
  ℕ, ◌+◌, ◌-◌, ◌*◌, List, [], ◌∷◌, ◌++◌, Option, none, some, Bool, true, false, ◌&&◌, ◌||◌, Result,
  ok, err, if◌then◌else◌, leb, ltb, ◌==◌, length, take,
}
use s3_cache.Prelude.Int.{ℤ, pos, add64, mul64, div64, ltb_ℤ}
use s3_cache.Prelude.Assoc.{same}
use s3_cache.Prelude.Text.{codes, has_prefix}
use s3_cache.Prelude.Paths.{join_path, split_path}

pub record Entry : Type 0 where
  pub name : List ℕ
  pub is_dir : Bool

pub data Listing : Type 0 where
  not_exist failed : Listing
  listed : List Entry → Listing

pub record Host : Type 0 where
  pub digest : List ℕ → List ℕ
  pub read_dir : List ℕ → Listing
  pub makes_dir : List ℕ → Bool

pub data ShardError : Type 0 where
  list_failed mkdir_failed bad_hash no_dirs : ShardError

-- strings.HasSuffix(s, "*") and strings.TrimSuffix(s, "*")
unfoldable pub ends_in_star : List ℕ → Bool
ends_in_star [] = false
ends_in_star (c ∷ []) = c == b'*'
ends_in_star (c ∷ d ∷ s) = ends_in_star (d ∷ s)

unfoldable pub trim_star : List ℕ → List ℕ
trim_star [] = []
trim_star (c ∷ []) = if c == b'*' then [] else c ∷ []
trim_star (c ∷ d ∷ s) = c ∷ trim_star (d ∷ s)

-- sort.Strings
unfoldable pub text_le : List ℕ → List ℕ → Bool
text_le [] t = true
text_le (c ∷ s) [] = false
text_le (c ∷ s) (d ∷ t) = ltb c d || (c == d && text_le s t)

unfoldable pub insert_text : List ℕ → List (List ℕ) → List (List ℕ)
unfolding text_le
insert_text s [] = s ∷ []
insert_text s (t ∷ ts) = if text_le s t then s ∷ t ∷ ts else t ∷ insert_text s ts

unfoldable pub sort_strings : List (List ℕ) → List (List ℕ)
unfolding insert_text
sort_strings [] = []
sort_strings (s ∷ ss) = insert_text s (sort_strings ss)

-- The directories whose name begins with `lp`.
unfoldable pub matching : List ℕ → List ℕ → List Entry → List (List ℕ)
matching dir lp [] = []
matching dir lp (e ∷ es) =
    if e.is_dir && has_prefix e.name lp
    then join_path (dir ∷ e.name ∷ []) ∷ matching dir lp es
    else matching dir lp es

list_dir : Host → List ℕ → List ℕ → Result ShardError (List (List ℕ))
unfolding matching sort_strings
list_dir host dir lp = elim (host.read_dir dir) [
  | not_exist ↦ ok []
  | failed ↦ err list_failed
  | listed es ↦ ok (sort_strings (matching dir lp es))
]

unfoldable pub list_shards : Host → List ℕ → Result ShardError (List (List ℕ))
unfolding list_dir
list_shards host location =
    let (dir, lp) = split_path (trim_star location) in
    list_dir host (if same dir [] then codes "." else dir) lp

-- strconv.ParseInt(s, 16, 64), for a text of hexadecimal digits.
abbrev pub hex_digit : ℕ → Option ℕ
hex_digit c =
    if leb b'0' c && leb c b'9'
    then some (c - b'0')
    else if leb b'a' c && leb c b'f'
    then some (c - b'a' + 10)
    else none

unfoldable pub parse_hex : ℕ → List ℕ → Option ℕ
parse_hex n [] = some n
parse_hex n (c ∷ s) = elim (hex_digit c) [ none ↦ none | some d ↦ parse_hex (n * 16 + d) s ]

-- The loop of distributeByHash, from index `i` on.
unfoldable pub pick : ℤ → ℤ → ℕ → List (List ℕ) → Option (List ℕ)
pick num interval i [] = none
pick num interval i (d ∷ ds) =
    if ltb_ℤ num (mul64 (add64 (pos i) (pos 1)) interval)
    then some d
    else pick num interval (i + 1) ds

-- dirs[len(dirs)-1]
unfoldable pub last_dir : List ℕ → List (List ℕ) → List ℕ
last_dir d [] = d
last_dir d (e ∷ ds) = last_dir e ds

-- Go's code divides by the number of directories; its callers pass at least two.
choose : List (List ℕ) → ℕ → Result ShardError (List ℕ)
unfolding pick last_dir
choose [] v = err no_dirs
choose (d ∷ ds) v =
    let interval : ℤ = div64 (mul64 (pos 1_048_575) (pos 1_000)) (pos (length (d ∷ ds))) in
    elim (pick (mul64 (pos v) (pos 1_000)) interval 0 (d ∷ ds)) [
      | none ↦ ok (last_dir d ds)
      | some dir ↦ ok dir
    ]

unfoldable pub distribute_by_hash : Host → List (List ℕ) → List ℕ → Result ShardError (List ℕ)
unfolding choose sort_strings
distribute_by_hash host dirs hash = elim (parse_hex 0 (take 5 (host.digest hash))) [
  | none ↦ err bad_hash
  | some v ↦ choose (sort_strings dirs) v
]

-- getDir, once the shards are listed.
get_listed : Host → List ℕ → List ℕ → List (List ℕ) → Result ShardError (List ℕ)
unfolding distribute_by_hash
get_listed host location hash [] =
    let dir : List ℕ = trim_star location ++ codes "1" in
    if host.makes_dir dir then ok dir else err mkdir_failed
get_listed host location hash (s ∷ []) = ok s
get_listed host location hash (s ∷ t ∷ ss) = distribute_by_hash host (s ∷ t ∷ ss) hash

unfoldable pub get_dir : Host → List ℕ → List ℕ → Result ShardError (List ℕ)
unfolding get_listed
get_dir host location hash =
    if ends_in_star location
    then elim (list_shards host location) [
      | err e ↦ err e
      | ok shards ↦ get_listed host location hash shards
    ]
    else ok location
