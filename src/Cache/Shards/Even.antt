-- ===== src/Cache/Shards/Even.antt =====
-- services/cache.go, distributeByHash: which of the shards a hash comes to.
use native.Mathlib.Nat.{le-div_iff_mul-le, div-lt_iff_lt-mul}
use s3_cache.Prelude.{
  ltb→lt, ℕ, zero, suc, ◌+◌, ◌-◌, ◌*◌, ◌/◌, ◌^◌, ◌<◌, ◌≤◌, ◌≡◌, refl, ap, ◌∙◌, inl, inr, List, [],
  ◌∷◌, Option, none, some, false, ok, arith, length, min, ltb, Bool-cases, take,
}
use s3_cache.Prelude.Int.{pos, add64, mul64, div64, add64_pos, mul64_pos, div64_pos}
use s3_cache.Cache.Shards.{
  Host, parse_hex, pick, last_dir, choose, sort_strings, insert_text, distribute_by_hash,
}

abbrev pub get_elem? : List (List ℕ) → ℕ → Option (List ℕ)
get_elem? [] n = none
get_elem? (d ∷ ds) zero = some d
get_elem? (d ∷ ds) (suc n) = get_elem? ds n

product-le : (i n k : ℕ) → i ≤ n → i * k ≤ n * k
product-le i n k h = grind arith

le-product : (i k : ℕ) → 0 < k → i ≤ i * k
le-product i k h = grind arith

-- The product that the loop compares with.
bound_lem :
    (i n k : ℕ)
    → 0 < k
    → i + 1 ≤ n
    → n * k < 2 ^ 63
    → mul64 (add64 (pos i) (pos 1)) (pos k) ≡ pos ((i + 1) * k)
bound_lem i n k hk h m =
    rw
      (
        add64_pos i 1 (omega (arith, le-product (i + 1) k hk, product-le (i + 1) n k h)),
        mul64_pos (i + 1) k (omega (arith, product-le (i + 1) n k h)),
      )
      refl

ltb→ge : (a b : ℕ) → ltb a b ≡ false → b ≤ a
ltb→ge a b h = ground arith

suc_gap : (q i : ℕ) → i < q → q - i ≡ suc (q - (i + 1))
suc_gap q i h = omega arith

-- The number of the interval that `num` lies in, and whether there is a shard for it.
pick-get_elem :
    (num k i n : ℕ) (ds : List (List ℕ))
    → 0 < k
    → i * k ≤ num
    → i + length ds ≡ n
    → n * k < 2 ^ 63
    → pick (pos num) (pos k) i ds ≡ get_elem? ds (num / k - i)
unfolding pick
pick-get_elem num k i n [] hk h e m = refl
pick-get_elem num k i n (d ∷ ds) hk h e m = elim (Bool-cases (ltb num ((i + 1) * k))) [
  | inl below ↦
      let j : num / k < i + 1 = (div-lt_iff_lt-mul hk).1 (ltb→lt num ((i + 1) * k) below) in
      let z : num / k - i ≡ 0 = omega arith in
      rw (pick, bound_lem i n k hk (omega arith) m, z) (ground (arith, below))
  | inr above ↦
      let h' : (i + 1) * k ≤ num = ltb→ge num ((i + 1) * k) above in
      let j : i + 1 ≤ num / k = (le-div_iff_mul-le hk).1 h' in
      rw (pick, bound_lem i n k hk (omega arith) m, suc_gap (num / k) i (omega arith))
        (ground (arith, above, pick-get_elem num k (i + 1) n ds hk h' (omega arith) m))
]

get_elem-last :
    (d : List ℕ) (ds : List (List ℕ)) → get_elem? (d ∷ ds) (length ds) ≡ some (last_dir d ds)
unfolding last_dir
get_elem-last d [] = refl
get_elem-last d (e ∷ ds) = get_elem-last e ds

get_elem_inside :
    (ds : List (List ℕ)) (n : ℕ) → n < length ds → (d : List ℕ) × (get_elem? ds n ≡ some d)
get_elem_inside [] n h = absurd (omega arith)
get_elem_inside (d ∷ ds) zero h = (d, refl)
get_elem_inside (d ∷ ds) (suc n) h = get_elem_inside ds n (omega arith)

get_elem_outside : (ds : List (List ℕ)) (n : ℕ) → length ds ≤ n → get_elem? ds n ≡ none
get_elem_outside [] n h = refl
get_elem_outside (d ∷ ds) zero h = absurd (omega arith)
get_elem_outside (d ∷ ds) (suc n) h = get_elem_outside ds n (omega arith)

-- The share of the hash space that a shard has, of `n`; hashes are five hexadecimal digits.
abbrev pub share : ℕ → ℕ
share n = 1_048_575_000 / n

share_pos : (n : ℕ) → 0 < n → n ≤ 1_048_575_000 → 0 < share n
share_pos n h m = (le-div_iff_mul-le h).1 (omega arith)

share-le : (n : ℕ) → 0 < n → n * share n ≤ 1_048_575_000
share-le n h =
    omega (arith, (le-div_iff_mul-le {x = share n} {y = 1_048_575_000} h).0 (omega arith))

interval_lem : (n : ℕ) → div64 (mul64 (pos 1_048_575) (pos 1_000)) (pos n) ≡ pos (share n)
interval_lem n = rw (mul64_pos 1_048_575 1_000 (omega arith), div64_pos 1_048_575_000 n) refl

pick_first :
    (v n : ℕ) (ds : List (List ℕ))
    → v ≤ 1_048_575
    → length ds ≡ n
    → 0 < n
    → n ≤ 1_048_575_000
    → pick (mul64 (pos v) (pos 1_000)) (div64 (mul64 (pos 1_048_575) (pos 1_000)) (pos n)) 0 ds
      ≡ get_elem? ds (v * 1000 / share n)
pick_first v n ds hv len hn m =
    let from_start : v * 1000 / share n - 0 ≡ v * 1000 / share n = omega arith in
    rw (interval_lem n, mul64_pos v 1_000 (omega arith))
      (pick-get_elem (v * 1000) (share n) 0 n ds (share_pos n hn m) (omega arith)
          (omega (arith, len)) (omega (arith, share-le n hn))
        ∙ ap (get_elem? ds) from_start)

choose-get_elem :
    (d : List ℕ) (ds : List (List ℕ)) (v : ℕ)
    → v ≤ 1_048_575
    → length (d ∷ ds) ≤ 1_048_575_000
    → (dir : List ℕ) × (choose (d ∷ ds) v ≡ ok dir)
      × (get_elem? (d ∷ ds) (min (v * 1000 / share (length (d ∷ ds))) (length (d ∷ ds) - 1))
          ≡ some dir)
unfolding choose
choose-get_elem d ds v h m =
    let n : ℕ = length (d ∷ ds) in
    let q : ℕ = v * 1000 / share n in
    let first = pick_first v n (d ∷ ds) h refl (omega arith) m in
    elim (Bool-cases (ltb q n)) [
      | inl within ↦
          let lt : q < n = ltb→lt q n within in
          let (dir, at) = get_elem_inside (d ∷ ds) q lt in
          let same_place : min q (n - 1) ≡ q = omega arith in
          (dir, rw (choose, first, at) refl, rw same_place at)
      | inr beyond ↦
          let ge : n ≤ q = ltb→ge q n beyond in
          let last_place : min q (n - 1) ≡ length ds = omega arith in
          (
            last_dir d ds,
            rw (choose, first, get_elem_outside (d ∷ ds) q ge) refl,
            rw last_place (get_elem-last d ds),
          )
    ]

length-insert_text : (s : List ℕ) (ts : List (List ℕ)) → length (insert_text s ts) ≡ suc (length ts)
unfolding insert_text
length-insert_text s [] = refl
length-insert_text s (t ∷ ts) = ground (arith, length-insert_text s ts)

pub length-sort_strings : (ss : List (List ℕ)) → length (sort_strings ss) ≡ length ss
unfolding sort_strings
length-sort_strings [] = refl
length-sort_strings (s ∷ ss) =
    length-insert_text s (sort_strings ss) ∙ ap suc (length-sort_strings ss)

choose_sorted :
    (dirs : List (List ℕ)) (v n : ℕ)
    → length dirs ≡ n
    → 0 < n
    → n ≤ 1_048_575_000
    → v ≤ 1_048_575
    → (dir : List ℕ) × (choose dirs v ≡ ok dir)
      × (get_elem? dirs (min (v * 1000 / share n) (n - 1)) ≡ some dir)
choose_sorted [] v n len hn m h = absurd (omega (arith, len))
choose_sorted (d ∷ ds) v n len hn m h =
    let (dir, p, q) = choose-get_elem d ds v h (omega (arith, len)) in (dir, p, rw len at q)

-- The shards, sorted, share the hash space in equal intervals, and the last one has what is left of
-- it: a hash that begins with five hexadecimal digits of value `v` comes to the shard of its interval.
-- There is a shard, and there are no more of them than hashes.
pub distribute_by_hash-get_elem :
    (host : Host) (dirs : List (List ℕ)) (hash : List ℕ) (v : ℕ)
    → 0 < length dirs
    → length dirs ≤ 1_048_575_000
    → v ≤ 1_048_575
    → parse_hex 0 (take 5 (host.digest hash)) ≡ some v
    → (dir : List ℕ) × (distribute_by_hash host dirs hash ≡ ok dir)
      × (get_elem? (sort_strings dirs) (min (v * 1000 / share (length dirs)) (length dirs - 1))
          ≡ some dir)
unfolding distribute_by_hash
distribute_by_hash-get_elem host dirs hash v hn m h p =
    let (dir, q, r) =
      choose_sorted (sort_strings dirs) v (length dirs) (length-sort_strings dirs) hn m h in
    (dir, rw (distribute_by_hash, p) q, r)
