-- ===== src/Eviction/Swept.antt =====
-- services/eviction.go, sweepShard as a whole: the walk, the sort and the loop.
use mathlib.Core.List.{Perm, Permᴰ}
use mathlib.Core.List.Permᴰ
use mathlib.Core.Logic.{∥∥₁_elim, ∥∥₁_map}
use native.Mathlib.Nat.{ℕ_set}
use s3_cache.Prelude.{
  ℕ, ◌+◌, ◌-◌, ◌/◌, ◌^◌, ◌<◌, ◌≤◌, ◌≡◌, refl, ap, ◌∙◌, List, [], ◌∷◌, ◌++◌, Bool, true, false,
  subst, arith, Bool-cases, inl, inr, ◌⊎◌,
}
use s3_cache.Prelude.Int.{pos, sub64_pos, div64_pos, leb_ℤ}
use s3_cache.Eviction.{FileEntry, Evicted, target_of, is_before, SortSlice, sweep_shard}
use s3_cache.Eviction.Scan.{chunks, scan_lem}
use s3_cache.Eviction.Sweep.{bytes_of, those, Outcome, evict-Outcome}
use s3_cache.Eviction.Order.{
  AllAfter, IsSorted, Sorts, is_before-IsStrictOrder, AllOlder, front_older,
}

size_path : {f g : FileEntry} → f ≡ g → f.size ≡ g.size
size_path e = ap (λ (f : FileEntry). f.size) e

bytes_of-Permᴰ : {xs ys : List FileEntry} → Permᴰ xs ys → bytes_of xs ≡ bytes_of ys
bytes_of-Permᴰ Permᴰ.nil = refl
bytes_of-Permᴰ (Permᴰ.cons e d) = omega (arith, size_path e, bytes_of-Permᴰ d)
bytes_of-Permᴰ (Permᴰ.swap e f) = omega (arith, size_path e, size_path f)
bytes_of-Permᴰ (Permᴰ.trans c d) = bytes_of-Permᴰ c ∙ bytes_of-Permᴰ d

bytes_of-Perm : (xs ys : List FileEntry) → Perm xs ys → bytes_of xs ≡ bytes_of ys
bytes_of-Perm xs ys p = ∥∥₁_elim p (ℕ_set _ _) bytes_of-Permᴰ

those_cons :
    (b : Bool) (removes : FileEntry → Bool) (f : FileEntry) (xs ys : List FileEntry)
    → Permᴰ (those b removes xs) (those b removes ys)
    → Permᴰ (those b removes (f ∷ xs)) (those b removes (f ∷ ys))
those_cons true removes f xs ys d = elim (Bool-cases (removes f)) [
  | inl e ↦ rw e (Permᴰ.cons refl d)
  | inr e ↦ rw e d
]
those_cons false removes f xs ys d = elim (Bool-cases (removes f)) [
  | inl e ↦ rw e d
  | inr e ↦ rw e (Permᴰ.cons refl d)
]

those_swap :
    (b : Bool) (removes : FileEntry → Bool) (f g : FileEntry) (xs : List FileEntry)
    → Permᴰ (those b removes (f ∷ g ∷ xs)) (those b removes (g ∷ f ∷ xs))
those_swap true removes f g xs = elim (Bool-cases (removes f)) [
  | inl e ↦ elim (Bool-cases (removes g)) [
    | inl k ↦ rw (e, k) (Permᴰ.swap refl refl)
    | inr k ↦ rw (e, k) (Permᴰ.refl _)
  ]
  | inr e ↦ rw e (Permᴰ.refl _)
]
those_swap false removes f g xs = elim (Bool-cases (removes f)) [
  | inl e ↦ rw e (Permᴰ.refl _)
  | inr e ↦ elim (Bool-cases (removes g)) [
    | inl k ↦ rw (e, k) (Permᴰ.refl _)
    | inr k ↦ rw (e, k) (Permᴰ.swap refl refl)
  ]
]

those-Permᴰ :
    (b : Bool) (removes : FileEntry → Bool) {xs ys : List FileEntry}
    → Permᴰ xs ys
    → Permᴰ (those b removes xs) (those b removes ys)
those-Permᴰ b removes Permᴰ.nil = Permᴰ.refl _
those-Permᴰ b removes (Permᴰ.cons {a = f} {b = g} {l₁ = xs} {l₂ = ys} e d) =
    subst (λ x. Permᴰ (those b removes (f ∷ xs)) (those b removes (x ∷ ys))) e
      (those_cons b removes f xs ys (those-Permᴰ b removes d))
those-Permᴰ b removes (Permᴰ.swap {a = f} {b = g} {a' = g'} {b' = f'} {l = xs} e k) =
    subst (λ x. Permᴰ (those b removes (f ∷ g ∷ xs)) (those b removes (g' ∷ x ∷ xs))) e
      (subst (λ x. Permᴰ (those b removes (f ∷ g ∷ xs)) (those b removes (x ∷ f ∷ xs))) k
        (those_swap b removes f g xs))
those-Permᴰ b removes (Permᴰ.trans c d) =
    Permᴰ.trans (those-Permᴰ b removes c) (those-Permᴰ b removes d)

those-Perm :
    (b : Bool) (removes : FileEntry → Bool) {xs ys : List FileEntry}
    → Perm xs ys
    → Perm (those b removes xs) (those b removes ys)
those-Perm b removes p = ∥∥₁_map p (λ d. those-Permᴰ b removes d)

those-AllAfter :
    (less : FileEntry → FileEntry → Bool) (removes : FileEntry → Bool) (f : FileEntry)
    (fs : List FileEntry)
    → AllAfter less f fs
    → AllAfter less f (those true removes fs)
those-AllAfter less removes f [] h = tt
those-AllAfter less removes f (g ∷ gs) (h, hs) = elim (Bool-cases (removes g)) [
  | inl e ↦ rw e (h, those-AllAfter less removes f gs hs)
  | inr e ↦ rw e (those-AllAfter less removes f gs hs)
]

those-IsSorted :
    (less : FileEntry → FileEntry → Bool) (removes : FileEntry → Bool) (fs : List FileEntry)
    → IsSorted less fs
    → IsSorted less (those true removes fs)
those-IsSorted less removes [] h = tt
those-IsSorted less removes (f ∷ fs) (h, hs) = elim (Bool-cases (removes f)) [
  | inl e ↦ rw e (those-AllAfter less removes f fs h, those-IsSorted less removes fs hs)
  | inr e ↦ rw e (those-IsSorted less removes fs hs)
]

-- What a sweep over its cap does to the chunks `fs` of a shard: what it removes and what it keeps of
-- those that can be removed, by age, and that it removes enough and no more.
pub record Swept (removes : FileEntry → Bool) (target : ℕ) (fs : List FileEntry) (r : Evicted)
    : Type 0 where
  pub left : ℕ
  pub kept : List FileEntry
  pub total_left : r.total ≡ pos left
  pub all : Perm (r.removed ++ kept) (those true removes fs)
  pub oldest : AllOlder r.removed kept
  pub adds_up : left + bytes_of r.removed ≡ bytes_of fs
  pub freed_bytes : r.freed ≡ pos (bytes_of r.removed)
  pub needed :
      (r.removed ≡ [])
      ⊎ ((init : List FileEntry) × (last : FileEntry) × (r.removed ≡ init ++ last ∷ [])
          × (target < left + last.size))
  pub enough : (left ≤ target) ⊎ ((kept ≡ []) × (left ≡ bytes_of (those false removes fs)))

Outcome-Swept :
    (removes : FileEntry → Bool) (target : ℕ) (fs gs : List FileEntry) (r : Evicted)
    → Perm gs fs
    → IsSorted is_before gs
    → Outcome removes target (bytes_of fs) 0 0 gs r
    → Swept removes target fs r
Outcome-Swept removes target fs gs r p sorted o = record {
  left = o.left;
  kept = o.kept;
  total_left = o.total_left;
  all = subst (λ x. Perm x (those true removes fs)) o.in_front (those-Perm true removes p);
  oldest =
      front_older r.removed o.kept
        (subst (IsSorted is_before) o.in_front (those-IsSorted is_before removes gs sorted));
  adds_up = o.adds_up;
  freed_bytes = o.freed_bytes ∙ ap pos (omega arith);
  needed = o.needed;
  enough = elim o.enough [
    | inl x ↦ inl x
    | inr (x, y) ↦ inr (
      x,
      omega (
        arith,
        y,
        bytes_of-Perm (those false removes gs) (those false removes fs)
            (those-Perm false removes p),
      ),
    )
  ];
}

-- A shard within its cap is left alone. Over it, the sweep removes the oldest of the chunks that can be
-- removed: none of these is younger than one that is kept. It removes no more than it takes to come
-- down to 9/10 of the cap, and comes down to that unless nothing but files that cannot be removed is
-- left; the bytes that it reports as left and as freed add up to those found. sort.Slice sorts by a
-- comparator that is a strict order, and the sizes of the chunks add up to less than 2^63.
pub sweep_shard_lem :
    (max_bytes now : ℕ) (sort_slice : SortSlice) (removes : FileEntry → Bool) (fs : List FileEntry)
    → max_bytes < 2 ^ 63
    → bytes_of (chunks fs) < 2 ^ 63
    → Sorts sort_slice
    → let r : Evicted = sweep_shard (pos max_bytes) now sort_slice removes fs in
      ((bytes_of (chunks fs) ≤ max_bytes) × (r.removed ≡ []))
      ⊎ ((max_bytes < bytes_of (chunks fs))
          × Swept removes (max_bytes - max_bytes / 10) (chunks fs) r)
unfolding sweep_shard target_of
sweep_shard_lem max_bytes now sort_slice removes fs hm hb sorts =
    let total : ℕ = bytes_of (chunks fs) in
    let found : List FileEntry = sort_slice is_before (chunks fs) in
    let (perm, sorted) = sorts is_before (chunks fs) is_before-IsStrictOrder in
    elim (Bool-cases (leb_ℤ (pos total) (pos max_bytes))) [
      | inl e ↦ rw (sweep_shard, scan_lem now fs hb, e) (inl (ground arith, refl))
      | inr e ↦
          rw
            (
              sweep_shard,
              scan_lem now fs hb,
              e,
              div64_pos max_bytes 10,
              sub64_pos max_bytes (max_bytes / 10) (omega arith) hm,
            )
            (inr (
              ground arith,
              Outcome-Swept removes (max_bytes - max_bytes / 10) (chunks fs) found _ perm sorted (
                  evict-Outcome removes (max_bytes - max_bytes / 10) total 0 0 found
                    (omega (arith, bytes_of-Perm found (chunks fs) perm)) (omega arith)),
            ))
    ]
