-- ===== src/Eviction/Sweep.antt =====
-- What the eviction loop removes, and what is left.
use s3_cache.Prelude.{
  ℕ, ◌+◌, ◌-◌, ◌^◌, ◌<◌, ◌≤◌, ◌≡◌, refl, ap, ◌∙◌, List, [], ◌∷◌, ◌++◌, Bool, true, false, arith,
  ◌⊎◌, inl, inr, Bool-cases, if◌then◌else◌,
}
use s3_cache.Prelude.Int.{pos, leb_ℤ, sub64_pos, add64_pos}
use s3_cache.Eviction.{FileEntry, Evicted, evict}

abbrev pub bytes_of : List FileEntry → ℕ
bytes_of [] = 0
bytes_of (f ∷ fs) = f.size + bytes_of fs

-- The files that can be removed, and those that cannot, in order.
abbrev pub those : Bool → (FileEntry → Bool) → List FileEntry → List FileEntry
those b removes [] = []
those true removes (f ∷ fs) = if removes f then f ∷ those true removes fs else those true removes fs
those false removes (f ∷ fs) =
    if removes f then those false removes fs else f ∷ those false removes fs

-- The outcome of the loop at `total` bytes, for files of `total` bytes in all but for `rest` bytes
-- passed over before.
pub record Outcome (removes : FileEntry → Bool) (target total freed rest : ℕ) (fs : List FileEntry)
    (r : Evicted) : Type 0 where
  pub left : ℕ
  pub kept : List FileEntry
  pub total_left : r.total ≡ pos left
  pub in_front : those true removes fs ≡ r.removed ++ kept
  pub adds_up : left + bytes_of r.removed ≡ total
  pub freed_bytes : r.freed ≡ pos (freed + bytes_of r.removed)
  pub needed :
      (r.removed ≡ [])
      ⊎ ((init : List FileEntry) × (last : FileEntry) × (r.removed ≡ init ++ last ∷ [])
          × (target < left + last.size))
  pub enough : (left ≤ target) ⊎ ((kept ≡ []) × (left ≡ rest + bytes_of (those false removes fs)))

-- One more file was removed in front.
one_more :
    {target : ℕ} {removed : List FileEntry} (left : ℕ) (f : FileEntry)
    → ((removed ≡ [])
        ⊎ ((init : List FileEntry) × (last : FileEntry) × (removed ≡ init ++ last ∷ [])
            × (target < left + last.size)))
    → (removed ≡ [] → target < left + f.size)
    → ((f ∷ removed ≡ [])
        ⊎ ((init : List FileEntry) × (last : FileEntry) × (f ∷ removed ≡ init ++ last ∷ [])
            × (target < left + last.size)))
one_more left f (inl e) h = inr ([], f, ap (◌∷◌ f) e, h e)
one_more left f (inr (init, last, e, k)) h = inr (f ∷ init, last, ap (◌∷◌ f) e, k)

pub evict-Outcome :
    (removes : FileEntry → Bool) (target total freed rest : ℕ) (fs : List FileEntry)
    → total ≡ rest + bytes_of fs
    → freed + total < 2 ^ 63
    → Outcome removes target total freed rest fs
        (evict removes (pos target) (pos total) (pos freed) fs)
unfolding evict
evict-Outcome removes target total freed rest [] h k = record {
  left = total;
  kept = [];
  total_left = refl;
  in_front = refl;
  adds_up = omega arith;
  freed_bytes = ap pos (omega arith);
  needed = inl refl;
  enough = inr (refl, h);
}
evict-Outcome removes target total freed rest (f ∷ fs) h k =
    elim (Bool-cases (leb_ℤ (pos total) (pos target))) [
      | inl e ↦
          rw (evict, e)
            (record {
              left = total;
              kept = those true removes (f ∷ fs);
              total_left = refl;
              in_front = refl;
              adds_up = omega arith;
              freed_bytes = ap pos (omega arith);
              needed = inl refl;
              enough = inl (ground arith);
            })
      | inr e ↦ elim (Bool-cases (removes f)) [
        | inl y ↦
            let g =
              evict-Outcome removes target (total - f.size) (freed + f.size) rest fs (omega arith)
                (omega arith) in
            rw
              (
                evict,
                e,
                y,
                sub64_pos total f.size (omega arith) (omega arith),
                add64_pos freed f.size (omega arith),
              )
              (record {
                left = g.left;
                kept = g.kept;
                total_left = g.total_left;
                in_front = rw y (ap (◌∷◌ f) g.in_front);
                adds_up = omega (arith, g.adds_up);
                freed_bytes = g.freed_bytes ∙ ap pos (omega arith);
                needed = one_more g.left f g.needed (ground (arith, g.adds_up));
                enough = rw y g.enough;
              })
        | inr n ↦
            let g = evict-Outcome removes target total freed (rest + f.size) fs (omega arith) k in
            rw (evict, e, n)
              (record {
                left = g.left;
                kept = g.kept;
                total_left = g.total_left;
                in_front = rw n g.in_front;
                adds_up = g.adds_up;
                freed_bytes = g.freed_bytes;
                needed = g.needed;
                enough = rw n (elim g.enough [ inl x ↦ inl x | inr (x, y) ↦ inr (x, omega arith) ]);
              })
      ]
    ]
