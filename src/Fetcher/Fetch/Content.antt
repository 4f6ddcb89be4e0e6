-- ===== src/Fetcher/Fetch/Content.antt =====
-- services/fetcher.go, Fetcher.download: the bytes of a chunk that were read in full are the range's.
use s3_cache.Prelude.{
  ℕ, ◌+◌, ◌-◌, ◌≤◌, ◌≡◌, inl, inr, refl, sym, ◌∙◌, List, [], ◌∷◌, ◌++◌, Bool, ok, arith, length,
  take, extract, Bool-cases, ltb, length-append, length-extract, take_all, append-nil,
}
use s3_cache.Prelude.Int.{pos}
use s3_cache.Prelude.Assoc.{Key}
use s3_cache.Fetcher.Get.{ObjVersion}
use s3_cache.Fetcher.Fetch.{Body, Store, open_range, read_body}

-- The store answers a range request for this version of the key by a prefix of the range (a body may
-- be cut short), or by an error.
abbrev pub IsRangeOf : List ℕ → Store → Key → ObjVersion → ℕ → ℕ → Type 0
IsRangeOf object store key v s n =
    (body : Body)
    → open_range store key v.etag (pos s) (pos (s + n - 1)) ≡ ok body
    → (rest : List ℕ) × (body.bytes ++ rest ≡ extract object s n)

no_rest : (xs rest : List ℕ) → length (xs ++ rest) ≤ length xs → rest ≡ []
no_rest xs [] h = refl
no_rest xs (x ∷ rest) h = absurd (omega (arith, length-append xs (x ∷ rest)))

take_prefix :
    (n : ℕ) (xs rest ys : List ℕ) → xs ++ rest ≡ ys → length ys ≤ n → n ≤ length xs → take n xs ≡ ys
take_prefix n xs rest ys e h k =
    let none_left : rest ≡ [] = no_rest xs rest (rw e (omega arith)) in
    let whole : xs ≡ ys = sym (append-nil xs) ∙ rw none_left at e in rw whole (take_all n ys h)

pub read_body_lem :
    (object : List ℕ) (s n : ℕ) (expired : Bool) (body : Body) (rest bytes : List ℕ)
    → s + n ≤ length object
    → body.bytes ++ rest ≡ extract object s n
    → read_body expired n body ≡ ok bytes
    → bytes ≡ extract object s n
unfolding read_body
read_body_lem object s n expired body rest bytes h e p =
    let len : length (extract object s n) ≡ n = length-extract object s n h in
    elim (Bool-cases (ltb (length body.bytes) n)) [
      | inl short ↦ elim (Bool-cases expired) [
        | inl x ↦ absurd (ground arith)
        | inr x ↦ absurd (ground arith)
      ]
      | inr full ↦
          let whole : take n body.bytes ≡ extract object s n =
            take_prefix n body.bytes rest (extract object s n) e (omega (arith, len))
              (ground arith) in
          ground (arith, whole)
    ]
