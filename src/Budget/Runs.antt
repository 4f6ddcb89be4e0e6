-- ===== src/Budget/Runs.antt =====
-- The budget over any interleaving of its callers.
use s3_cache.Prelude.{ℕ, ◌+◌, ◌*◌, ◌≤◌, ◌≡◌, List, [], ◌∷◌, ◌++◌, true, false, arith, length, ◌⊎◌}
use s3_cache.Prelude.Int.{pos}
use s3_cache.Budget.{ChunkBudget, new_chunk_budget, acquire, give_up, alloc, release}

-- A run with the ledger of the units that are held: the bytes allocated under each, 0 before the
-- allocation. A buffer has at most `chunk` bytes, and is released with the bytes it was given.
pub data Run (units chunk : ℕ) : ChunkBudget → List ℕ → Type 0 where
  start : Run units chunk (new_chunk_budget units) []
  acquires :
      {b : ChunkBudget} {l : List ℕ} (id : ℕ)
      → (acquire id b).1 ≡ true
      → Run units chunk b l
      → Run units chunk (acquire id b).0 (0 ∷ l)
  waits :
      {b : ChunkBudget} {l : List ℕ} (id : ℕ)
      → (acquire id b).1 ≡ false
      → Run units chunk b l
      → Run units chunk (acquire id b).0 l
  gives_up :
      {b : ChunkBudget} {l : List ℕ} (id : ℕ)
      → Run units chunk b l
      → Run units chunk (give_up id b) l
  allocs :
      {b : ChunkBudget} (xs ys : List ℕ) (n : ℕ)
      → n ≤ chunk
      → Run units chunk b (xs ++ 0 ∷ ys)
      → Run units chunk (alloc (pos n) b) (xs ++ n ∷ ys)
  releases :
      {b : ChunkBudget} (xs ys : List ℕ) (n : ℕ)
      → b.queue ≡ []
      → Run units chunk b (xs ++ n ∷ ys)
      → Run units chunk (release (pos n) b).0 (xs ++ ys)
  hands_over :
      {b : ChunkBudget} (xs ys : List ℕ) (n : ℕ) {id : ℕ} {rest : List ℕ}
      → b.queue ≡ id ∷ rest
      → Run units chunk b (xs ++ n ∷ ys)
      → Run units chunk (release (pos n) b).0 (0 ∷ (xs ++ ys))

abbrev pub sum : List ℕ → ℕ
sum [] = 0
sum (n ∷ l) = n + sum l

pub sum-append : (xs ys : List ℕ) → sum (xs ++ ys) ≡ sum xs + sum ys
sum-append [] ys = omega arith
sum-append (n ∷ xs) ys = omega (arith, sum-append xs ys)

abbrev pub AllLe : ℕ → List ℕ → Type 0
AllLe c [] = Unit {0}
AllLe c (n ∷ l) = (n ≤ c) × AllLe c l

pub AllLe-parts : (c n : ℕ) (xs ys : List ℕ) → AllLe c (xs ++ n ∷ ys) → AllLe c (xs ++ ys) × (n ≤ c)
AllLe-parts c n [] ys h = (h.1, h.0)
AllLe-parts c n (x ∷ xs) ys h = let (r, k) = AllLe-parts c n xs ys h.1 in ((h.0, r), k)

pub AllLe-put :
    (c m n : ℕ) (xs ys : List ℕ) → AllLe c (xs ++ m ∷ ys) → n ≤ c → AllLe c (xs ++ n ∷ ys)
AllLe-put c m n [] ys h k = (k, h.1)
AllLe-put c m n (x ∷ xs) ys h k = (h.0, AllLe-put c m n xs ys h.1 k)

sum-le : (c : ℕ) (l : List ℕ) → AllLe c l → sum l ≤ length l * c
sum-le c [] h = omega arith
sum-le c (n ∷ l) h = omega (arith, sum-le c l h.1)

pub record Inv (units chunk : ℕ) (b : ChunkBudget) (l : List ℕ) : Type 0 where
  pub same_capacity : b.capacity ≡ units
  pub counted : b.taken ≡ length l
  pub bounded : b.taken ≤ units
  pub busy : (b.queue ≡ []) ⊎ (b.taken ≡ units)
  pub small : AllLe chunk l
  pub exact : b.in_use ≡ pos (sum l)
  pub peaked : (p : ℕ) × (b.peak ≡ pos p) × (sum l ≤ p) × (p ≤ units * chunk)

pub sum_total :
    (units chunk : ℕ) (l : List ℕ) → AllLe chunk l → length l ≤ units → sum l ≤ units * chunk
sum_total units chunk l h k = grind (arith, sum-le chunk l h)
