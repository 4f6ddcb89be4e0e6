-- ===== src/Prelude/Lists.antt =====
-- Lists measured and indexed by native numbers, under the library's names.
use Prim.Native.Nat.{ℕ, zero, suc, ◌+◌, ◌-◌, ◌≤◌, min}
use Prim.Native.Nat.add
use mathlib.Core.Path.{◌≡◌, refl, ap}
use mathlib.Core.List.{List, [], ◌∷◌, ◌++◌}
use native.Mathlib.Decide.{dec_lt}
use native.Mathlib.Omega.{arith}

module _ {ℓ} {A : Type ℓ} where
  abbrev pub length : List A → ℕ
  length [] = 0
  length (x ∷ xs) = suc (length xs)

  abbrev pub take : ℕ → List A → List A
  take zero xs = []
  take (suc n) [] = []
  take (suc n) (x ∷ xs) = x ∷ take n xs

  abbrev pub drop : ℕ → List A → List A
  drop zero xs = xs
  drop (suc n) [] = []
  drop (suc n) (x ∷ xs) = drop n xs

  pub length-append : (xs ys : List A) → length (xs ++ ys) ≡ length xs + length ys
  length-append [] ys = omega arith
  length-append (x ∷ xs) ys = omega (arith, length-append xs ys)

module _ {ℓ} {A : Type ℓ} where
  pub length-take : (n : ℕ) (xs : List A) → length (take n xs) ≡ min n (length xs)
  length-take zero xs = omega arith
  length-take (suc n) [] = omega arith
  length-take (suc n) (x ∷ xs) = omega (arith, length-take n xs)

  pub length-drop : (n : ℕ) (xs : List A) → length (drop n xs) ≡ length xs - n
  length-drop zero xs = omega arith
  length-drop (suc n) [] = omega arith
  length-drop (suc n) (x ∷ xs) = omega (arith, length-drop n xs)

  pub take-append-drop : (n : ℕ) (xs : List A) → take n xs ++ drop n xs ≡ xs
  take-append-drop zero xs = refl
  take-append-drop (suc n) [] = refl
  take-append-drop (suc n) (x ∷ xs) = rw (take-append-drop n xs)

  -- The piece [lo, lo + n) of a list.
  abbrev pub extract : List A → ℕ → ℕ → List A
  extract xs lo n = take n (drop lo xs)

  pub drop_nil : (n : ℕ) → drop {A = A} n [] ≡ []
  drop_nil zero = refl
  drop_nil (suc n) = refl

  pub take_nil : (n : ℕ) → take {A = A} n [] ≡ []
  take_nil zero = refl
  take_nil (suc n) = refl

  pub drop-drop : (m n : ℕ) (xs : List A) → drop m (drop n xs) ≡ drop (n + m) xs
  drop-drop m zero xs = rw add.zero refl
  drop-drop m (suc n) [] = rw (drop_nil m, drop_nil (suc n + m)) refl
  drop-drop m (suc n) (x ∷ xs) = rw add.suc (drop-drop m n xs)

  pub take-add : (m n : ℕ) (xs : List A) → take (m + n) xs ≡ take m xs ++ take n (drop m xs)
  take-add zero n xs = rw add.zero refl
  take-add (suc m) n [] = rw (take_nil n, take_nil (suc m + n)) refl
  take-add (suc m) n (x ∷ xs) = rw add.suc (ap (◌∷◌ x) (take-add m n xs))

  -- Two neighbouring pieces are one piece.
  pub extract-append :
      (xs : List A) (lo m n : ℕ) → extract xs lo m ++ extract xs (lo + m) n ≡ extract xs lo (m + n)
  extract-append xs lo m n = rw (take-add m n (drop lo xs), drop-drop m lo xs) refl

  -- A piece of a piece is a piece, where it fits.
  pub take-take : (m n : ℕ) (xs : List A) → m ≤ n → take m (take n xs) ≡ take m xs
  take-take zero n xs h = refl
  take-take (suc m) zero xs h = elim h [ ]
  take-take (suc m) (suc n) [] h = refl
  take-take (suc m) (suc n) (x ∷ xs) h = ap (◌∷◌ x) (take-take m n xs (omega arith))

  pub drop-take : (m n : ℕ) (xs : List A) → drop m (take (m + n) xs) ≡ take n (drop m xs)
  drop-take zero n xs = rw add.zero refl
  drop-take (suc m) n [] = rw (take_nil n, take_nil (suc m + n)) refl
  drop-take (suc m) n (x ∷ xs) = rw add.suc (drop-take m n xs)

  pub extract-extract :
      (xs : List A) (lo n i k : ℕ)
      → i + k ≤ n
      → extract (extract xs lo n) i k ≡ extract xs (lo + i) k
  extract-extract xs lo n i k h =
      rw (e, drop-take i (n - i) (drop lo xs), drop-drop i lo xs)
        (take-take k (n - i) (drop (lo + i) xs) (omega arith))
    where
      e : n ≡ i + (n - i)
      e = omega arith

  pub take_all : (m : ℕ) (xs : List A) → length xs ≤ m → take m xs ≡ xs
  take_all zero [] h = refl
  take_all zero (x ∷ xs) h = absurd (omega arith)
  take_all (suc m) [] h = refl
  take_all (suc m) (x ∷ xs) h = ap (◌∷◌ x) (take_all m xs (omega arith))

  pub length-extract : (xs : List A) (lo n : ℕ) → lo + n ≤ length xs → length (extract xs lo n) ≡ n
  length-extract xs lo n h = omega (arith, length-take n (drop lo xs), length-drop lo xs)

  pub extract_all : (xs : List A) → extract xs 0 (length xs) ≡ xs
  extract_all [] = refl
  extract_all (x ∷ xs) = ap (◌∷◌ x) (extract_all xs)

  pub take-extract :
      (xs : List A) (room lo n : ℕ) → take room (extract xs lo n) ≡ extract xs lo (min room n)
  take-extract xs room lo n = elim (dec_lt n room) [
    | yes h ↦
        let e : min room n ≡ n = omega arith in
        rw (e, take_all room (extract xs lo n) (omega (arith, length-take n (drop lo xs)))) refl
    | no h ↦
        let e : min room n ≡ room = omega arith in
        rw e (take-take room n (drop lo xs) (omega arith))
  ]
