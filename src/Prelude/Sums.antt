-- ===== src/Prelude/Sums.antt =====
-- Sums over the numbers below a bound, and a search through them.
use Prim.Native.Nat.{ℕ, zero, suc, ◌+◌, ◌≤◌, ◌<◌}
use mathlib.Core.Path.{◌≡◌, refl, subst}
use mathlib.Core.Logic.{inl, inr}
use mathlib.Core.Bool.{Bool, true, false, ◌||◌}
use native.Mathlib.Decide.{dec_lt}
use native.Mathlib.Omega.{arith}
use s3_cache.Prelude.Tests.{◌==◌, if◌then◌else◌, Bool-cases}

module _ {ℓ} {A : Type ℓ} where
  -- The sum of `g (f i)` for i < k.
  abbrev pub sum_of : (A → ℕ) → ℕ → (ℕ → A) → ℕ
  sum_of g zero f = 0
  sum_of g (suc k) f = sum_of g k f + g (f k)

  abbrev changed : (ℕ → A) → ℕ → A → ℕ → A
  changed f i x j = if i == j then x else f j

  pub sum_of_beyond :
      (g : A → ℕ) (k : ℕ) (f : ℕ → A) (i : ℕ) (x : A)
      → k ≤ i
      → sum_of g k (changed f i x) ≡ sum_of g k f
  sum_of_beyond g zero f i x h = refl
  sum_of_beyond g (suc k) f i x h = ground (arith, sum_of_beyond g k f i x)

  pub sum_of_update :
      (g : A → ℕ) (k : ℕ) (f : ℕ → A) (i : ℕ) (x : A)
      → i < k
      → sum_of g k (changed f i x) + g (f i) ≡ sum_of g k f + g x
  sum_of_update g zero f i x h = absurd (omega arith)
  sum_of_update g (suc k) f i x h = ground (arith, sum_of_beyond g k f i x, sum_of_update g k f i x)

  -- A term of a positive sum is positive.
  pub sum_of_pos :
      (g : A → ℕ) (k : ℕ) (f : ℕ → A) → 0 < sum_of g k f → (i : ℕ) × (i < k) × (0 < g (f i))
  sum_of_pos g zero f h = absurd (omega arith)
  sum_of_pos g (suc k) f h = elim (dec_lt 0 (g (f k))) [
    | yes p ↦ (k, omega arith, p)
    | no p ↦ let (i, lt, q) = sum_of_pos g k f (omega arith) in (i, omega arith, q)
  ]

unfoldable pub any : ℕ → (ℕ → Bool) → Bool
any zero p = false
any (suc k) p = p k || any k p

pub any-witness : (k : ℕ) (p : ℕ → Bool) → any k p ≡ true → (i : ℕ) × (i < k) × (p i ≡ true)
unfolding any
any-witness zero p h = absurd (cc)
any-witness (suc k) p h = elim (Bool-cases (p k)) [
  | inl e ↦ (k, omega arith, e)
  | inr e ↦ let (i, lt, q) = any-witness k p (ground (arith, h, e)) in (i, omega arith, q)
]

or_false : (a b : Bool) → (a || b) ≡ false → (a ≡ false) × (b ≡ false)
or_false true b h = absurd (cc)
or_false false b h = (refl, h)

pub any-none : (k : ℕ) (p : ℕ → Bool) → any k p ≡ false → (i : ℕ) → i < k → p i ≡ false
unfolding any
any-none zero p h i lt = absurd (omega arith)
any-none (suc k) p h i lt =
    let (at_k, below) = or_false (p k) (any k p) h in
    elim (dec_lt i k) [
      | yes q ↦ any-none k p below i q
      | no q ↦ subst (λ j. p j ≡ false) (omega arith) at_k
    ]
