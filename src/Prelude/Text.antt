-- ===== src/Prelude/Text.antt =====
-- Go strings as lists of bytes, with what the program uses of the packages strings and strconv.
mod Numerals
unfoldable pub use Numerals.*
use Prim.Native.Char.{code}
use Prim.Native.String.{String}
use Prim.Native.Nat.{ℕ}
use mathlib.Core.Path.{◌≡◌, refl, ap}
use mathlib.Core.Logic.{◌≢◌, inl, inr}
use mathlib.Core.Bool.{Bool, true, false, ◌&&◌, ◌||◌}
use mathlib.Core.Option.{Option, none, some}
use mathlib.Core.List.{List, [], ◌∷◌, ◌++◌}
use native.Mathlib.Omega.{arith}
use s3_cache.Prelude.Tests.{◌==◌, if◌then◌else◌, Bool-cases, Option-cases}

-- A literal; each one below is ASCII.
abbrev pub codes : String → List ℕ
codes String.[] = []
codes (String.◌∷◌ c s) = code c ∷ codes s

-- strings.HasPrefix(s, p)
unfoldable pub has_prefix : List ℕ → List ℕ → Bool
has_prefix s [] = true
has_prefix [] (p ∷ ps) = false
has_prefix (c ∷ s) (p ∷ ps) = c == p && has_prefix s ps

-- What is left of `s` behind as many bytes as `p` has.
unfoldable pub skip : List ℕ → List ℕ → List ℕ
skip s [] = s
skip [] (p ∷ ps) = []
skip (c ∷ s) (p ∷ ps) = skip s ps

-- strings.TrimPrefix(s, p)
unfoldable pub trim_prefix : List ℕ → List ℕ → List ℕ
unfolding has_prefix skip
trim_prefix s p = if has_prefix s p then skip s p else s

-- strings.Contains(s, p)
unfoldable pub contains : List ℕ → List ℕ → Bool
unfolding has_prefix
contains [] p = has_prefix [] p
contains (c ∷ s) p = has_prefix (c ∷ s) p || contains s p

-- strings.SplitN(s, sep, 2) with a separator of one byte: `none` for a single part.
unfoldable pub cut : ℕ → List ℕ → Option (List ℕ × List ℕ)
cut sep [] = none
cut sep (c ∷ s) =
    if c == sep
    then some ([], s)
    else elim (cut sep s) [ none ↦ none | some (a, b) ↦ some (c ∷ a, b) ]

pub has_prefix-append : (p s : List ℕ) → has_prefix (p ++ s) p ≡ true
unfolding has_prefix
has_prefix-append [] s = refl
has_prefix-append (c ∷ p) s = ground (arith, has_prefix-append p s)

pub trim_prefix-append : (p s : List ℕ) → trim_prefix (p ++ s) p ≡ s
unfolding trim_prefix
trim_prefix-append p s = rw (has_prefix-append p s) (skip-append p s)
  where
    skip-append : (p s : List ℕ) → skip (p ++ s) p ≡ s
    skip-append [] s = refl
    skip-append (c ∷ p) s = skip-append p s

-- No byte of the list is `c`.
abbrev pub Lacks : ℕ → List ℕ → Type 0
Lacks c [] = Unit {0}
Lacks c (d ∷ s) = (d ≢ c) × Lacks c s

pub Lacks-append : (c : ℕ) (s t : List ℕ) → Lacks c s → Lacks c t → Lacks c (s ++ t)
Lacks-append c [] t hs ht = ht
Lacks-append c (d ∷ s) t hs ht = (hs.0, Lacks-append c s t hs.1 ht)

pub contains-Lacks : (c : ℕ) (s : List ℕ) → Lacks c s → contains s (c ∷ []) ≡ false
unfolding contains
contains-Lacks c [] h = refl
contains-Lacks c (d ∷ s) h = ground (arith, contains-Lacks c s h.1)

pub cut-append : (c : ℕ) (s t : List ℕ) → Lacks c s → cut c (s ++ c ∷ t) ≡ some (s, t)
unfolding cut
cut-append c [] t h = ground arith
cut-append c (d ∷ s) t h = ground (arith, cut-append c s t h.1)

-- A cut takes the list apart at its first separator.
pub cut-Lacks : (c : ℕ) (s a b : List ℕ) → cut c s ≡ some (a, b) → Lacks c a × (s ≡ a ++ c ∷ b)
unfolding cut
cut-Lacks c [] a b h = cc
cut-Lacks c (d ∷ s) a b h = elim (Bool-cases (d == c)) [
  | inl e ↦
      let ea : a ≡ [] = ground arith in
      let eb : b ≡ s = ground arith in rw (ea, eb) (tt, ground arith)
  | inr e ↦ elim (Option-cases (cut c s)) [
    | inl n ↦ absurd (ground arith)
    | inr (p, q) ↦
        let ea : a ≡ d ∷ p.0 = ground arith in
        let eb : b ≡ p.1 = ground arith in
        let (l, m) = cut-Lacks c s p.0 p.1 (ground arith) in
        rw (ea, eb) ((ground arith, l), ap (◌∷◌ d) m)
  ]
]
