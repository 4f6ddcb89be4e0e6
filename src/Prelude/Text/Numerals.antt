-- ===== src/Prelude/Text/Numerals.antt =====
-- strconv.ParseInt(s, 10, 64) and strconv.FormatInt(n, 10).
use Prim.Native.Nat.{ℕ, zero, suc, ◌+◌, ◌-◌, ◌*◌, ◌/◌, ◌%◌, ◌^◌, ◌≤◌, ◌<◌}
use mathlib.Core.Path.{◌≡◌, refl, ◌∙◌}
use mathlib.Core.Logic.{◌≢◌, ◌⊎◌, inl, inr}
use mathlib.Core.Bool.{Bool, true, false, not, ◌&&◌}
use mathlib.Core.List.{List, [], ◌∷◌}
use native.Mathlib.Nat.{pow-suc}
use native.Mathlib.Omega.{arith}
use s3_cache.Prelude.Int.{ℤ, pos, negsuc, sub_ℕ, ◌≤ℤ◌, int64_max}
use s3_cache.Prelude.Results.{Result, ok, err, Result-cases}
use s3_cache.Prelude.Tests.{ltb, leb, ◌==◌, if◌then◌else◌, Bool-cases}

pub data NumError : Type 0 where
  syntax range : NumError

abbrev is_digit : ℕ → Bool
is_digit c = leb b'0' c && leb c b'9'

-- The loop of ParseUint; a product or sum past 2^64 - 1 is out of range.
unfoldable pub parse_digits : List ℕ → ℕ → Result NumError ℕ
parse_digits [] n = ok n
parse_digits (c ∷ cs) n =
    if not (is_digit c)
    then err syntax
    else if ltb (2 ^ 64 - 1) (n * 10 + (c - b'0'))
    then err range
    else parse_digits cs (n * 10 + (c - b'0'))

unfoldable pub parse_uint : List ℕ → Result NumError ℕ
unfolding parse_digits
parse_uint [] = err syntax
parse_uint (c ∷ cs) = parse_digits (c ∷ cs) 0

-- ParseInt after its sign.
unfoldable pub with_sign : Bool → ℕ → Result NumError ℤ
with_sign false n = if leb (2 ^ 63) n then err range else ok (pos n)
with_sign true n = if ltb (2 ^ 63) n then err range else ok (sub_ℕ 0 n)

unfoldable pub parse_signed : Bool → List ℕ → Result NumError ℤ
unfolding parse_uint with_sign
parse_signed neg cs = elim (parse_uint cs) [ ok n ↦ with_sign neg n | err e ↦ err e ]

unfoldable pub parse_int : List ℕ → Result NumError ℤ
unfolding parse_signed
parse_int [] = err syntax
parse_int (c ∷ cs) =
    if c == b'+'
    then parse_signed false cs
    else if c == b'-'
    then parse_signed true cs
    else parse_signed false (c ∷ cs)

-- Decimal digits, the last one first found; 20 rounds are enough for 64 bits.
unfoldable pub digits : ℕ → ℕ → List ℕ → List ℕ
digits zero n acc = acc
digits (suc f) n acc =
    let rest = digits f (n / 10) ((b'0' + n % 10) ∷ acc) in if n == 0 then acc else rest

unfoldable pub format_uint : ℕ → List ℕ
unfolding digits
format_uint n = if n == 0 then b'0' ∷ [] else digits 20 n []

unfoldable pub format_int : ℤ → List ℕ
unfolding format_uint
format_int (pos n) = format_uint n
format_int (negsuc n) = b'-' ∷ format_uint (suc n)

parse-digits :
    (f n : ℕ) (acc : List ℕ)
    → n < 10 ^ f
    → n < 2 ^ 64
    → parse_digits (digits f n acc) 0 ≡ parse_digits acc n
unfolding parse_digits digits
parse-digits zero n acc h k = let e : n ≡ 0 = omega arith in rw e refl
parse-digits (suc f) n acc h k =
    ground (arith, pow-suc 10 f, parse-digits f (n / 10) ((b'0' + n % 10) ∷ acc))

abbrev pub AllDigits : List ℕ → Type 0
AllDigits [] = Unit {0}
AllDigits (c ∷ s) = (b'0' ≤ c) × (c ≤ b'9') × AllDigits s

digits-AllDigits : (f n : ℕ) (acc : List ℕ) → AllDigits acc → AllDigits (digits f n acc)
unfolding digits
digits-AllDigits zero n acc h = h
digits-AllDigits (suc f) n acc h =
    ground (arith, digits-AllDigits f (n / 10) ((b'0' + n % 10) ∷ acc))

digits-ne-nil : (f n d : ℕ) (acc : List ℕ) → digits f n (d ∷ acc) ≢ []
unfolding digits
digits-ne-nil zero n d acc = λ e. cc
digits-ne-nil (suc f) n d acc = ground (arith, digits-ne-nil f (n / 10) (b'0' + n % 10) (d ∷ acc))

pub format_uint-AllDigits : (n : ℕ) → AllDigits (format_uint n)
unfolding format_uint
format_uint-AllDigits n = ground (arith, digits-AllDigits 20 n [])

pub format_uint-ne-nil : (n : ℕ) → format_uint n ≢ []
unfolding format_uint digits
format_uint-ne-nil n = ground (arith, digits-ne-nil 19 (n / 10) (b'0' + n % 10) [])

parse_uint_eq : (s : List ℕ) → s ≢ [] → parse_uint s ≡ parse_digits s 0
unfolding parse_uint
parse_uint_eq [] h = absurd (h refl)
parse_uint_eq (c ∷ s) h = refl

parse_int_eq : (s : List ℕ) → s ≢ [] → AllDigits s → parse_int s ≡ parse_signed false s
unfolding parse_int
parse_int_eq [] h d = absurd (h refl)
parse_int_eq (c ∷ s) h d = ground arith

pub parse_uint-format_uint : (n : ℕ) → n < 2 ^ 64 → parse_uint (format_uint n) ≡ ok n
unfolding format_uint parse_digits
parse_uint-format_uint n h =
    parse_uint_eq (format_uint n) (format_uint-ne-nil n) ∙ ground (arith, parse-digits 20 n [])

parse_signed-format_uint :
    (neg : Bool) (n : ℕ) → n < 2 ^ 64 → parse_signed neg (format_uint n) ≡ with_sign neg n
unfolding parse_signed
parse_signed-format_uint neg n h = rw (parse_signed, parse_uint-format_uint n h) refl

-- Reading back what FormatInt prints, for every int64.
pub parse_int-format_int :
    (z : ℤ) → negsuc int64_max ≤ℤ z → z ≤ℤ pos int64_max → parse_int (format_int z) ≡ ok z
unfolding format_int with_sign
parse_int-format_int (pos n) lo hi =
    parse_int_eq (format_uint n) (format_uint-ne-nil n) (format_uint-AllDigits n)
    ∙ parse_signed-format_uint false n (omega arith)
    ∙ ground arith
parse_int-format_int (negsuc n) lo hi =
    minus (format_uint (suc n)) ∙ parse_signed-format_uint true (suc n) (omega arith) ∙ ground arith
  where
    minus : (s : List ℕ) → parse_int (b'-' ∷ s) ≡ parse_signed true s
    minus s = unfold parse_int in refl

with_sign_pos : (n : ℕ) (z : ℤ) → with_sign false n ≡ ok z → (z ≡ pos n) × (n < 2 ^ 63)
unfolding with_sign
with_sign_pos n z h = ground arith

parse_signed_pos :
    (s : List ℕ) (z : ℤ) → parse_signed false s ≡ ok z → (n : ℕ) × (z ≡ pos n) × (n < 2 ^ 63)
unfolding parse_signed
parse_signed_pos s z h = elim (Result-cases (parse_uint s)) [
  | inl (n, e) ↦ let (p, q) = with_sign_pos n z (rw (parse_signed, e) at h) in (n, p, q)
  | inr (x, e) ↦ absurd (ground arith)
]

-- A number without a minus sign is not negative.
pub parse_int_nonneg :
    (s : List ℕ) (z : ℤ)
    → parse_int s ≡ ok z
    → ((n : ℕ) × (z ≡ pos n) × (n < 2 ^ 63)) ⊎ ((t : List ℕ) × (s ≡ b'-' ∷ t))
unfolding parse_int
parse_int_nonneg [] z h = cc
parse_int_nonneg (c ∷ s) z h = elim (Bool-cases (c == b'-')) [
  | inl e ↦ inr (s, ground arith)
  | inr e ↦ inl (elim (Bool-cases (c == b'+')) [
    | inl p ↦ parse_signed_pos s z (ground arith)
    | inr p ↦ parse_signed_pos (c ∷ s) z (ground arith)
  ])
]

pub parse_int_bounds :
    (s : List ℕ) (z : ℤ) → parse_int s ≡ ok z → (negsuc int64_max ≤ℤ z) × (z ≤ℤ pos int64_max)
unfolding parse_int parse_signed with_sign
parse_int_bounds [] z h = cc
parse_int_bounds (c ∷ s) z h = ground arith
