-- ===== src/Web/Range/Forms.antt =====
-- The three forms of a byte range, as text and as values, and parse_range between them.
use s3_cache.Prelude.{
  ℕ, ◌^◌, ◌≤◌, ◌<◌, ◌≡◌, ◌≢◌, refl, ◌∙◌, inl, inr, List, [], ◌∷◌, ◌++◌, ok, err, arith,
  Option-cases, Result-cases, if◌then◌else◌,
}
use s3_cache.Prelude.Int.{ℤ, pos, negsuc, minus_one, int64_max, ltb_ℤ, ◌≤ℤ◌}
use s3_cache.Prelude.Text.{
  codes, trim_prefix, cut, parse_int, format_uint, format_int, parse_int-format_int,
  parse_int_nonneg, parse_int_bounds, cut-Lacks, cut-append, Lacks, Lacks-append, contains-Lacks,
  has_prefix-append, trim_prefix-append, format_uint-ne-nil, AllDigits, format_uint-AllDigits,
}
use s3_cache.Web.Range.{
  Range, bad_suffix, end_before_start, parse_range, parse_spec, parse_parts, parse_suffix,
  parse_end,
}

-- "bytes=s-", "bytes=s-e" and "bytes=-n".
pub data Form : Type 0 where
  from : ℕ → Form
  between : ℕ → ℕ → Form
  last : ℕ → Form

abbrev spec : Form → List ℕ
spec (from s) = format_uint s ++ b'-' ∷ []
spec (between s e) = format_uint s ++ b'-' ∷ format_uint e
spec (last n) = b'-' ∷ format_uint n

abbrev pub print : Form → List ℕ
print f = codes "bytes=" ++ spec f

-- What the values of `Range` are to be for each form.
abbrev pub meaning : Form → Range
meaning (from s) = record { start = pos s; end = minus_one; suffix_len = pos 0 }
meaning (between s e) = record { start = pos s; end = pos e; suffix_len = pos 0 }
meaning (last n) = record { start = pos 0; end = minus_one; suffix_len = pos n }

-- The numbers fit an int64, the span is not reversed, and the suffix is not empty.
abbrev pub IsProper : Form → Type 0
IsProper (from s) = s < 2 ^ 63
IsProper (between s e) = (s ≤ e) × (e < 2 ^ 63)
IsProper (last n) = (0 < n) × (n < 2 ^ 63)

AllDigits-Lacks : (c : ℕ) (s : List ℕ) → c < b'0' → AllDigits s → Lacks c s
AllDigits-Lacks c [] h d = tt
AllDigits-Lacks c (x ∷ s) h d = (omega arith, AllDigits-Lacks c s h d.2)

format_uint-Lacks : (c n : ℕ) → c < b'0' → Lacks c (format_uint n)
format_uint-Lacks c n h = AllDigits-Lacks c (format_uint n) h (format_uint-AllDigits n)

spec-Lacks_comma : (f : Form) → Lacks b',' (spec f)
spec-Lacks_comma (from s) =
    Lacks-append b',' (format_uint s) _ (format_uint-Lacks b',' s (omega arith)) (omega arith, tt)
spec-Lacks_comma (between s e) =
    Lacks-append b',' (format_uint s) _ (format_uint-Lacks b',' s (omega arith))
      (omega arith, format_uint-Lacks b',' e (omega arith))
spec-Lacks_comma (last n) = (omega arith, format_uint-Lacks b',' n (omega arith))

parse_range_spec : (s : List ℕ) → parse_range (codes "bytes=" ++ s) ≡ parse_spec s
unfolding parse_range
parse_range_spec s =
    rw (has_prefix-append (codes "bytes=") s, trim_prefix-append (codes "bytes=") s) refl

parse_spec_parts :
    (a b : List ℕ)
    → Lacks b',' (a ++ b'-' ∷ b)
    → Lacks b'-' a
    → parse_spec (a ++ b'-' ∷ b) ≡ parse_parts a b
unfolding parse_spec
parse_spec_parts a b h k =
    rw (parse_spec, contains-Lacks b',' (a ++ b'-' ∷ b) h, cut-append b'-' a b k) refl

parse_int_uint : (n : ℕ) → n < 2 ^ 63 → parse_int (format_uint n) ≡ ok (pos n)
unfolding format_int
parse_int_uint n h = parse_int-format_int (pos n) (omega arith) (omega arith)

parse_parts_eq :
    (a b : List ℕ) {z : ℤ} → a ≢ [] → parse_int a ≡ ok z → parse_parts a b ≡ parse_end z b
unfolding parse_parts
parse_parts_eq [] b h e = absurd (h refl)
parse_parts_eq (c ∷ a) b h e = rw e refl

parse_end_eq :
    (z : ℤ) (b : List ℕ) {e : ℕ}
    → b ≢ []
    → parse_int b ≡ ok (pos e)
    → parse_end z b ≡ (
        if ltb_ℤ (pos e) z
        then err end_before_start
        else ok (record { start = z; end = pos e; suffix_len = pos 0 }))
unfolding parse_end
parse_end_eq z [] h p = absurd (h refl)
parse_end_eq z (c ∷ b) h p = rw p refl

parse_printed :
    (f : Form) (a b : List ℕ)
    → spec f ≡ a ++ b'-' ∷ b
    → Lacks b'-' a
    → parse_range (print f) ≡ parse_parts a b
parse_printed f a b e k =
    parse_range_spec (spec f) ∙ rw e (parse_spec_parts a b (rw e at (spec-Lacks_comma f)) k)

-- Every proper form is read back as what it means.
pub parse_range-print : (f : Form) → IsProper f → parse_range (print f) ≡ ok (meaning f)
unfolding parse_end parse_parts parse_suffix
parse_range-print (from s) h =
    parse_printed (from s) (format_uint s) [] refl (format_uint-Lacks b'-' s (omega arith))
    ∙ parse_parts_eq (format_uint s) [] (format_uint-ne-nil s) (parse_int_uint s h)
parse_range-print (between s e) h =
    parse_printed (between s e) (format_uint s) (format_uint e) refl
      (format_uint-Lacks b'-' s (omega arith))
    ∙ parse_parts_eq (format_uint s) (format_uint e) (format_uint-ne-nil s)
        (parse_int_uint s (omega arith))
    ∙ parse_end_eq (pos s) (format_uint e) (format_uint-ne-nil e) (parse_int_uint e h.1)
    ∙ ground arith
parse_range-print (last n) h =
    parse_printed (last n) [] (format_uint n) refl tt ∙ rw (parse_int_uint n h.1) (ground arith)

-- A span whose end is before its start is refused as such.
pub parse_range_reversed :
    (s e : ℕ) → s < 2 ^ 63 → e < s → parse_range (print (between s e)) ≡ err end_before_start
unfolding parse_end parse_parts
parse_range_reversed s e h k =
    parse_printed (between s e) (format_uint s) (format_uint e) refl
      (format_uint-Lacks b'-' s (omega arith))
    ∙ parse_parts_eq (format_uint s) (format_uint e) (format_uint-ne-nil s) (parse_int_uint s h)
    ∙ parse_end_eq (pos s) (format_uint e) (format_uint-ne-nil e) (parse_int_uint e (omega arith))
    ∙ ground arith

-- The empty suffix is refused.
parse_range_empty_suffix : parse_range (print (last 0)) ≡ err bad_suffix
unfolding parse_parts parse_suffix
parse_range_empty_suffix =
    parse_printed (last 0) [] (format_uint 0) refl tt ∙ rw (parse_int_uint 0 (omega arith)) refl

-- What an accepted header means: no range at all, or a proper form.
pub data Accepted (h : List ℕ) (r : Range) : Type 0 where
  whole : h ≡ [] → r ≡ meaning (from 0) → Accepted h r
  form : (f : Form) → IsProper f → r ≡ meaning f → Accepted h r

suffix_form :
    (h b : List ℕ) (z : ℤ) (r : Range)
    → parse_int b ≡ ok z
    → z ≤ℤ pos int64_max
    → parse_suffix b ≡ ok r
    → Accepted h r
unfolding parse_suffix
suffix_form h b (pos n) r p k e = form (last n) (ground arith) (ground arith)
suffix_form h b (negsuc n) r p k e = absurd (ground arith)

parse_suffix-Accepted : (h b : List ℕ) (r : Range) → parse_suffix b ≡ ok r → Accepted h r
unfolding parse_suffix
parse_suffix-Accepted h b r e = elim (Result-cases (parse_int b)) [
  | inl (z, p) ↦ suffix_form h b z r p (parse_int_bounds b z p).1 e
  | inr (x, p) ↦ absurd (ground arith)
]

parse_end-Accepted :
    (h b : List ℕ) (s : ℕ) (r : Range) → s < 2 ^ 63 → parse_end (pos s) b ≡ ok r → Accepted h r
unfolding parse_end
parse_end-Accepted h [] s r k e = form (from s) k (ground arith)
parse_end-Accepted h (c ∷ b) s r k e = elim (Result-cases (parse_int (c ∷ b))) [
  | inl (pos n, p) ↦
      form (between s n) (ground (arith, parse_int_bounds (c ∷ b) (pos n) p)) (ground arith)
  | inl (negsuc n, p) ↦ absurd (ground arith)
  | inr (x, p) ↦ absurd (ground arith)
]

parse_parts-Accepted :
    (h a b : List ℕ) (r : Range) → Lacks b'-' a → parse_parts a b ≡ ok r → Accepted h r
unfolding parse_parts
parse_parts-Accepted h [] b r l e = parse_suffix-Accepted h b r e
parse_parts-Accepted h (c ∷ a) b r l e = elim (Result-cases (parse_int (c ∷ a))) [
  | inl (z, p) ↦ elim (parse_int_nonneg (c ∷ a) z p) [
    | inl (n, q, k) ↦ parse_end-Accepted h b n r k (rw (p, q) at e)
    | inr (t, q) ↦ absurd (l.0 (cc))
  ]
  | inr (x, p) ↦ absurd (ground arith)
]

-- Every header that is accepted means one of the forms, with numbers that an int64 holds.
pub parse_range-Accepted : (h : List ℕ) (r : Range) → parse_range h ≡ ok r → Accepted h r
unfolding parse_range parse_spec
parse_range-Accepted [] r e = whole refl (ground arith)
parse_range-Accepted (c ∷ h) r e =
    let spec : List ℕ = trim_prefix (c ∷ h) (codes "bytes=") in
    elim (Option-cases (cut b'-' spec)) [
      | inl n ↦ absurd (ground arith)
      | inr (p, q) ↦
          parse_parts-Accepted (c ∷ h) p.0 p.1 r (cut-Lacks b'-' spec p.0 p.1 q).0 (ground arith)
    ]
