-- ===== src/Cache/Names/Distinct.antt =====
-- Chunks of different keys, versions or offsets lie at different paths, and so do their flights.
use s3_cache.Prelude.{
  ℕ, zero, suc, ◌^◌, ◌<◌, ◌≡◌, ◌⊎◌, refl, sym, ap, ◌∙◌, inl, inr, List, [], ◌∷◌, ◌++◌, append_assoc,
  none, some, true, false, Result, ok, err, arith, length, take, Result-cases, leb, ◌&&◌, ◌||◌,
  append-nil,
}
use mathlib.Core.Option.{some_inj}
use s3_cache.Prelude.Int.{ℤ, pos}
use s3_cache.Prelude.Assoc.{Key, same}
use s3_cache.Prelude.Text.{
  format_int, format_uint, parse_uint, parse_uint-format_uint, Lacks, cut, cut-append, AllDigits,
  format_uint-AllDigits,
}
use s3_cache.Prelude.Paths.{join_path}
use s3_cache.Prelude.Paths.Clean.{
  IsPlain, join_path-three, under, slash_injective, join_path-ne-nil,
}
use s3_cache.Fetcher.Get.{ObjVersion}
use s3_cache.Cache.Shards.{Host, ShardError, get_dir}
use s3_cache.Cache.Names.{Places, root, chunk_path, chunk_name, version_suffix, flight_key}

-- A text of hexadecimal digits.
abbrev pub AllHex : List ℕ → Type 0
AllHex [] = Unit {0}
AllHex (c ∷ s) = ((leb b'0' c && leb c b'9' || leb b'a' c && leb c b'f') ≡ true) × AllHex s

-- What hex.EncodeToString of a SHA-1 sum is.
pub record IsDigest (s : List ℕ) : Type 0 where
  pub hex : AllHex s
  pub long : length s ≡ 40

pub AllHex-Lacks : (s : List ℕ) → AllHex s → Lacks b'/' s
AllHex-Lacks [] h = tt
AllHex-Lacks (c ∷ s) h = (ground (arith, h.0), AllHex-Lacks s h.1)

AllHex-take : (n : ℕ) (s : List ℕ) → AllHex s → AllHex (take n s)
AllHex-take zero s h = tt
AllHex-take (suc n) [] h = tt
AllHex-take (suc n) (c ∷ s) h = (h.0, AllHex-take n s h.1)

AllHex-IsPlain : (s : List ℕ) → AllHex s → 0 < length s → IsPlain s
unfolding same
AllHex-IsPlain [] h k = absurd (omega arith)
AllHex-IsPlain (c ∷ s) h k = record {
  no_slash = AllHex-Lacks (c ∷ s) h;
  not_empty = refl;
  not_dot = ground (arith, h.0);
  not_back = ground (arith, h.0);
}

length-take_two : (s : List ℕ) → 1 < length s → 0 < length (take 2 s)
length-take_two [] h = absurd (omega arith)
length-take_two (c ∷ []) h = absurd (omega arith)
length-take_two (c ∷ d ∷ s) h = omega arith

append_cancel : (x a b : List ℕ) → x ++ a ≡ x ++ b → a ≡ b
append_cancel [] a b p = p
append_cancel (c ∷ x) a b p = append_cancel x a b (cc)

format_uint_injective : (m n : ℕ) → m < 2 ^ 63 → n < 2 ^ 63 → format_uint m ≡ format_uint n → m ≡ n
format_uint_injective m n hm hn p =
    let q : ◌≡◌ {A = Result _ ℕ} (ok m) (ok n) =
      sym (parse_uint-format_uint m (omega arith))
      ∙ ap parse_uint p
      ∙ parse_uint-format_uint n (omega arith) in
    cc

AllDigits-Lacks_slash : (s : List ℕ) → AllDigits s → Lacks b'/' s × Lacks b':' s
AllDigits-Lacks_slash [] d = (tt, tt)
AllDigits-Lacks_slash (c ∷ s) d =
    let (p, q) = AllDigits-Lacks_slash s d.2 in ((omega arith, p), (omega arith, q))

-- The offset and the version can be read off a name.
cut_none : (s : List ℕ) → Lacks b':' s → cut b':' s ≡ none
unfolding cut
cut_none [] h = refl
cut_none (c ∷ s) h = ground (arith, cut_none s h.1)

no_colon : (n : ℕ) → cut b':' (format_uint n ++ []) ≡ none
no_colon n =
    rw (append-nil (format_uint n))
      (cut_none (format_uint n) (AllDigits-Lacks_slash (format_uint n) (format_uint-AllDigits n)).1)

colon :
    (n : ℕ) (etag : List ℕ) → cut b':' (format_uint n ++ b':' ∷ etag) ≡ some (format_uint n, etag)
colon n etag =
    cut-append b':' (format_uint n) etag
      (AllDigits-Lacks_slash (format_uint n) (format_uint-AllDigits n)).1

suffix_injective :
    (m n : ℕ) (e f : List ℕ)
    → m < 2 ^ 63
    → n < 2 ^ 63
    → format_uint m ++ version_suffix e ≡ format_uint n ++ version_suffix f
    → (m ≡ n) × (e ≡ f)
suffix_injective m n [] [] hm hn p = (
  format_uint_injective m n hm hn
      (sym (append-nil (format_uint m)) ∙ p ∙ append-nil (format_uint n)),
  refl,
)
suffix_injective m n [] (d ∷ f) hm hn p =
    let q = sym (no_colon m) ∙ ap (cut b':') p ∙ colon n (d ∷ f) in cc
suffix_injective m n (c ∷ e) [] hm hn p =
    let q = sym (no_colon n) ∙ ap (cut b':') (sym p) ∙ colon m (c ∷ e) in cc
suffix_injective m n (c ∷ e) (d ∷ f) hm hn p =
    let q = some_inj.0 (sym (colon m (c ∷ e)) ∙ ap (cut b':') p ∙ colon n (d ∷ f)) in
    (format_uint_injective m n hm hn (ap (λ z. z.0) q), ap (λ z. z.1) q)

name_injective :
    (key : Key) (v w : ObjVersion) (m n : ℕ)
    → m < 2 ^ 63
    → n < 2 ^ 63
    → chunk_name key v (pos m) ≡ chunk_name key w (pos n)
    → (m ≡ n) × (v.etag ≡ w.etag)
unfolding format_int
name_injective key v w m n hm hn p =
    suffix_injective m n v.etag w.etag hm hn
      (append_cancel (b':' ∷ []) _ _ (append_cancel key (b':' ∷ _) (b':' ∷ _) p))

-- Flights of different chunks have different keys, where ETags have no slash in them.
pub flight_key_injective :
    (key other : Key) (v w : ObjVersion) (m n : ℕ)
    → m < 2 ^ 63
    → n < 2 ^ 63
    → Lacks b'/' v.etag
    → Lacks b'/' w.etag
    → flight_key key (pos m) v ≡ flight_key other (pos n) w
    → (key ≡ other) × (m ≡ n) × (v.etag ≡ w.etag)
unfolding format_int
flight_key_injective key other v w m n hm hn lv lw p =
    let (q, e) =
      slash_injective (key ++ b'/' ∷ format_uint m) v.etag (other ++ b'/' ∷ format_uint n) w.etag lv
        lw
        (append_assoc key (b'/' ∷ format_uint m) (b'/' ∷ v.etag)
          ∙ p
          ∙ sym (append_assoc other (b'/' ∷ format_uint n) (b'/' ∷ w.etag))) in
    let (k, o) =
      slash_injective key (format_uint m) other (format_uint n)
        (AllDigits-Lacks_slash (format_uint m) (format_uint-AllDigits m)).0
        (AllDigits-Lacks_slash (format_uint n) (format_uint-AllDigits n)).0 q in
    (k, format_uint_injective m n hm hn o, e)

ok_injective : {a b : List ℕ} → ◌≡◌ {A = Result ShardError (List ℕ)} (ok a) (ok b) → a ≡ b
ok_injective p = cc

-- A path that was found, taken apart: the shard root, and the parts under it.
pub record IsPathOf (host : Host) (places : Places) (key : Key) (v : ObjVersion) (offset : ℤ)
    (p : List ℕ) : Type 0 where
  pub dir : List ℕ
  pub placed : root host places key ≡ ok (dir, host.digest key)
  pub parts :
      p
      ≡ (under dir (take 2 (host.digest key)) ++ b'/' ∷ host.digest key)
        ++ b'/' ∷ host.digest (chunk_name key v offset)

module _ (host : Host) (places : Places) (digests : (s : List ℕ) → IsDigest (host.digest s))
    (has_subdir : same places.subdir [] ≡ false) where
  digest-IsPlain : (s : List ℕ) → IsPlain (host.digest s)
  digest-IsPlain s =
      AllHex-IsPlain (host.digest s) (digests s).hex (omega (arith, (digests s).long))

  prefix-IsPlain : (s : List ℕ) → IsPlain (take 2 (host.digest s))
  prefix-IsPlain s =
      AllHex-IsPlain (take 2 (host.digest s)) (AllHex-take 2 (host.digest s) (digests s).hex)
        (length-take_two (host.digest s) (omega (arith, (digests s).long)))

  pub root_cases :
      (key : Key)
      → ((e : ShardError) × (root host places key ≡ err e))
        ⊎ ((dir : List ℕ) × (root host places key ≡ ok (dir, host.digest key))
            × (same dir [] ≡ false))
  unfolding root
  root_cases key = elim (Result-cases (get_dir host places.location (host.digest key))) [
    | inr (e, p) ↦ inl (e, rw (root, p) refl)
    | inl (shard, p) ↦ inr (
      join_path (shard ∷ places.subdir ∷ []),
      rw (root, p) refl,
      join_path-ne-nil shard places.subdir has_subdir,
    )
  ]

  pub chunk_path-IsPathOf :
      (key : Key) (v : ObjVersion) (offset : ℤ) (p : List ℕ)
      → chunk_path host places key v offset ≡ ok p
      → IsPathOf host places key v offset p
  unfolding chunk_path
  chunk_path-IsPathOf key v offset p h = elim (root_cases key) [
    | inl (e, q) ↦ absurd (ground arith)
    | inr (dir, q, some_dir) ↦ record {
      dir = dir;
      placed = q;
      parts =
          let r : ok (
                join_path (
                  dir
                  ∷ take 2 (host.digest key)
                  ∷ host.digest key
                  ∷ host.digest (chunk_name key v offset)
                  ∷ []))
              ≡ ok p =
            rw (chunk_path, q) at h in
          sym (ok_injective r)
          ∙ join_path-three dir (take 2 (host.digest key)) (host.digest key)
              (host.digest (chunk_name key v offset)) some_dir (prefix-IsPlain key)
              (digest-IsPlain key) (digest-IsPlain (chunk_name key v offset));
    }
  ]

  -- Two chunks that lie at one path are the same chunk: of the same key, at the same offset, and of the
  -- same ETag. Every digest is 40 hexadecimal digits, the cache has a subdirectory in its shards, and
  -- the digests of the two keys and of the two names do not collide.
  pub chunk_path_injective :
      (key other : Key) (v w : ObjVersion) (m n : ℕ) (p : List ℕ)
      → m < 2 ^ 63
      → n < 2 ^ 63
      → (host.digest key ≡ host.digest other → key ≡ other)
      → (host.digest (chunk_name key v (pos m)) ≡ host.digest (chunk_name other w (pos n))
          → chunk_name key v (pos m) ≡ chunk_name other w (pos n))
      → chunk_path host places key v (pos m) ≡ ok p
      → chunk_path host places other w (pos n) ≡ ok p
      → (key ≡ other) × (m ≡ n) × (v.etag ≡ w.etag)
  chunk_path_injective key other v w m n p hm hn keys names h k =
      let a = chunk_path-IsPathOf key v (pos m) p h in
      let b = chunk_path-IsPathOf other w (pos n) p k in
      let (above, last) =
        slash_injective _ (host.digest (chunk_name key v (pos m))) _
          (host.digest (chunk_name other w (pos n)))
          (digest-IsPlain (chunk_name key v (pos m))).no_slash
          (digest-IsPlain (chunk_name other w (pos n))).no_slash (sym a.parts ∙ b.parts) in
      let (top, middle) =
        slash_injective _ (host.digest key) _ (host.digest other) (digest-IsPlain key).no_slash
          (digest-IsPlain other).no_slash above in
      let same_key : key ≡ other = keys middle in
      let (same_offset, same_etag) =
        name_injective key v w m n hm hn
          (names last ∙ ap (λ k'. chunk_name k' w (pos n)) (sym same_key)) in
      (same_key, same_offset, same_etag)
