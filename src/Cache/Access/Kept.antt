-- ===== src/Cache/Access/Kept.antt =====
-- services/cache.go: the version markers and the temporary files are no chunks, and making them
-- leaves the chunks alone.
use s3_cache.Prelude.{
  ℕ, ◌≡◌, ◌≢◌, ◌⊎◌, inl, inr, refl, sym, ap, ◌∙◌, subst, List, [], ◌∷◌, ◌++◌, none, some, Bool,
  true, false, ◌&&◌, not, ok, arith, ◌==◌, Option-cases, Bool-cases, take,
}
use s3_cache.Prelude.Int.{ℤ}
use s3_cache.Prelude.Assoc.{Key, same, eq_of_same, lookup}
use s3_cache.Prelude.Text.{codes, Lacks, Lacks-append}
use s3_cache.Prelude.Paths.{join_path}
use s3_cache.Prelude.Paths.Clean.{
  IsPlain, join_path_last, slash_injective, cut_last, cut_last-Lacks, cut_last-slash, under,
}
use s3_cache.Eviction.{version_marker}
use s3_cache.Fetcher.Get.{ObjVersion}
use s3_cache.Cache.Shards.{Host}
use s3_cache.Cache.Names.{Places, chunk_path, chunk_name}
use s3_cache.Cache.Names.Distinct.{IsDigest, AllHex, AllHex-Lacks, root_cases, chunk_path-IsPathOf}
use s3_cache.Cache.Files.{
  Files, CacheState, Calls, Writing, Times, Wrote, Found, absent, refused, found, open_file,
  write_file, read_or_create_marker, marker_made, marker_time,
}
use s3_cache.Cache.Access.{versioned_since, marker_of, marked}
use s3_cache.Cache.Access.Disks.{Ends, succeeded, write_file-Ends}

pub unlike : (s t : List ℕ) → s ≢ t → same s t ≡ false
unlike s t h = elim (Bool-cases (same s t)) [ inl e ↦ absurd (h (eq_of_same s t e)) | inr e ↦ e ]

abbrev pub lacks : ℕ → List ℕ → Bool
lacks c [] = true
lacks c (d ∷ s) = not (d == c) && lacks c s

lacks-Lacks : (c : ℕ) (s : List ℕ) → lacks c s ≡ true → Lacks c s
lacks-Lacks c [] h = tt
lacks-Lacks c (d ∷ s) h = (ground arith, lacks-Lacks c s (ground arith))

marker-IsPlain : IsPlain version_marker
unfolding same
marker-IsPlain = record {
  no_slash = lacks-Lacks b'/' version_marker refl;
  not_empty = refl;
  not_dot = refl;
  not_back = refl;
}

dot_not_slash : ◌≢◌ {A = ℕ} b'.' b'/'
dot_not_slash = λ e. omega arith

name_lacks : lacks b'/' (codes "versioned-since") ≡ true
name_lacks = refl

marker_lacks : lacks b'/' (codes "tmp_marker_") ≡ true
marker_lacks = refl

pub chunk_lacks : lacks b'/' (codes "tmp_chunk_") ≡ true
chunk_lacks = refl

-- The temporary name that CreateTemp finds is one element.
abbrev pub HasPlainTemp : Writing → Type 0
HasPlainTemp w = (star : List ℕ) → w.temp ≡ some star → Lacks b'/' star

abbrev pub PlainTemp : Calls → Type 0
PlainTemp calls = HasPlainTemp calls.marking × HasPlainTemp calls.writing

pub Found-cases :
    (r : Found) → (r ≡ absent) ⊎ ((r ≡ refused) ⊎ ((p : List ℕ) × (b : List ℕ) × (r ≡ found p b)))
Found-cases absent = inl refl
Found-cases refused = inr (inl refl)
Found-cases (found p b) = inr (inr (p, b, refl))

marker_made_files : (times : Times) (now : ℕ) (w : Wrote) → (marker_made times now w).0 ≡ w.files
unfolding marker_made
marker_made_files times now w = elim (Option-cases w.failed) [
  | inl e ↦ rw (marker_made, e) refl
  | inr (x, e) ↦ rw (marker_made, e) refl
]

and_false : (b : Bool) → (b && false) ≡ false
and_false true = refl
and_false false = refl

-- What ends as another path does is kept.
pub Ends-other :
    (calls : Writing) (q p bytes : List ℕ) (files : Files) (w : Wrote)
    → same q p ≡ false
    → Ends calls q p bytes files w
    → lookup q w.files ≡ lookup q files
Ends-other calls q p bytes files w ne (e, kept) = e ∙ rw (ne, and_false (succeeded w)) refl

pub Lacks-tmp :
    (name star : List ℕ) → lacks b'/' name ≡ true → Lacks b'/' star → Lacks b'/' (name ++ star)
Lacks-tmp name star h k = Lacks-append b'/' name star (lacks-Lacks b'/' name h) k

module _ (host : Host) (places : Places) (digests : (s : List ℕ) → IsDigest (host.digest s))
    (has_subdir : same places.subdir [] ≡ false) where
  -- A path at which a chunk may lie.
  abbrev pub IsChunkPath : List ℕ → Type 0
  IsChunkPath q = (key : Key) × (v : ObjVersion) × (m : ℤ) × (chunk_path host places key v m ≡ ok q)

  digest_not_dotted : (s rest : List ℕ) → host.digest s ≢ b'.' ∷ rest
  digest_not_dotted s rest e =
      let h : AllHex (b'.' ∷ rest) = subst AllHex e (digests s).hex in absurd (ground (arith, h.0))

  pub chunk_ne_dotted :
      (q y rest : List ℕ)
      → IsChunkPath q
      → Lacks b'/' rest
      → same q (y ++ b'/' ∷ (b'.' ∷ rest)) ≡ false
  chunk_ne_dotted q y rest (key, v, m, h) lacking =
      let a = chunk_path-IsPathOf host places digests has_subdir key v m q h in
      unlike q (y ++ b'/' ∷ (b'.' ∷ rest)) (λ e.
        digest_not_dotted (chunk_name key v m) rest
          (slash_injective _ (host.digest (chunk_name key v m)) y (b'.' ∷ rest)
            (AllHex-Lacks (host.digest (chunk_name key v m)) (digests (chunk_name key v m)).hex)
            (dot_not_slash, lacking) (sym a.parts ∙ e)).1)

  chunk_ne_marker :
      (q dir : List ℕ)
      → IsChunkPath q
      → same dir [] ≡ false
      → same q (join_path (dir ∷ version_marker ∷ [])) ≡ false
  chunk_ne_marker q dir c h = elim (join_path_last dir version_marker h marker-IsPlain) [
    | inl e ↦
        let (key, v, m, k) = c in
        let a = chunk_path-IsPathOf host places digests has_subdir key v m q k in
        unlike q (join_path (dir ∷ version_marker ∷ [])) (λ p.
          let none_here : none ≡ cut_last q =
            sym (cut_last-Lacks version_marker marker-IsPlain.no_slash)
            ∙ ap cut_last (sym e ∙ sym p) in
          let some_here =
            ap cut_last a.parts
            ∙ cut_last-slash (under a.dir (take 2 (host.digest key)) ++ b'/' ∷ host.digest key)
                (host.digest (chunk_name key v m))
                (AllHex-Lacks (host.digest (chunk_name key v m))
                  (digests (chunk_name key v m)).hex) in
          let clash = none_here ∙ some_here in cc)
    | inr (x, e) ↦ rw e (
        chunk_ne_dotted q x (codes "versioned-since") c
          (lacks-Lacks b'/' (codes "versioned-since") name_lacks))
  ]

  -- The marker and its temporary file are no chunks.
  marker_keeps :
      (times : Times) (calls : Calls) (q dir : List ℕ) (files : Files)
      → PlainTemp calls
      → IsChunkPath q
      → same dir [] ≡ false
      → lookup q (read_or_create_marker times calls dir files).0 ≡ lookup q files
  unfolding read_or_create_marker
  marker_keeps times calls q dir files plain c h =
      let marker : List ℕ = join_path (dir ∷ version_marker ∷ []) in
      let text : List ℕ = times.format calls.now in
      let w : Wrote =
        write_file calls.marking calls.sync_ok dir (codes ".tmp_marker_") marker text files in
      elim (Found-cases (open_file calls marker files)) [
        | inl e ↦
            rw (read_or_create_marker, e)
              (ap (lookup q) (marker_made_files times calls.now w)
                ∙ Ends-other calls.marking q marker text files w (chunk_ne_marker q dir c h) (
                    write_file-Ends calls.marking calls.sync_ok dir (codes ".tmp_marker_") marker
                      text q files
                      (λ star t.
                        chunk_ne_dotted q dir (codes "tmp_marker_" ++ star) c
                          (Lacks-tmp (codes "tmp_marker_") star marker_lacks (plain.0 star t)))))
        | inr (inl e) ↦ rw (read_or_create_marker, e) refl
        | inr (inr (p, b, e)) ↦ rw (read_or_create_marker, e) refl
      ]

  pub since_keeps :
      (times : Times) (calls : Calls) (q : List ℕ) (key : Key) (st : CacheState)
      → PlainTemp calls
      → IsChunkPath q
      → lookup q (versioned_since host places times calls key st).0.files ≡ lookup q st.files
  unfolding versioned_since marker_of marker_time
  since_keeps times calls q key st plain c = elim (root_cases host places digests has_subdir key) [
    | inl (e, p) ↦ rw (versioned_since, p) refl
    | inr (dir, p, some_dir) ↦ elim (Option-cases (lookup dir st.since)) [
      | inr (t, e) ↦ rw (versioned_since, p, marker_time, e) refl
      | inl e ↦
          rw (versioned_since, p, marker_time, e)
            (marker_keeps times calls q dir st.files plain c some_dir)
    ]
  ]

  pub marked_keeps :
      (times : Times) (calls : Calls) (q : List ℕ) (key : Key) (v : ObjVersion) (st : CacheState)
      → PlainTemp calls
      → IsChunkPath q
      → lookup q (marked host places times calls key v st).files ≡ lookup q st.files
  marked_keeps times calls q key v st plain c = elim (Bool-cases (same v.etag [])) [
    | inl e ↦ rw e refl
    | inr e ↦ rw e (since_keeps times calls q key st plain c)
  ]
