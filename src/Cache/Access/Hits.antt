-- ===== src/Cache/Access/Hits.antt =====
-- services/cache.go: what a hit of DiskCache.Get holds.
use s3_cache.Prelude.{
  ℕ, ◌<◌, ◌≡◌, ◌⊎◌, Option, none, inl, inr, sym, ap, ◌∙◌, List, [], some, true, false, ok, arith,
  Option-cases, Bool-cases, Result-cases, length,
}
use s3_cache.Prelude.Int.{ℤ, pos}
use s3_cache.Prelude.Assoc.{Key, same, lookup}
use s3_cache.Fetcher.Get.{ObjVersion}
use s3_cache.Cache.Shards.{Host}
use s3_cache.Cache.Names.{Places, chunk_path, unversioned}
use s3_cache.Cache.Names.Distinct.{IsDigest}
use s3_cache.Cache.Files.{
  FileNode, Files, CacheState, Calls, Times, no_shard, not_stated, not_opened, absent, refused,
  found, open_file,
}
use s3_cache.Cache.Access.{
  miss, hit, get_failed, get_chunk, versioned_since, is_trusted, get_path, get_found, get_old,
  get_at, serve_found,
}
use s3_cache.Cache.Access.Kept.{PlainTemp, since_keeps, Found-cases}
use s3_cache.Cache.Access.Contents.{IsDistinct, IsVersioned}

pub open_found :
    (calls : Calls) (p p' b : List ℕ) (files : Files)
    → open_file calls p files ≡ found p' b
    → (f : FileNode) × (lookup p files ≡ some f) × (f.bytes ≡ b) × (p ≡ p')
unfolding open_file
open_found calls p p' b files h = elim (Bool-cases (calls.opens p)) [
  | inr e ↦ let r : refused ≡ found p' b = rw (open_file, e) at h in absurd (cc)
  | inl e ↦ elim (Option-cases (lookup p files)) [
    | inl l ↦ let r : absent ≡ found p' b = rw (open_file, e, l) at h in absurd (cc)
    | inr (f, l) ↦
        let r : found p f.bytes ≡ found p' b = rw (open_file, e, l) at h in (f, l, cc, cc)
  ]
]

served_lem :
    (calls : Calls) (p b x : List ℕ) (n : ℤ) (st : CacheState)
    → (serve_found calls (found p b) st).1 ≡ hit x n
    → (b ≡ x) × (n ≡ pos (length x))
unfolding serve_found
served_lem calls p b x n st h = elim (Bool-cases calls.stat_ok) [
  | inl e ↦
      let r : hit b (pos (length b)) ≡ hit x n = rw (serve_found, e) at h in
      let same_bytes : b ≡ x = cc in
      let size : pos (length b) ≡ n = cc in
      (same_bytes, sym size ∙ ap (λ (y : List ℕ). pos (length y)) same_bytes)
  | inr e ↦ let r : get_failed not_stated ≡ hit x n = rw (serve_found, e) at h in absurd (cc)
]

-- A chunk from before versioning is trusted where the marker time or the time of the object is
-- unknown, or the object is older than the marker.
abbrev pub Trusted : Option ℕ → ℕ → Type 0
Trusted none modified = Unit {0}
Trusted (some since) modified = (since ≡ 0) ⊎ ((modified ≡ 0) ⊎ (modified < since))

is_trusted-Trusted :
    (since : Option ℕ) (modified : ℕ) → is_trusted since modified ≡ true → Trusted since modified
is_trusted-Trusted none modified h = tt
is_trusted-Trusted (some since) modified h = ground arith

module _ (host : Host) (places : Places) (digests : (s : List ℕ) → IsDigest (host.digest s))
    (has_subdir : same places.subdir [] ≡ false) (Known : Key → List ℕ → ℕ → Type 0)
    (distinct : IsDistinct host Known) (content : Key → List ℕ → ℕ → List ℕ) where
  -- What a hit of a versioned chunk holds: `current`, the bytes of the version; or `old`, a file named
  -- before versioning, where there is none of the version, and only if it is trusted.
  pub data IsHit (times : Times) (calls : Calls) (key : Key) (v : ObjVersion) (m : ℕ)
      (st : CacheState) (bytes : List ℕ) : Type 0 where
    current : bytes ≡ content key v.etag m → IsHit times calls key v m st bytes
    old :
        (p q : List ℕ) (f : FileNode)
        → chunk_path host places key v (pos m) ≡ ok p
        → open_file calls p st.files ≡ absent
        → Trusted (versioned_since host places times calls key st).1 v.modified
        → chunk_path host places key unversioned (pos m) ≡ ok q
        → lookup q st.files ≡ some f
        → f.bytes ≡ bytes
        → IsHit times calls key v m st bytes

  old-IsHit :
      (times : Times) (calls : Calls) (key : Key) (v : ObjVersion) (m : ℕ) (p bytes : List ℕ)
      (n : ℤ) (st : CacheState)
      → PlainTemp calls
      → chunk_path host places key v (pos m) ≡ ok p
      → open_file calls p st.files ≡ absent
      → (get_old host places times calls key v (pos m) st).1 ≡ hit bytes n
      → IsHit times calls key v m st bytes × (n ≡ pos (length bytes))
  unfolding get_old get_at
  old-IsHit times calls key v m p bytes n st plain h a r =
      let (st', since) = versioned_since host places times calls key st in
      elim (Bool-cases (is_trusted since v.modified)) [
        | inr t ↦ let c : miss ≡ hit bytes n = rw (get_old, t) at r in absurd (cc)
        | inl t ↦ elim (Result-cases (chunk_path host places key unversioned (pos m))) [
          | inr (e, k) ↦
              let c : get_failed (no_shard e) ≡ hit bytes n = rw (get_old, t, k) at r in absurd (cc)
          | inl (q, k) ↦ elim (Found-cases (open_file calls q st'.files)) [
            | inl o ↦ let c : miss ≡ hit bytes n = rw (get_old, t, k, o) at r in absurd (cc)
            | inr (inl o) ↦
                let c : get_failed not_opened ≡ hit bytes n = rw (get_old, t, k, o) at r in
                absurd (cc)
            | inr (inr (q', b, o)) ↦
                let (f, l, fb, e) = open_found calls q q' b st'.files o in
                let (same_bytes, size) =
                  served_lem calls q' b bytes n st' (rw (get_old, t, k, o) at r) in
                (
                  old p q f h a (is_trusted-Trusted since v.modified t) k
                      (sym (
                          since_keeps host places digests has_subdir times calls q key st plain
                            (key, unversioned, pos m, k))
                        ∙ l)
                      (fb ∙ same_bytes),
                  size,
                )
          ]
        ]
      ]

  -- A hit of a versioned chunk has the bytes of that version, or those of a trusted file from before
  -- versioning where the version has no file, and its size is that of the bytes.
  pub get_chunk-IsHit :
      (times : Times) (calls : Calls) (key : Key) (v : ObjVersion) (m : ℕ) (bytes : List ℕ) (n : ℤ)
      (st : CacheState)
      → PlainTemp calls
      → Known key v.etag m
      → same v.etag [] ≡ false
      → IsVersioned host places digests has_subdir Known distinct content st.files
      → (get_chunk host (some places) times calls key v (pos m) st).1 ≡ hit bytes n
      → IsHit times calls key v m st bytes × (n ≡ pos (length bytes))
  unfolding get_chunk get_path get_found
  get_chunk-IsHit times calls key v m bytes n st plain kn versioned inv r =
      elim (Result-cases (chunk_path host places key v (pos m))) [
        | inr (e, h) ↦
            let c : get_failed (no_shard e) ≡ hit bytes n = rw (get_chunk, h) at r in absurd (cc)
        | inl (p, h) ↦ elim (Found-cases (open_file calls p st.files)) [
          | inl o ↦
              old-IsHit times calls key v m p bytes n st plain h o
                (rw (get_chunk, h, get_path, o, get_found, versioned) at r)
          | inr (inl o) ↦
              let c : get_failed not_opened ≡ hit bytes n =
                rw (get_chunk, h, get_path, o, get_found, serve_found) at r in
              absurd (cc)
          | inr (inr (p', b, o)) ↦
              let (f, l, fb, e) = open_found calls p p' b st.files o in
              let (same_bytes, size) =
                served_lem calls p' b bytes n st (rw (get_chunk, h, get_path, o, get_found) at r) in
              (current (sym same_bytes ∙ sym fb ∙ inv key v m p f kn versioned h l), size)
        ]
      ]
