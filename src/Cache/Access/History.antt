-- ===== src/Cache/Access/History.antt =====
-- services/cache.go, with the evictor: what lies on disk over any history of puts, gets, evictions,
-- crashes and restarts.
use s3_cache.Prelude.{
  ℕ, ◌≡◌, ◌⊎◌, inl, inr, refl, sym, ap, subst, ◌∙◌, List, [], ◌∷◌, Option, none, some, false,
  Result, ok, err, Bool-cases, Result-cases, length,
}
use s3_cache.Prelude.Int.{ℤ, pos}
use s3_cache.Prelude.Assoc.{
  Key, same, eq_of_same, lookup, insert, remove, lookup-insert, lookup-remove,
}
use s3_cache.Fetcher.Get.{ObjVersion}
use s3_cache.Cache.Shards.{Host, ShardError}
use s3_cache.Cache.Names.{Places, chunk_path, unversioned}
use s3_cache.Cache.Names.Distinct.{IsDigest}
use s3_cache.Cache.Files.{FileNode, Files, CacheState, Calls, Times, found, open_file, file_of}
use s3_cache.Cache.Access.{
  hit, get_chunk, put_chunk, versioned_since, marked, is_trusted, get_path, get_found, get_old,
  get_at, serve_found,
}
use s3_cache.Cache.Access.Kept.{PlainTemp, IsChunkPath, since_keeps, Found-cases}
use s3_cache.Cache.Access.Contents.{
  IsDistinct, IsVersioned, AllVersioned, crash_disks, put_chunk-IsVersioned,
}
use s3_cache.Cache.Access.Hits.{open_found, IsHit, get_chunk-IsHit}

bytes_of : Option FileNode → Option (List ℕ)
bytes_of none = none
bytes_of (some f) = some f.bytes

abbrev bytes_at : List ℕ → Files → Option (List ℕ)
bytes_at q files = bytes_of (lookup q files)

found_bytes :
    (o : Option FileNode) (b : List ℕ)
    → bytes_of o ≡ some b
    → (f : FileNode) × (o ≡ some f) × (f.bytes ≡ b)
unfolding bytes_of
found_bytes none b h = cc
found_bytes (some f) b h = (f, refl, cc)

bytes_of_some :
    (q : List ℕ) (f : FileNode) (files : Files)
    → lookup q files ≡ some f
    → bytes_at q files ≡ some f.bytes
unfolding bytes_of
bytes_of_some q f files l = rw l refl

touched_bytes :
    (now : ℕ) (q p b : List ℕ) (files : Files)
    → bytes_at p files ≡ some b
    → bytes_at q (insert p (file_of b now) files) ≡ bytes_at q files
unfolding bytes_of
touched_bytes now q p b files h = elim (Bool-cases (same q p)) [
  | inr other ↦ rw (lookup-insert p q (file_of b now) files, other) refl
  | inl here ↦
      rw (lookup-insert p q (file_of b now) files, here)
        (sym h ∙ ap (λ (x : List ℕ). bytes_at x files) (sym (eq_of_same q p here)))
]

-- The touch of a file that was found keeps the bytes of every file.
found_keeps :
    (calls : Calls) (q p p' b : List ℕ) (st : CacheState)
    → open_file calls p st.files ≡ found p' b
    → bytes_at q (serve_found calls (found p' b) st).0.files ≡ bytes_at q st.files
unfolding serve_found
found_keeps calls q p p' b st e =
    let (f, l, fb, same_path) = open_found calls p p' b st.files e in
    let there : bytes_at p' st.files ≡ some b =
      ap (λ (x : List ℕ). bytes_at x st.files) (sym same_path)
      ∙ bytes_of_some p f st.files l
      ∙ ap (λ (x : List ℕ). some x) fb in
    elim (Bool-cases calls.stat_ok) [
      | inr stat ↦ rw (serve_found, stat) refl
      | inl stat ↦ elim (Bool-cases calls.touch_ok) [
        | inr t ↦ rw (serve_found, stat, t) refl
        | inl t ↦ rw (serve_found, stat, t) (touched_bytes calls.now q p' b st.files there)
      ]
    ]

serve_found_keeps :
    (calls : Calls) (q p : List ℕ) (st : CacheState)
    → bytes_at q (serve_found calls (open_file calls p st.files) st).0.files ≡ bytes_at q st.files
unfolding serve_found
serve_found_keeps calls q p st = elim (Found-cases (open_file calls p st.files)) [
  | inl e ↦ rw (serve_found, e) refl
  | inr (inl e) ↦ rw (serve_found, e) refl
  | inr (inr (p', b, e)) ↦ rw e (found_keeps calls q p p' b st e)
]

get_at_keeps :
    (calls : Calls) (q : List ℕ) (r : Result ShardError (List ℕ)) (st : CacheState)
    → bytes_at q (get_at calls r st).0.files ≡ bytes_at q st.files
unfolding get_at
get_at_keeps calls q (err e) st = refl
get_at_keeps calls q (ok p) st = serve_found_keeps calls q p st

module _ (host : Host) (places : Places) (digests : (s : List ℕ) → IsDigest (host.digest s))
    (has_subdir : same places.subdir [] ≡ false) where
  get_old_keeps :
      (times : Times) (calls : Calls) (key : Key) (v : ObjVersion) (offset : ℤ) (q : List ℕ)
      (st : CacheState)
      → PlainTemp calls
      → IsChunkPath host places digests has_subdir q
      → bytes_at q (get_old host places times calls key v offset st).0.files ≡ bytes_at q st.files
  unfolding get_old
  get_old_keeps times calls key v offset q st plain c =
      let (st', since) = versioned_since host places times calls key st in
      let kept : bytes_at q st'.files ≡ bytes_at q st.files =
        ap bytes_of (since_keeps host places digests has_subdir times calls q key st plain c) in
      elim (Bool-cases (is_trusted since v.modified)) [
        | inr t ↦ rw (get_old, t) kept
        | inl t ↦
            rw (get_old, t)
              (get_at_keeps calls q (chunk_path host places key unversioned offset) st' ∙ kept)
      ]

  -- A get keeps the bytes of every chunk.
  get_keeps :
      (times : Times) (calls : Calls) (key : Key) (v : ObjVersion) (offset : ℤ) (q : List ℕ)
      (st : CacheState)
      → PlainTemp calls
      → IsChunkPath host places digests has_subdir q
      → bytes_at q (get_chunk host (some places) times calls key v offset st).0.files
        ≡ bytes_at q st.files
  unfolding get_chunk get_path get_found
  get_keeps times calls key v offset q st plain c =
      elim (Result-cases (chunk_path host places key v offset)) [
        | inr (e, h) ↦ rw (get_chunk, h) refl
        | inl (p, h) ↦ elim (Found-cases (open_file calls p st.files)) [
          | inl o ↦ elim (Bool-cases (same v.etag [])) [
            | inl z ↦ rw (get_chunk, h, get_path, o, get_found, z) refl
            | inr z ↦
                rw (get_chunk, h, get_path, o, get_found, z)
                  (get_old_keeps times calls key v offset q st plain c)
          ]
          | inr (inl o) ↦ rw (get_chunk, h, get_path, o, get_found, serve_found) refl
          | inr (inr (p', b, o)) ↦
              rw (get_chunk, h, get_path, o, get_found) (found_keeps calls q p p' b st o)
        ]
      ]

module _ (host : Host) (places : Places) (digests : (s : List ℕ) → IsDigest (host.digest s))
    (has_subdir : same places.subdir [] ≡ false) (Known : Key → List ℕ → ℕ → Type 0)
    (distinct : IsDistinct host Known) (content : Key → List ℕ → ℕ → List ℕ) where
  -- One of the disks.
  abbrev pub Among : Files → List Files → Type 0
  Among d [] = ⊥
  Among d (x ∷ xs) = (d ≡ x) ⊎ Among d xs

  -- What can happen to the cache, from a disk on which every versioned chunk is right, such as one with
  -- none: puts of the bytes of a version (or of any bytes, without an ETag),
  -- gets, the removal of a file by the evictor, the end of the process, and its end inside the write of
  -- a chunk.
  pub data History : CacheState → Type 0 where
    starts :
        (files : Files)
        → IsVersioned host places digests has_subdir Known distinct content files
        → History (record { files = files; since = [] })
    puts :
        {st : CacheState} (times : Times) (calls : Calls) (key : Key) (v : ObjVersion) (m : ℕ)
        (bytes : List ℕ)
        → PlainTemp calls
        → Known key v.etag m
        → (same v.etag [] ≡ false → bytes ≡ content key v.etag m)
        → History st
        → History (put_chunk host (some places) times calls key v (pos m) bytes st).0
    gets :
        {st : CacheState} (times : Times) (calls : Calls) (key : Key) (v : ObjVersion) (offset : ℤ)
        → PlainTemp calls
        → History st
        → History (get_chunk host (some places) times calls key v offset st).0
    removes :
        {st : CacheState} (p : List ℕ)
        → History st
        → History (record st { files = remove p st.files })
    restarts : {st : CacheState} → History st → History (record st { since = [] })
    crashes :
        {st : CacheState} (times : Times) (calls : Calls) (key : Key) (v : ObjVersion) (m : ℕ)
        (bytes : List ℕ) (disk : Files)
        → PlainTemp calls
        → Known key v.etag m
        → (same v.etag [] ≡ false → bytes ≡ content key v.etag m)
        → Among disk (
            crash_disks host places digests has_subdir Known distinct content calls
              (chunk_path host places key v (pos m))
              bytes
              (marked host places times calls key v st).files)
        → History st
        → History (record { files = disk; since = [] })

  abbrev Right : Files → Type 0
  Right = IsVersioned host places digests has_subdir Known distinct content

  kept-IsVersioned :
      (files files' : Files)
      → Right files
      → ((q : List ℕ)
          → IsChunkPath host places digests has_subdir q
          → bytes_at q files' ≡ bytes_at q files)
      → Right files'
  kept-IsVersioned files files' inv keep key v m q f kn e h l =
      let (g, there, same_bytes) =
        found_bytes (lookup q files) f.bytes
          (sym (keep q (key, v, pos m, h)) ∙ bytes_of_some q f files' l) in
      sym same_bytes ∙ inv key v m q g kn e h there

  removed-IsVersioned : (p : List ℕ) (files : Files) → Right files → Right (remove p files)
  removed-IsVersioned p files inv key v m q f kn e h l = elim (Bool-cases (same q p)) [
    | inl here ↦
        let gone : none ≡ some f = sym (rw (lookup-remove p q files, here) refl) ∙ l in absurd (cc)
    | inr other ↦ inv key v m q f kn e h (sym (rw (lookup-remove p q files, other) refl) ∙ l)
  ]

  Among-IsVersioned :
      (d : Files) (ds : List Files)
      → Among d ds
      → AllVersioned host places digests has_subdir Known distinct content ds
      → Right d
  Among-IsVersioned d [] a all = absurd a
  Among-IsVersioned d (x ∷ xs) (inl e) (now, later) = subst Right (sym e) now
  Among-IsVersioned d (x ∷ xs) (inr a) (now, later) = Among-IsVersioned d xs a later

  -- Over any history, every versioned chunk on disk has the bytes of its version.
  pub History-IsVersioned : {st : CacheState} → History st → Right st.files
  History-IsVersioned (starts files right) = right
  History-IsVersioned (puts {st} times calls key v m bytes plain kn right past) =
      (put_chunk-IsVersioned host places digests has_subdir Known distinct content times calls key v
        m bytes st plain kn right (History-IsVersioned past)).0
  History-IsVersioned (gets {st} times calls key v offset plain past) =
      kept-IsVersioned st.files (get_chunk host (some places) times calls key v offset st).0.files
        (History-IsVersioned past)
        (λ q c. get_keeps host places digests has_subdir times calls key v offset q st plain c)
  History-IsVersioned (removes {st} p past) =
      removed-IsVersioned p st.files (History-IsVersioned past)
  History-IsVersioned (restarts past) = History-IsVersioned past
  History-IsVersioned (crashes {st} times calls key v m bytes disk plain kn right among past) =
      Among-IsVersioned disk _ among
        (put_chunk-IsVersioned host places digests has_subdir Known distinct content times calls key
          v m bytes st plain kn right (History-IsVersioned past)).1

  -- From a disk whose versioned chunks are right, and after any history of puts of the right bytes,
  -- gets, evictions, restarts and crashes inside a put, a hit of a versioned chunk has the bytes of that
  -- version, or those of a trusted file from before versioning where the version has no file, and its
  -- size is that of the bytes. Digests have 40 hexadecimal digits and do not collide on the chunks in
  -- use, the cache has a subdirectory, and temporary names have no slash.
  pub History-IsHit :
      (times : Times) (calls : Calls) (key : Key) (v : ObjVersion) (m : ℕ) (bytes : List ℕ) (n : ℤ)
      {st : CacheState}
      → PlainTemp calls
      → Known key v.etag m
      → same v.etag [] ≡ false
      → History st
      → (get_chunk host (some places) times calls key v (pos m) st).1 ≡ hit bytes n
      → IsHit host places digests has_subdir Known distinct content times calls key v m st bytes
        × (n ≡ pos (length bytes))
  History-IsHit times calls key v m bytes n {st} plain kn versioned past got =
      get_chunk-IsHit host places digests has_subdir Known distinct content times calls key v m
        bytes n st plain kn versioned (History-IsVersioned past) got
