-- ===== src/Cache/Access/Contents.antt =====
-- services/cache.go: the contents of the versioned chunks on disk, over any sequence of puts and gets.
use mathlib.Core.Option.{some_inj}
use s3_cache.Prelude.{
  ℕ, ◌^◌, ◌<◌, ◌≡◌, inl, inr, refl, sym, ap, ◌∙◌, List, [], ◌∷◌, some, Bool, true, false, ◌&&◌,
  Result, ok, err, arith, Bool-cases, Result-cases,
}
use s3_cache.Prelude.Int.{pos}
use s3_cache.Prelude.Assoc.{Key, same, eq_of_same, lookup}
use s3_cache.Fetcher.Get.{ObjVersion}
use s3_cache.Cache.Shards.{Host, ShardError}
use s3_cache.Cache.Names.{Places, chunk_path, chunk_name}
use s3_cache.Cache.Names.Distinct.{IsDigest, chunk_path_injective}
use s3_cache.Cache.Files.{FileNode, Files, CacheState, Calls, Times, Wrote, file_of}
use s3_cache.Cache.Access.{put_chunk, marked, put_path, put_wrote}
use s3_cache.Cache.Access.Disks.{succeeded, AllKeep}
use s3_cache.Cache.Access.Kept.{PlainTemp, IsChunkPath, marked_keeps}
use s3_cache.Cache.Access.Versions.{put-Ends}

abbrev pub version : List ℕ → ObjVersion
version etag = record { etag = etag; modified = 0 }

-- Of the chunks in use no two digests collide, of their keys or of their names.
pub record IsDistinct (host : Host) (Known : Key → List ℕ → ℕ → Type 0) : Type 0 where
  pub bounded : (key : Key) (e : List ℕ) (m : ℕ) → Known key e m → m < 2 ^ 63
  pub keys :
      (key other : Key) (e f : List ℕ) (m n : ℕ)
      → Known key e m
      → Known other f n
      → host.digest key ≡ host.digest other
      → key ≡ other
  pub names :
      (key other : Key) (e f : List ℕ) (m n : ℕ)
      → Known key e m
      → Known other f n
      → host.digest (chunk_name key (version e) (pos m))
        ≡ host.digest (chunk_name other (version f) (pos n))
      → chunk_name key (version e) (pos m) ≡ chunk_name other (version f) (pos n)

and_right : (a b : Bool) → (a && b) ≡ true → b ≡ true
and_right a b h = ground arith

module _ (host : Host) (places : Places) (digests : (s : List ℕ) → IsDigest (host.digest s))
    (has_subdir : same places.subdir [] ≡ false) (Known : Key → List ℕ → ℕ → Type 0)
    (distinct : IsDistinct host Known) (content : Key → List ℕ → ℕ → List ℕ) where
  -- Every chunk in use that lies on disk under a version has the bytes of that version.
  abbrev pub IsVersioned : Files → Type 0
  IsVersioned files =
      (key : Key) (v : ObjVersion) (m : ℕ) (q : List ℕ) (f : FileNode)
      → Known key v.etag m
      → same v.etag [] ≡ false
      → chunk_path host places key v (pos m) ≡ ok q
      → lookup q files ≡ some f
      → f.bytes ≡ content key v.etag m

  same_chunk :
      (key other : Key) (v w : ObjVersion) (m n : ℕ) (p : List ℕ)
      → Known key v.etag m
      → Known other w.etag n
      → chunk_path host places key v (pos m) ≡ ok p
      → chunk_path host places other w (pos n) ≡ ok p
      → (key ≡ other) × (m ≡ n) × (v.etag ≡ w.etag)
  same_chunk key other v w m n p kn kn' h k =
      chunk_path_injective host places digests has_subdir key other v w m n p
        (distinct.bounded key v.etag m kn) (distinct.bounded other w.etag n kn')
        (distinct.keys key other v.etag w.etag m n kn kn')
        (distinct.names key other v.etag w.etag m n kn kn') h k

  marked-IsVersioned :
      (times : Times) (calls : Calls) (key : Key) (v : ObjVersion) (st : CacheState)
      → PlainTemp calls
      → IsVersioned st.files
      → IsVersioned (marked host places times calls key v st).files
  marked-IsVersioned times calls key v st plain inv key' v' m q f kn e h l =
      inv key' v' m q f kn e h (
        sym (
          marked_keeps host places digests has_subdir times calls q key v st plain
            (key', v', pos m, h))
        ∙ l)

  -- The write of one chunk, with the right bytes.
  wrote-IsVersioned :
      (calls : Calls) (key : Key) (v : ObjVersion) (m : ℕ) (p bytes : List ℕ) (files : Files)
      → PlainTemp calls
      → Known key v.etag m
      → (same v.etag [] ≡ false → bytes ≡ content key v.etag m)
      → chunk_path host places key v (pos m) ≡ ok p
      → IsVersioned files
      → IsVersioned (put_wrote calls p bytes files).files
  wrote-IsVersioned calls key v m p bytes files plain kn right h inv key' v' m' q f kn' e h' l =
      let w : Wrote = put_wrote calls p bytes files in
      let ends =
        put-Ends host places digests has_subdir calls q p bytes files plain
          (key', v', pos m', h') in
      elim (Bool-cases (succeeded w && same q p)) [
        | inr b ↦ inv key' v' m' q f kn' e h' (sym (ends.0 ∙ rw b refl) ∙ l)
        | inl b ↦
            let at_p : q ≡ p = eq_of_same q p (and_right (succeeded w) (same q p) b) in
            let new : some (file_of bytes calls.writing.now) ≡ some f =
              sym (ends.0 ∙ rw b refl) ∙ l in
            let (k, n, t) = same_chunk key key' v v' m m' p kn kn' h (h' ∙ ap ok at_p) in
            let bytes_here : bytes ≡ f.bytes = ap (λ (x : FileNode). x.bytes) (some_inj.0 new) in
            sym bytes_here
            ∙ right (ap (λ (x : List ℕ). same x []) t ∙ e)
            ∙ (λ i. content (k i) (t i) (n i))
      ]

  abbrev pub AllVersioned : List Files → Type 0
  AllVersioned [] = Unit {0}
  AllVersioned (d ∷ ds) = IsVersioned d × AllVersioned ds

  during-AllVersioned :
      (files : Files) (ds : List Files)
      → IsVersioned files
      → ((q : List ℕ)
          → IsChunkPath host places digests has_subdir q
          → AllKeep q (lookup q files) ds)
      → AllVersioned ds
  during-AllVersioned files [] inv keep = tt
  during-AllVersioned files (d ∷ ds) inv keep = (
    λ key v m q f kn e h l. inv key v m q f kn e h (sym (keep q (key, v, pos m, h)).0 ∙ l),
    during-AllVersioned files ds inv (λ q c. (keep q c).1),
  )

  -- The disks that a crash during the write of a chunk may leave.
  abbrev pub crash_disks : Calls → Result ShardError (List ℕ) → List ℕ → Files → List Files
  crash_disks calls (err e) bytes files = []
  crash_disks calls (ok p) bytes files = (put_wrote calls p bytes files).during

  -- A put of the bytes of a version keeps every versioned chunk right, whichever of its system calls
  -- fail, and so does a crash between any two of those of the write. The bytes of a chunk with no
  -- ETag do not matter. Digests have 40 hexadecimal digits
  -- and do not collide on the chunks in use, the cache has a subdirectory, and temporary names have
  -- no slash.
  pub put_chunk-IsVersioned :
      (times : Times) (calls : Calls) (key : Key) (v : ObjVersion) (m : ℕ) (bytes : List ℕ)
      (st : CacheState)
      → PlainTemp calls
      → Known key v.etag m
      → (same v.etag [] ≡ false → bytes ≡ content key v.etag m)
      → IsVersioned st.files
      → IsVersioned (put_chunk host (some places) times calls key v (pos m) bytes st).0.files
        × AllVersioned (
            crash_disks calls
              (chunk_path host places key v (pos m))
              bytes
              (marked host places times calls key v st).files)
  unfolding put_chunk put_path
  put_chunk-IsVersioned times calls key v m bytes st plain kn right inv =
      let old : CacheState = marked host places times calls key v st in
      let inv' : IsVersioned old.files = marked-IsVersioned times calls key v st plain inv in
      elim (Result-cases (chunk_path host places key v (pos m))) [
        | inr (e, h) ↦ rw (put_chunk, h) (inv', tt)
        | inl (p, h) ↦
            rw (put_chunk, h)
              (
                wrote-IsVersioned calls key v m p bytes old.files plain kn right h inv',
                during-AllVersioned old.files (put_wrote calls p bytes old.files).during inv'
                    (λ q c.
                      (put-Ends host places digests has_subdir calls q p bytes old.files plain
                        c).1),
              )
      ]
