-- ===== src/Cache/Access/Versions.antt =====
-- services/cache.go: what Get and Put do to the chunks that lie on disk.
use s3_cache.Prelude.{
  ℕ, ◌≡◌, inl, inr, refl, ap, ◌∙◌, List, [], ◌++◌, none, some, true, false, ok, Option-cases,
  Result-cases, length,
}
use s3_cache.Prelude.Int.{ℤ, pos}
use s3_cache.Prelude.Assoc.{Key, same, same_refl, lookup}
use s3_cache.Prelude.Text.{codes}
use s3_cache.Prelude.Paths.{split_path, clean}
use s3_cache.Fetcher.Get.{ObjVersion}
use s3_cache.Cache.Shards.{Host}
use s3_cache.Cache.Names.{Places, chunk_path}
use s3_cache.Cache.Names.Distinct.{IsDigest}
use s3_cache.Cache.Files.{FileNode, Files, CacheState, Calls, Times, no_shard, open_file, file_of}
use s3_cache.Cache.Access.{
  hit, put_failed, put_at, get_chunk, put_chunk, marked, put_path, put_wrote, get_path, get_found,
  serve_found,
}
use s3_cache.Cache.Access.Disks.{Ends, write_file-Ends}
use s3_cache.Cache.Access.Kept.{PlainTemp, IsChunkPath, chunk_ne_dotted, Lacks-tmp, chunk_lacks}

module _ (host : Host) (places : Places) (digests : (s : List ℕ) → IsDigest (host.digest s))
    (has_subdir : same places.subdir [] ≡ false) where
  -- What a put does to a file that is a chunk, or may be one.
  pub put-Ends :
      (calls : Calls) (q p bytes : List ℕ) (files : Files)
      → PlainTemp calls
      → IsChunkPath host places digests has_subdir q
      → Ends calls.writing q p bytes files (put_wrote calls p bytes files)
  put-Ends calls q p bytes files plain c =
      write_file-Ends calls.writing true (clean (split_path p).0) (codes ".tmp_chunk_") p bytes q
        files
        (λ star t.
          chunk_ne_dotted host places digests has_subdir q (clean (split_path p).0)
            (codes "tmp_chunk_" ++ star) c
            (Lacks-tmp (codes "tmp_chunk_") star chunk_lacks (plain.1 star t)))

  put_at_lem :
      (calls : Calls) (q p bytes : List ℕ) (st : CacheState)
      → (put_path calls (ok q) bytes st).1 ≡ put_at p
      → (q ≡ p) × ((put_wrote calls q bytes st.files).failed ≡ none)
  unfolding put_path
  put_at_lem calls q p bytes st done =
      elim (Option-cases (put_wrote calls q bytes st.files).failed) [
        | inl f ↦ let r : put_at q ≡ put_at p = rw (put_path, f) at done in (cc, f)
        | inr (e, f) ↦ let r : put_failed e ≡ put_at p = rw (put_path, f) at done in absurd (cc)
      ]

  get_stored :
      (times : Times) (later : Calls) (key : Key) (v : ObjVersion) (offset : ℤ) (q : List ℕ)
      (f : FileNode) (st : CacheState)
      → lookup q st.files ≡ some f
      → later.opens q ≡ true
      → later.stat_ok ≡ true
      → (get_path host places times later key v offset (ok q) st).1
        ≡ hit f.bytes (pos (length f.bytes))
  unfolding get_path get_found open_file serve_found
  get_stored times later key v offset q f st there opens stats =
      rw (get_path, open_file, opens, there, get_found, serve_found, stats) refl

  put_stored :
      (calls : Calls) (q bytes : List ℕ) (st : CacheState)
      → PlainTemp calls
      → IsChunkPath host places digests has_subdir q
      → (put_wrote calls q bytes st.files).failed ≡ none
      → lookup q (put_path calls (ok q) bytes st).0.files ≡ some (file_of bytes calls.writing.now)
  unfolding put_path
  put_stored calls q bytes st plain c f =
      (put-Ends calls q q bytes st.files plain c).0 ∙ rw (f, same_refl q) refl

  -- A chunk that was put is a hit with its bytes, as long as the file can be opened and its size read.
  -- Digests have 40 hexadecimal digits, the cache has a subdirectory, and the temporary name has no
  -- slash.
  pub get_chunk-put_chunk :
      (times : Times) (calls later : Calls) (key : Key) (v : ObjVersion) (offset : ℤ)
      (bytes p : List ℕ) (st : CacheState)
      → PlainTemp calls
      → (put_chunk host (some places) times calls key v offset bytes st).1 ≡ put_at p
      → later.opens p ≡ true
      → later.stat_ok ≡ true
      → (get_chunk host
          (some places)
          times
          later
          key
          v
          offset
          (put_chunk host (some places) times calls key v offset bytes st).0).1
        ≡ hit bytes (pos (length bytes))
  unfolding put_chunk put_path get_chunk
  get_chunk-put_chunk times calls later key v offset bytes p st plain done opens stats =
      let old : CacheState = marked host places times calls key v st in
      elim (Result-cases (chunk_path host places key v offset)) [
        | inr (e, r) ↦
            let clash : put_failed (no_shard e) ≡ put_at p = rw (put_chunk, r) at done in
            absurd (cc)
        | inl (q, r) ↦
            let (at_p, f) = put_at_lem calls q p bytes old (rw (put_chunk, r) at done) in
            rw (put_chunk, get_chunk, r)
              (get_stored times later key v offset q (file_of bytes calls.writing.now)
                (put_path calls (ok q) bytes old).0
                (put_stored calls q bytes old plain (key, v, offset, r) f)
                (ap later.opens at_p ∙ opens) stats)
      ]
