-- ===== src/Fetcher/Serve/Pieces.antt =====
-- What one turn of serveAligned writes, if the chunk that arrives holds the object's bytes.
use s3_cache.Prelude.{
  ℕ, ◌+◌, ◌-◌, ◌/◌, ◌≤◌, ◌≡◌, refl, ap, ◌∙◌, min, arith, List, none, some, Bool, length, take,
  extract, ltb, if◌then◌else◌, length-extract, extract-extract,
}
use s3_cache.Prelude.Int.{pos, pos_part}
use s3_cache.Chunk.{ChunkResult, client_gone, send, size, write_slice}
use s3_cache.Chunk.Slice.{served, IsWhole, write_slice-served}
use s3_cache.Http.{Error}
use s3_cache.Fetcher.Serve.{Bounds, chunk_bounds, Job, first_chunk, Arrival, got, cancelled, placed}
use s3_cache.Fetcher.Serve.Plan.{Fits, job, offset, from, to, offset-le, offset_reach, bounds_lem}

-- The bytes between two bounds, both included.
abbrev pub bytes_within : List ℕ → Bounds → List ℕ
bytes_within object b =
    extract object (pos_part b.c_start) (pos_part b.c_end + 1 - pos_part b.c_start)

-- A chunk that arrives without an error holds its bytes of the object.
abbrev pub Honest : List ℕ → Job → ℕ → Arrival → Type 0
Honest object j i cancelled = Unit {0}
Honest object j i (got res) =
    res.error ≡ none
    → IsWhole res
      × (served res ≡ bytes_within object (chunk_bounds j.chunk_size j.total (first_chunk j) i))

size_placed : (j : Job) (i : ℕ) (res : ChunkResult Error) → size (placed j i res) ≡ size res
unfolding size
size_placed j i res = refl

send_all :
    (room n : ℕ) (bytes : List ℕ)
    → length bytes ≡ n
    → send room n bytes
      ≡ (take room bytes, (if ltb room (length bytes) then some client_gone else none))
send_all room n bytes h = ground arith

module _ (object : List ℕ) (c s e : ℕ) (rr : Bool) (fits : Fits c s e (length object)) where
  open fits use {size_pos, ordered, inside, small}

  abbrev pub the_job : Job
  the_job = job c s e (length object) rr

  -- What the request wants of chunk `i`.
  abbrev pub piece : ℕ → List ℕ
  piece i = extract object (from c s i) (to c s e i - from c s i)

  -- The length of chunk `i`.
  abbrev chunk_length : ℕ → ℕ
  chunk_length i = min (offset c s i + c) (length object) - offset c s i

  served_lem :
      (i : ℕ) (res : ChunkResult Error)
      → s / c + i ≤ e / c
      → served res
        ≡ bytes_within object (chunk_bounds (pos c) (pos (length object)) (first_chunk the_job) i)
      → (served res ≡ extract object (offset c s i) (chunk_length i))
        × (length (served res) ≡ chunk_length i)
  served_lem i res h e1 =
      let same : min (offset c s i + c) (length object) - 1 + 1 - offset c s i ≡ chunk_length i =
        omega (arith, offset-le fits i h) in
      let bytes : served res ≡ extract object (offset c s i) (chunk_length i) =
        e1
        ∙ ap (bytes_within object) (bounds_lem fits rr i h)
        ∙ ap (λ n. extract object (offset c s i) n) same in
      (
        bytes,
        ap length bytes
            ∙ length-extract object (offset c s i) (chunk_length i)
                (omega (arith, offset-le fits i h)),
      )

  pub length-piece : (i : ℕ) → s / c + i ≤ e / c → length (piece i) ≡ to c s e i - from c s i
  length-piece i h =
      length-extract object (from c s i) (to c s e i - from c s i)
        (omega (arith, offset-le fits i h, offset_reach fits i))

  pub slice_of_chunk :
      (i room : ℕ) (res : ChunkResult Error)
      → s / c + i ≤ e / c
      → res.error ≡ none
      → Honest object the_job i (got res)
      → write_slice (placed the_job i res) (pos s) (pos e) room
        ≡ (take room (piece i), (if ltb room (length (piece i)) then some client_gone else none))
  slice_of_chunk i room res h ok_res honest =
      let (whole, same) = honest ok_res in
      let (bytes, len) = served_lem i res h same in
      let at : ℕ = offset c s i in
      let n : ℕ = min (e + 1 - at) (length (served res)) - (s - at) in
      let written : write_slice (placed the_job i res) (pos s) (pos e) room
          ≡ send room n (extract (served res) (s - at) n) =
        write_slice-served (placed the_job i res) at s e room (size_placed the_job i res ∙ whole)
          (ap (λ (b : Bounds). b.c_start) (bounds_lem fits rr i h))
          (omega (arith, len, offset-le fits i h)) (omega arith) (omega arith) in
      let k : n ≡ to c s e i - from c s i =
        omega (arith, len, offset-le fits i h, offset_reach fits i) in
      let lo : at + (s - at) ≡ from c s i = omega arith in
      let part : extract (served res) (s - at) n ≡ piece i =
        ap (λ (x : List ℕ). extract x (s - at) n) bytes
        ∙ extract-extract object at (chunk_length i) (s - at) n
            (omega (arith, len, offset-le fits i h, offset_reach fits i))
        ∙ ap (λ (x : ℕ). extract object x n) lo
        ∙ ap (λ (x : ℕ). extract object (from c s i) x) k in
      let told : send room n (extract (served res) (s - at) n)
          ≡ send room (to c s e i - from c s i) (piece i) =
        λ d. send room (k d) (part d) in
      written ∙ told ∙ send_all room (to c s e i - from c s i) (piece i) (length-piece i h)
