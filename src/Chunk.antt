-- ===== src/Chunk.antt =====
-- services/chunk.go, chunkResult: one chunk on its way from the fetch to the client.
pub mod Slice
use s3_cache.Prelude.{
  ℕ, ◌-◌, List, [], Option, none, some, Bool, true, false, ◌||◌, is_some, if◌then◌else◌, ltb,
  length, take, extract, arith, ◌≡◌, refl,
}
use s3_cache.Prelude.Int.{ℤ, pos, pos_part, ltb_ℤ, leb_ℤ, add64, sub64}

-- Where the bytes came from.
pub data Via : Type 0 where
  hit file pinned buffer : Via

-- `file` and `section` stand for readers by the bytes that they read; `done` names the shared
-- flight whose reference is held.
pub record ChunkResult {ℓ} (E : Type ℓ) : Type ℓ where
  pub payload : Option (List ℕ)
  pub file : Option (List ℕ)
  pub section : Option (List ℕ)
  pub file_size : ℤ
  pub error : Option E
  pub chunk_start : ℤ
  pub via : Option Via
  pub done : Option ℕ

-- Why a write stopped: the client took no more (it is gone, or was
-- cut off by the write deadline), the file ended early, or the flush behind the write failed.
pub data WriteError : Type 0 where
  client_gone short_source flush_failed : WriteError

-- What reaches a client that takes `room` more bytes, of `bytes` out of the `n` to be copied.
abbrev pub send : ℕ → ℕ → List ℕ → List ℕ × Option WriteError
send room n bytes = (
  take room bytes,
  (if ltb room (length bytes)
      then some client_gone
      else if ltb (length bytes) n
      then some short_source
      else none),
)

abbrev pub bytes_or_nil : Option (List ℕ) → List ℕ
bytes_or_nil none = []
bytes_or_nil (some bytes) = bytes

-- The variables sliceStart and sliceEnd of writeSlice.
unfoldable pub slice_start : ℤ → ℤ → ℤ
slice_start chunk_start req_start =
    if ltb_ℤ chunk_start req_start then sub64 req_start chunk_start else pos 0

unfoldable pub slice_end : ℤ → ℤ → ℤ → ℤ
slice_end chunk_start size req_end =
    let chunk_end : ℤ = sub64 (add64 chunk_start size) (pos 1) in
    if ltb_ℤ req_end chunk_end then add64 (sub64 req_end chunk_start) (pos 1) else size

module _ {ℓ} {E : Type ℓ} where
  unfoldable pub size : ChunkResult E → ℤ
  size cr =
      if is_some cr.file || is_some cr.section
      then cr.file_size
      else pos (length (bytes_or_nil cr.payload))

  -- The bytes [from, to) of the chunk, copied to the client.
  unfoldable pub copy_slice : ChunkResult E → ℤ → ℤ → ℕ → List ℕ × Option WriteError
  copy_slice cr from to room =
      let n : ℕ = pos_part to - pos_part from in
      elim cr.file [
        | some bytes ↦ send room n (extract bytes (pos_part from) n)
        | none ↦ elim cr.section [
          | some bytes ↦ send room n (extract bytes (pos_part from) n)
          | none ↦ send room n (extract (bytes_or_nil cr.payload) (pos_part from) n)
        ]
      ]

  unfoldable pub write_slice : ChunkResult E → ℤ → ℤ → ℕ → List ℕ × Option WriteError
  write_slice cr req_start req_end room =
      let from : ℤ = slice_start cr.chunk_start req_start in
      let to : ℤ = slice_end cr.chunk_start (size cr) req_end in
      if leb_ℤ to from then ([], none) else copy_slice cr from to room

  -- `close` returns what it leaves of the result, whether it closed a file, and the flight whose
  -- reference it dropped.
  unfoldable pub close : ChunkResult E → ChunkResult E × Bool × Option ℕ
  close cr = (
    record cr { file = none; section = none; payload = none; done = none },
    is_some cr.file,
    cr.done,
  )

  -- A second close does nothing.
  pub close_twice : (cr : ChunkResult E) → close (close cr).0 ≡ ((close cr).0, false, none)
  unfolding close
  close_twice cr = refl
