-- ===== src/Chunk/Slice.antt =====
-- chunkResult.writeSlice in terms of plain pieces of the chunk's bytes.
use s3_cache.Prelude.{
  ℕ, suc, ◌+◌, ◌-◌, ◌^◌, ◌<◌, ◌≡◌, refl, sym, zero, ◌∙◌, min, List, [], Option, none, some, true,
  arith, length, extract, Bool-cases, Option-cases, if◌then◌else◌, inl, inr,
}
use s3_cache.Prelude.Int.{ℤ, pos, negsuc, add64, sub64, leb_ℤ, pos_part, sub64_pos}
use s3_cache.Chunk.{
  ChunkResult, WriteError, send, size, copy_slice, write_slice, bytes_or_nil, slice_start,
  slice_end,
}

sub_of_leb : (to : ℤ) (a : ℕ) → leb_ℤ to (pos a) ≡ true → pos_part to - a ≡ 0
sub_of_leb (pos b) a h = ground arith
sub_of_leb (negsuc b) a h = omega arith

send_nil : (room : ℕ) → send room 0 [] ≡ ([], none)
send_nil zero = refl
send_nil (suc n) = ground arith

slice_start_lem : (cs s : ℕ) → s < 2 ^ 63 → slice_start (pos cs) (pos s) ≡ pos (s - cs)
unfolding slice_start
slice_start_lem cs s h = ground (arith, sub64_pos s cs)

-- A negative end counts as 0: nothing lies before it.
slice_end_part :
    (cs len e : ℕ)
    → cs + len < 2 ^ 63
    → e < 2 ^ 63
    → pos_part (slice_end (pos cs) (pos len) (pos e)) ≡ min (e + 1 - cs) len
unfolding slice_end add64 sub64
slice_end_part cs len e h k = ground arith

module _ {ℓ} {E : Type ℓ} where
  -- The bytes that a successful result serves, wherever they are.
  abbrev pub served : ChunkResult E → List ℕ
  served cr = elim cr.file [
    | some bytes ↦ bytes
    | none ↦ elim cr.section [ some bytes ↦ bytes | none ↦ bytes_or_nil cr.payload ]
  ]

  -- The recorded size is that of the bytes.
  abbrev pub IsWhole : ChunkResult E → Type 0
  IsWhole cr = size cr ≡ pos (length (served cr))

  copy_slice-served :
      (cr : ChunkResult E) (a room : ℕ) (to : ℤ)
      → copy_slice cr (pos a) to room
        ≡ send room (pos_part to - a) (extract (served cr) a (pos_part to - a))
  unfolding copy_slice
  copy_slice-served cr a room to = elim (Option-cases cr.file) [
    | inl p ↦ elim (Option-cases cr.section) [
      | inl q ↦ rw (copy_slice, p, q) refl
      | inr (x, q) ↦ rw (copy_slice, p, q) refl
    ]
    | inr (x, p) ↦ rw (copy_slice, p) refl
  ]

  send_slice :
      (cr : ChunkResult E) (a room : ℕ) (to : ℤ)
      → (if leb_ℤ to (pos a) then ([], none) else copy_slice cr (pos a) to room)
        ≡ send room (pos_part to - a) (extract (served cr) a (pos_part to - a))
  send_slice cr a room to = elim (Bool-cases (leb_ℤ to (pos a))) [
    | inl e ↦ let z : pos_part to - a ≡ 0 = sub_of_leb to a e in rw (e, z) (sym (send_nil room))
    | inr e ↦ rw e (copy_slice-served cr a room to)
  ]

  -- writeSlice sends exactly the bytes of the chunk at offset `cs` that lie in [s, e], at most as many
  -- as the client takes, wherever the bytes are kept. The size of the chunk is that of its bytes, and
  -- the offsets fit an int64.
  pub write_slice-served :
      (cr : ChunkResult E) (cs s e room : ℕ)
      → IsWhole cr
      → cr.chunk_start ≡ pos cs
      → cs + length (served cr) < 2 ^ 63
      → s < 2 ^ 63
      → e < 2 ^ 63
      → let n : ℕ = min (e + 1 - cs) (length (served cr)) - (s - cs) in
        write_slice cr (pos s) (pos e) room ≡ send room n (extract (served cr) (s - cs) n)
  unfolding write_slice
  write_slice-served cr cs s e room whole at_cs fits hs he =
      let part : ℤ → ℤ → List ℕ × Option WriteError = λ c len.
        if leb_ℤ (slice_end c len (pos e)) (slice_start c (pos s))
        then ([], none)
        else copy_slice cr (slice_start c (pos s)) (slice_end c len (pos e)) room in
      let len : ℕ = length (served cr) in
      let to : ℤ = slice_end (pos cs) (pos len) (pos e) in
      let placed : write_slice cr (pos s) (pos e) room ≡ part (pos cs) (pos len) =
        λ i. part (at_cs i) (whole i) in
      let started : part (pos cs) (pos len)
          ≡ send room (pos_part to - (s - cs))
              (extract (served cr) (s - cs) (pos_part to - (s - cs))) =
        rw (slice_start_lem cs s hs) (send_slice cr (s - cs) room to) in
      placed ∙ started ∙ rw (slice_end_part cs len e fits he) refl
