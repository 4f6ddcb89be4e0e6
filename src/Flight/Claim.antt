-- ===== src/Flight/Claim.antt =====
-- What a caller gets from a flight, and the reference it holds.
use s3_cache.Prelude.{
  ℕ, ◌≡◌, refl, List, Option, none, some, false, ◌⊎◌, inl, inr, Option-cases, length,
}
use s3_cache.Prelude.Int.{ℤ, pos}
use s3_cache.Http.{Error}
use s3_cache.Chunk.{ChunkResult, close, size}
use s3_cache.Chunk.Slice.{served, IsWhole}
use s3_cache.Flight.{ChunkFlight, Claimed, unref, claim}

-- A flight that succeeded with these bytes, cached or not: the size is theirs, and so are the
-- contents of whatever os.Open finds under the path.
pub record Holds (bytes : List ℕ) (opened : Option (List ℕ)) (fl : ChunkFlight) : Type 0 where
  pub no_error : fl.error ≡ none
  pub sized : fl.size ≡ pos (length bytes)
  pub kept : (fl.buf ≡ some bytes) ⊎ ((fl.buf ≡ none) × (fl.pin ≡ some bytes))
  pub on_disk : (opened ≡ none) ⊎ (opened ≡ some bytes)

-- Whichever way a successful flight is claimed, from the buffer, a private handle or the pinned
-- handle, the result serves the bytes of the flight at their full size, and has no error.
pub claim-IsWhole :
    (id : ℕ) (chunk_start : ℤ) (opened : Option (List ℕ)) (fl : ChunkFlight) (bytes : List ℕ)
    → Holds bytes opened fl
    → let cr : ChunkResult Error = (claim id chunk_start opened fl).result in
      (cr.error ≡ none) × IsWhole cr × (served cr ≡ bytes) × (cr.chunk_start ≡ chunk_start)
unfolding claim size
claim-IsWhole id chunk_start opened fl bytes h = elim h.kept [
  | inl b ↦ rw (claim, h.no_error, b) (refl, refl, refl, refl)
  | inr (b, p) ↦ elim h.on_disk [
    | inl q ↦ rw (claim, h.no_error, b, q, p) (refl, h.sized, refl, refl)
    | inr q ↦ rw (claim, h.no_error, b, q) (refl, h.sized, refl, refl)
  ]
]

-- A claim accounts for exactly one reference: it drops it at once, or the result carries it and
-- drops it when it is closed.
pub claim_reference :
    (id : ℕ) (chunk_start : ℤ) (opened : Option (List ℕ)) (fl : ChunkFlight)
    → let c : Claimed = claim id chunk_start opened fl in
      (((c.flight, c.freed) ≡ unref fl) × ((close c.result).2 ≡ none))
      ⊎ ((c.flight ≡ fl) × (c.freed ≡ false) × ((close c.result).2 ≡ some id))
unfolding claim close
claim_reference id chunk_start opened fl = elim (Option-cases fl.error) [
  | inr (e, p) ↦ rw (claim, p) (inl (λ i. unref (record fl { error = p i }), refl))
  | inl p ↦ elim (Option-cases fl.buf) [
    | inr (b, q) ↦ rw (claim, p, q) (inr (λ i. record fl { error = p i; buf = q i }, refl, refl))
    | inl q ↦ elim (Option-cases opened) [
      | inr (o, r) ↦
          rw (claim, p, q, r) (inl (λ i. unref (record fl { error = p i; buf = q i }), refl))
      | inl r ↦ rw (claim, p, q, r) (inr (λ i. record fl { error = p i; buf = q i }, refl, refl))
    ]
  ]
]
