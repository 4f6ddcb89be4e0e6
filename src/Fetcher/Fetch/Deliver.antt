-- ===== src/Fetcher/Fetch/Deliver.antt =====
-- services/fetcher.go, from the published flight of a fetch to the chunk that the consumer of
-- serveAligned finds.
use s3_cache.Prelude.{
  ℕ, ◌+◌, ◌-◌, ◌/◌, ◌≤◌, ◌≡◌, ◌⊎◌, refl, ap, ◌∙◌, List, Option, none, some, Bool, arith, length,
  extract, min,
}
use s3_cache.Prelude.Int.{ℤ, pos}
use s3_cache.Http.{Error}
use s3_cache.Flight.{ChunkFlight, claim}
use s3_cache.Flight.Claim.{claim-IsWhole}
use s3_cache.Fetcher.Serve.{chunk_bounds, first_chunk, Job, got}
use s3_cache.Fetcher.Serve.Plan.{Fits, job, offset, offset-le, bounds_lem}
use s3_cache.Fetcher.Serve.Pieces.{Honest, bytes_within}
use s3_cache.Fetcher.Fetch.Publish.{Published, failed, held}

claim_error :
    (id : ℕ) (cs : ℤ) (opened : Option (List ℕ)) (fl : ChunkFlight) (e : Error)
    → fl.error ≡ some e
    → (claim id cs opened fl).result.error ≡ some e
unfolding claim
claim_error id cs opened fl e p = rw (claim, p) refl

module _ (object : List ℕ) (c s e : ℕ) (rr : Bool) (fits : Fits c s e (length object)) where
  abbrev pub chunk_length : ℕ → ℕ
  chunk_length i = min (offset c s i + c) (length object) - offset c s i

  wanted :
      (i : ℕ)
      → s / c + i ≤ e / c
      → let j : Job = job c s e (length object) rr in
        extract object (offset c s i) (chunk_length i)
        ≡ bytes_within object (chunk_bounds j.chunk_size j.total (first_chunk j) i)
  wanted i h = rw (bounds_lem fits rr i h) (
      ap (λ (n : ℕ). extract object (offset c s i) n)
        (omega (arith, offset-le fits i h, fits.inside, fits.size_pos)))

  -- A caller claims the flight that a fetch published for chunk `i` of a request: if os.Open finds
  -- nothing under its path, or the chunk's bytes, what arrives at the consumer is an error or those bytes.
  pub claim-Honest :
      (i id : ℕ) (opened : Option (List ℕ)) (fl : ChunkFlight)
      → s / c + i ≤ e / c
      → Published (extract object (offset c s i) (chunk_length i)) fl
      → (opened ≡ none) ⊎ (opened ≡ some (extract object (offset c s i) (chunk_length i)))
      → Honest object
          (job c s e (length object) rr)
          i
          (got (claim id (pos (offset c s i)) opened fl).result)
  claim-Honest i id opened fl h (failed err p) found =
      λ q. absurd (ground (arith, claim_error id (pos (offset c s i)) opened fl err p))
  claim-Honest i id opened fl h (held holds) found = λ q.
      let (ok_error, whole, bytes, at) =
        claim-IsWhole id (pos (offset c s i)) opened fl
          (extract object (offset c s i) (chunk_length i)) (holds opened found) in
      (whole, bytes ∙ wanted i h)
