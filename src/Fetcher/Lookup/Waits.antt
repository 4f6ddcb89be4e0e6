-- ===== src/Fetcher/Lookup/Waits.antt =====
-- services/fetcher.go, fetchChunk: callers who leave, and their references.
use s3_cache.Prelude.{ℕ, ◌≡◌, ◌≢◌, ◌⊎◌, refl, ap, inl, inr, List, Option, none, some, false}
use s3_cache.Prelude.Int.{ℤ}
use s3_cache.Http.{Error}
use s3_cache.Chunk.{ChunkResult, close}
use s3_cache.Flight.{ChunkFlight, unref, claim}
use s3_cache.Flight.Claim.{claim_reference}
use s3_cache.Fetcher.Lookup.{Wait, left_queue, left_fetch, handed, deliver, close_unread}

close_unread_lem :
    (id : ℕ) (start : ℤ) (opened : Option (List ℕ)) (fl : ChunkFlight)
    → close_unread (claim id start opened fl) ≡ unref fl
unfolding close unref
close_unread_lem id start opened fl = elim (claim_reference id start opened fl) [
  | inl (dropped, none_held) ↦ rw none_held dropped
  | inr (kept, not_freed, held) ↦ rw held (ap unref kept)
]

-- The result of a fetch, at each of its callers. One who left drops its reference, once, whatever the
-- fetch came to and whenever it left. One who is handed the result either dropped its reference when
-- the result was claimed, or has it until the result is closed.
pub deliver_reference :
    (w : Wait) (id : ℕ) (start : ℤ) (opened : Option (List ℕ)) (fl : ChunkFlight)
    → let (got, fl', freed) = deliver w id start opened fl in
      (w ≢ handed → (got ≡ none) × ((fl', freed) ≡ unref fl))
      × (w ≡ handed
          → (cr : ChunkResult Error) × (got ≡ some cr)
            × ((((fl', freed) ≡ unref fl) × ((close cr).2 ≡ none))
                ⊎ ((fl' ≡ fl) × (freed ≡ false) × ((close cr).2 ≡ some id))))
unfolding deliver
deliver_reference left_queue id start opened fl =
    (λ left. (refl, close_unread_lem id start opened fl), λ e. absurd (cc))
deliver_reference left_fetch id start opened fl =
    (λ left. (refl, close_unread_lem id start opened fl), λ e. absurd (cc))
deliver_reference handed id start opened fl = (
  λ left. absurd (left refl),
  λ e. ((claim id start opened fl).result, refl, claim_reference id start opened fl),
)
