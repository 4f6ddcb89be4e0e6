-- ===== src/Fetcher/Pipeline/Account.antt =====
-- services/fetcher.go, serveAligned: an account of where the result of each chunk is.
use s3_cache.Prelude.{
  ℕ, zero, suc, ◌+◌, ◌<◌, ◌≤◌, ◌≡◌, refl, Option, none, some, Bool, true, false, arith, is_some,
  if◌then◌else◌, ◌==◌,
}
use native.Mathlib.Decide.{dec_lt}
use s3_cache.Prelude.Int.{ℤ}
use s3_cache.Chunk.{ChunkResult}
use s3_cache.Http.{Error}
use s3_cache.Fetcher.Dispatch.{Phase, idle, arrived}
use s3_cache.Fetcher.Dispatch.Order.{Run, Run-Inv}
use s3_cache.Fetcher.Serve.{ServeError, fetch_failed, Job, n_chunks}
use s3_cache.Fetcher.Pipeline.{
  Place, reading, writing, aborting, returned, Pipeline, cleanup_pending, AllDone,
}

abbrev pub flag : Bool → ℕ
flag b = if b then 1 else 0

abbrev pub delivered : Phase → ℕ
delivered arrived = 1
delivered _ = 0

-- Whether the consumer, at chunk `written`, has taken a result that it has not closed: the one that
-- it writes, or an error.
abbrev pub in_hand : Place → ℕ → ℕ → ℕ
in_hand (writing cr) written i = flag (written == i)
in_hand (aborting (fetch_failed e)) written i = flag (written == i)
in_hand (returned (some (fetch_failed e)) kick) written i = flag (written == i)
in_hand _ written i = 0

abbrev pub at_work : Place → Bool
at_work reading = true
at_work (writing cr) = true
at_work _ = false

-- Where the result of a chunk is, once it was delivered: closed, in its channel, or in the hand of the
-- consumer.
abbrev pub Accounted : Pipeline → ℕ → Type 0
Accounted s i =
    s.closed i + flag (is_some (s.channels i)) + in_hand s.place s.dispatch.written i
    ≡ delivered (s.dispatch.phases i)

-- Once serveAligned has returned, nothing of it goes on.
pub record Over (s : Pipeline) : Type 0 where
  pub done : AllDone s.dispatch
  pub emptied : (i : ℕ) → s.channels i ≡ none

pub record Books (workers : ℤ) (j : Job) (s : Pipeline) : Type 0 where
  pub run : Run workers (n_chunks j) s.dispatch
  pub accounted : (i : ℕ) → Accounted s i
  pub closed_before : (i : ℕ) → i < s.dispatch.written → s.closed i ≡ 1
  pub ahead : at_work s.place ≡ true → (i : ℕ) → s.dispatch.written ≤ i → s.closed i ≡ 0
  pub cut : (e : ServeError) → s.place ≡ aborting e → s.dispatch.ended ≡ true
  pub over : (f : Option ServeError) (k : Option ℤ) → s.place ≡ returned f k → Over s

cleaned :
    (k : ℕ) (channels : ℕ → Option (ChunkResult Error)) (closed : ℕ → ℕ) (i : ℕ)
    → let r = cleanup_pending k (channels, closed) in
      (i < k → (r.0 i ≡ none) × (r.1 i ≡ closed i + flag (is_some (channels i))))
      × (k ≤ i → (r.0 i ≡ channels i) × (r.1 i ≡ closed i))
unfolding cleanup_pending
cleaned zero channels closed i = (λ h. absurd (omega arith), λ h. (refl, refl))
cleaned (suc k) channels closed i =
    ground (arith, cleaned k channels closed i, cleaned k channels closed k)

module _ {workers : ℤ} {j : Job} {s : Pipeline} (b : Books workers j s) where
  pub head_arrived :
      (cr : ChunkResult Error)
      → s.place ≡ writing cr
      → s.dispatch.phases s.dispatch.written ≡ arrived
  head_arrived cr p = ground (arith, b.accounted s.dispatch.written, p)

  begun-lt : (i : ℕ) → s.dispatch.phases i ≡ arrived → i < n_chunks j
  begun-lt i h = elim (dec_lt i (n_chunks j)) [
    | yes lt ↦ lt
    | no ge ↦
        let v = Run-Inv b.run in absurd (ground (arith, h, v.fresh i (omega (arith, v.within))))
  ]

  -- A chunk whose result is in its channel, or in the hand of the consumer, is one of the request's.
  pub filled-lt : (i : ℕ) {cr : ChunkResult Error} → s.channels i ≡ some cr → i < n_chunks j
  filled-lt i h = begun-lt i (ground (arith, b.accounted i, h))

  pub writing-lt : {cr : ChunkResult Error} → s.place ≡ writing cr → s.dispatch.written < n_chunks j
  writing-lt {cr} p = begun-lt s.dispatch.written (head_arrived cr p)

  pub cleaned_up :
      (i : ℕ)
      → let r = cleanup_pending s.dispatch.n_chunks (s.channels, s.closed) in
        (r.0 i ≡ none) × (r.1 i ≡ s.closed i + flag (is_some (s.channels i)))
  cleaned_up i =
      let v = Run-Inv b.run in
      let (below, beyond) = cleaned s.dispatch.n_chunks s.channels s.closed i in
      elim (dec_lt i s.dispatch.n_chunks) [
        | yes lt ↦ below lt
        | no ge ↦
            let unused : s.dispatch.phases i ≡ idle =
              v.fresh i (omega (arith, v.within, v.same_count)) in
            ground (arith, beyond (omega arith), b.accounted i, unused)
      ]
