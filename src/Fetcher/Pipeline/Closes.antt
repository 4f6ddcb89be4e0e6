-- ===== src/Fetcher/Pipeline/Closes.antt =====
-- services/fetcher.go, serveAligned: every result that a fetch delivers is closed, and only once.
use s3_cache.Prelude.{
  ℕ, ◌+◌, ◌≡◌, ◌≢◌, ◌⊎◌, refl, ap, inl, inr, Option, none, some, arith, ◌==◌, Bool-cases,
}
use s3_cache.Prelude.Int.{ℤ}
use s3_cache.Chunk.{ChunkResult}
use s3_cache.Http.{Writer, Error}
use s3_cache.WriteGuard.{WriteGuard}
use s3_cache.Fetcher.Dispatch.{Phase, idle, queued, admitted, arrived}
use s3_cache.Fetcher.Serve.{ServeError, fetch_failed, write_failed, request_cancelled, Job}
use s3_cache.Fetcher.Pipeline.{returned, Pipeline, Serving}
use s3_cache.Fetcher.Pipeline.Account.{delivered, in_hand}
use s3_cache.Fetcher.Pipeline.Books.{Serving-Books}

-- The consumer took the error of chunk `i` from its channel, as its last one.
abbrev pub TookError : Option ServeError → ℕ → ℕ → Type 0
TookError failed written i = (e : Error) × (failed ≡ some (fetch_failed e)) × (i ≡ written)

hand-cases :
    (failed : Option ServeError) (kick : Option ℤ) (written i : ℕ)
    → (in_hand (returned failed kick) written i ≡ 0)
      ⊎ ((in_hand (returned failed kick) written i ≡ 1) × TookError failed written i)
hand-cases none kick written i = inl refl
hand-cases (some (write_failed why)) kick written i = inl refl
hand-cases (some request_cancelled) kick written i = inl refl
hand-cases (some (fetch_failed e)) kick written i = elim (Bool-cases (written == i)) [
  | inl h ↦ inr (ground (arith, h), (e, refl, ground (arith, h)))
  | inr h ↦ inl (ground (arith, h))
]

settle :
    (A : Type 0) (ph : Phase) (closed hand : ℕ)
    → ph ≢ queued
    → ph ≢ admitted
    → closed + hand ≡ delivered ph
    → (hand ≡ 0) ⊎ ((hand ≡ 1) × A)
    → ((ph ≡ idle) × (closed ≡ 0)) ⊎ ((ph ≡ arrived) × ((closed ≡ 1) ⊎ ((closed ≡ 0) × A)))
settle A idle closed hand h k c x = inl (refl, omega arith)
settle A queued closed hand h k c x = absurd (h refl)
settle A admitted closed hand h k c x = absurd (k refl)
settle A arrived closed hand h k c (inl z) = inr (refl, inl (omega arith))
settle A arrived closed hand h k c (inr (one, a)) = inr (refl, inr (omega arith, a))

-- Nothing leaks and nothing is closed twice: over every interleaving of the dispatcher, the fetches, the
-- end of the context and the consumer, once serveAligned has returned, every chunk either was never
-- started, and nothing of it was closed, or has had its result delivered, which was closed once, or
-- else is the error that the consumer took of its last chunk. No channel holds a result any more.
pub closed_once :
    {workers : ℤ} {j : Job} {g : WriteGuard} {w : Writer} {P : ℕ → ChunkResult Error → Type 0}
    {s : Pipeline} {failed : Option ServeError} {kick : Option ℤ}
    → Serving workers j g w P s
    → s.place ≡ returned failed kick
    → (i : ℕ)
    → (s.channels i ≡ none)
      × (((s.dispatch.phases i ≡ idle) × (s.closed i ≡ 0))
          ⊎ ((s.dispatch.phases i ≡ arrived)
              × ((s.closed i ≡ 1) ⊎ ((s.closed i ≡ 0) × TookError failed s.dispatch.written i))))
closed_once {s = s} {failed} {kick} r p i =
    let b = Serving-Books r in
    let v = b.over failed kick p in
    let hand : ℕ = in_hand (returned failed kick) s.dispatch.written i in
    let count : s.closed i + hand ≡ delivered (s.dispatch.phases i) =
      ground (arith, b.accounted i, v.emptied i, ap (λ q. in_hand q s.dispatch.written i) p) in
    (
      v.emptied i,
      settle (TookError failed s.dispatch.written i) (s.dispatch.phases i) (s.closed i) hand
          (v.done.quiet i).0 (v.done.quiet i).1 count (hand-cases failed kick s.dispatch.written i),
    )
