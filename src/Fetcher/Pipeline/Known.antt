-- ===== src/Fetcher/Pipeline/Known.antt =====
-- services/fetcher.go, serveAligned: what is known of the consumer alone (Fetcher/Serve) once some of its
-- chunks are written.
use s3_cache.Prelude.{
  ℕ, suc, ◌<◌, ◌≡◌, refl, ap, sym, ◌∙◌, subst, Option, none, Bool, true, false, arith, List, [],
  ◌∷◌, ◌++◌, if◌then◌else◌, ◌==◌,
}
use s3_cache.Prelude.Int.{ℤ, pos}
use s3_cache.Singleflight.{update}
use s3_cache.Chunk.{ChunkResult, WriteError}
use s3_cache.Http.{Writer, Error}
use s3_cache.WriteGuard.{WriteGuard, hold}
use s3_cache.Fetcher.Serve.{
  Arrival, got, cancelled, Turn, Outcome, ServeError, write_failed, Job, holds, serve_aligned,
}
use s3_cache.Fetcher.Pipeline.{refuse}
use s3_cache.Fetcher.Pipeline.Turns.{rest, over_with}

-- What the consumer finds of chunk `i`: a result that its fetch delivered, or the end of the context.
abbrev pub Delivers : (ℕ → ChunkResult Error → Type 0) → ℕ → Arrival → Type 0
Delivers P i cancelled = Unit {0}
Delivers P i (got res) = P i res

pub holds-snoc :
    (l : List ℤ) (now : ℤ) (g : WriteGuard) → holds (l ++ now ∷ []) g ≡ hold now (holds l g)
holds-snoc [] now g = refl
holds-snoc (x ∷ l) now g = holds-snoc l now (hold x g)

-- The guard after some calls of hold.
abbrev pub Held : WriteGuard → WriteGuard → Type 0
Held g g' = (l : List ℤ) × (g' ≡ holds l g)

pub Held-hold :
    {g g' : WriteGuard} (b : Bool) (now : ℤ) → Held g g' → Held g (if b then hold now g' else g')
Held-hold {g} true now (l, e) = (l ++ now ∷ [], ap (hold now) e ∙ sym (holds-snoc l now g))
Held-hold false now h = h

pub refuse_write : (b : Bool) (why : WriteError) (w : Writer) → refuse b (write_failed why) w ≡ w
unfolding refuse
refuse_write true why w = refl
refuse_write false why w = refl

abbrev pub no_turn : Turn
no_turn = record { arrival = cancelled; before = []; now = pos 0; during = []; flush_ok = true }

module _ (j : Job) (g0 : WriteGuard) (w0 : Writer) (P : ℕ → ChunkResult Error → Type 0) where
  -- The consumer has written `i` chunks, which arrived as `ts` says.
  pub record Upto (i : ℕ) (g : WriteGuard) (w : Writer) : Type 0 where
    pub ts : ℕ → Turn
    pub sound : (k : ℕ) → Delivers P k (ts k).arrival
    pub same :
        (turns : ℕ → Turn)
        → ((k : ℕ) → k < i → turns k ≡ ts k)
        → serve_aligned j turns g0 w0 ≡ rest j turns i g w

  -- What the client has seen of a request that ends so.
  pub record Ending (failed : Option ServeError) (kick : Option ℤ) (w : Writer) : Type 0 where
    pub turns : ℕ → Turn
    pub sound : (k : ℕ) → Delivers P k (turns k).arrival
    pub writer : (serve_aligned j turns g0 w0).writer ≡ w
    pub failed_same : (serve_aligned j turns g0 w0).failed ≡ failed
    pub kick_same : (serve_aligned j turns g0 w0).kick ≡ kick

  -- The turns so far, and that of chunk `i`.
  abbrev pub next_turns : {i : ℕ} {g : WriteGuard} {w : Writer} → Upto i g w → Turn → ℕ → Turn
  next_turns {i} u t = update u.ts i t

  pub next_sound :
      {i : ℕ} {g : WriteGuard} {w : Writer} (u : Upto i g w) (t : Turn)
      → Delivers P i t.arrival
      → (k : ℕ) → Delivers P k (next_turns u t k).arrival
  next_sound {i} u t d k = go (i == k) (λ h. ground (arith, h))
    where
      go : (b : Bool) → (b ≡ true → i ≡ k) → Delivers P k (if b then t else u.ts k).arrival
      go true h = subst (λ m. Delivers P m t.arrival) (h refl) d
      go false h = u.sound k

  pub next_same :
      {i : ℕ} {g : WriteGuard} {w : Writer} (u : Upto i g w) (t : Turn)
      → (turns : ℕ → Turn) → ((k : ℕ) → k < suc i → turns k ≡ next_turns u t k)
      → (serve_aligned j turns g0 w0 ≡ rest j turns i g w) × (turns i ≡ t)
  next_same {i} u t turns agree =
      (u.same turns (λ k lt. ground (arith, agree k)), ground (arith, agree i))

  -- A request that ends with the turn of chunk `i`.
  pub ending :
      {i : ℕ} {g : WriteGuard} {w : Writer} (u : Upto i g w) (t : Turn)
      → Delivers P i t.arrival
      → {failed : Option ServeError} {g' : WriteGuard} {w' : Writer}
      → ((turns : ℕ → Turn) → turns i ≡ t → rest j turns i g w ≡ over_with j failed g' w')
      → Ending failed none w'
  ending {i} u t d h =
      let ts = next_turns u t in
      let (before, here) = next_same u t ts (λ k lt. refl) in
      let all = before ∙ h ts here in
      record {
        turns = ts;
        sound = next_sound u t d;
        writer = ap (λ (o : Outcome). o.writer) all;
        failed_same = ap (λ (o : Outcome). o.failed) all;
        kick_same = ap (λ (o : Outcome). o.kick) all;
      }
