-- ===== src/Fetcher/Node/Progress.antt =====
-- services/fetcher.go: no set of requests and fetches blocks itself on the buffer budget.
use s3_cache.Prelude.{
  ℕ, ◌<◌, ◌≤◌, ◌≡◌, ◌≢◌, ◌⊎◌, refl, ap, sym, ◌∙◌, subst, inl, inr, true, false, Option, none, some,
  arith, any-witness, Bool-cases, Option-cases, sum_of_pos,
}
use native.Mathlib.Decide.{dec_lt}
use s3_cache.Prelude.Int.{ℤ}
use s3_cache.Fetcher.Dispatch.{Phase, idle, queued, admitted, arrived}
use s3_cache.Fetcher.Dispatch.Order.{Run-Inv, in_order, head_advances}
use s3_cache.Fetcher.Node.{
  Stage, pending, downloading, buffered, stored, failed, Node, stage_of, chunk_stage, is_granted,
  is_published, is_failed, keeps_flight, is_held, is_flight, Work, leads, grants, stores, frees,
  admits, arrives, writes, stops, Reach,
}
use s3_cache.Fetcher.Node.Invariant.{unit_of, Inv, Reach-Inv}

-- Some work can be done.
abbrev pub CanWork : Node → Type 0
CanWork n = (n' : Node) × Work n n'

-- What a stage that is not published, but granted, or published but not failed, comes to.
Stage-cases : (s : Stage) → (s ≡ pending) ⊎ ((s ≡ downloading) ⊎ (is_published s ≡ true))
Stage-cases pending = inl refl
Stage-cases downloading = inr (inl refl)
Stage-cases buffered = inr (inr refl)
Stage-cases stored = inr (inr refl)
Stage-cases failed = inr (inr refl)

granted-cases : (s : Stage) → (s ≡ downloading) ⊎ (is_published s ≡ true) → is_granted s ≡ true
granted-cases pending h = ground arith
granted-cases downloading h = refl
granted-cases buffered h = refl
granted-cases stored h = refl
granted-cases failed h = refl

unit-cases : (s : Stage) → 0 < unit_of s → (s ≡ downloading) ⊎ (s ≡ buffered)
unit-cases pending h = absurd (omega arith)
unit-cases downloading h = inl refl
unit-cases buffered h = inr refl
unit-cases stored h = absurd (omega arith)
unit-cases failed h = absurd (omega arith)

Phase-cases : (ph : Phase) → (ph ≡ idle) ⊎ ((ph ≡ queued) ⊎ ((ph ≡ admitted) ⊎ (ph ≡ arrived)))
Phase-cases idle = inl refl
Phase-cases queued = inr (inl refl)
Phase-cases admitted = inr (inr (inl refl))
Phase-cases arrived = inr (inr (inr refl))

is_flight-some : (f : ℕ) (o : Option ℕ) → is_flight f o ≡ true → o ≡ some f
is_flight-some f none h = absurd (cc)
is_flight-some f (some g) h = ap some (ground arith)

keeps_flight-parts :
    (n : Node) (f r i : ℕ)
    → keeps_flight n f r i ≡ true
    → ((n.requests r).dispatch.ended ≡ false)
      × ((n.requests r).dispatch.written ≤ i)
      × (i < (n.requests r).dispatch.next)
      × ((n.requests r).flight i ≡ some f)
unfolding keeps_flight
keeps_flight-parts n f r i h =
    (ground arith, ground arith, ground arith, is_flight-some f _ (ground arith))

module _ {workers : ℤ} {n : Node} (v : Inv workers n) where
  -- The flight of a chunk whose stage is that of no hit.
  flight_of :
      (r i : ℕ) (s : Stage)
      → s ≢ stored
      → chunk_stage n r i ≡ s
      → (f : ℕ) × (f < n.count) × (n.stages f ≡ s)
  flight_of r i s not_stored h = elim (Option-cases ((n.requests r).flight i)) [
    | inl e ↦ absurd (not_stored (ground (arith, e, h)))
    | inr (f, e) ↦ (f, v.known r i f e, ground (arith, e, h))
  ]

  arrived_works :
      (r : ℕ)
      → r < n.opened
      → (n.requests r).dispatch.ended ≡ false
      → (n.requests r).dispatch.phases (n.requests r).dispatch.written ≡ arrived
      → CanWork n
  arrived_works r lt live h =
      elim (Bool-cases (is_failed (chunk_stage n r (n.requests r).dispatch.written))) [
        | inl e ↦ (_, stops r lt live h e)
        | inr e ↦ (_, writes r lt live h e)
      ]

  admitted_works :
      (r i : ℕ)
      → r < n.opened
      → (n.requests r).dispatch.ended ≡ false
      → (n.requests r).dispatch.phases i ≡ admitted
      → CanWork n
  admitted_works r i lt live h = elim (Stage-cases (chunk_stage n r i)) [
    | inl e ↦ absurd (ground (arith, e, (v.settled r live).granted i h))
    | inr (inl e) ↦
        let (f, known, k) = flight_of r i downloading (λ c. cc) e in (_, stores f known k)
    | inr (inr e) ↦ (_, arrives r i lt live h e)
  ]

  started_works :
      (r i : ℕ)
      → r < n.opened
      → (n.requests r).dispatch.ended ≡ false
      → (n.requests r).dispatch.written ≡ i
      → i < (n.requests r).dispatch.next
      → is_granted (chunk_stage n r i) ≡ true
      → CanWork n
  started_works r i lt live at_head begun g =
      elim (Phase-cases ((n.requests r).dispatch.phases i)) [
        | inl e ↦ absurd ((Run-Inv (v.runs r)).begun i begun e)
        | inr (inl e) ↦ (_, admits r i lt live e g)
        | inr (inr (inl e)) ↦ admitted_works r i lt live e
        | inr (inr (inr e)) ↦
            arrived_works r lt live
              (subst (λ j. (n.requests r).dispatch.phases j ≡ arrived) (sym at_head) e)
      ]

  -- The request that keeps a buffer from being freed can go on itself.
  holder_works :
      (f r i : ℕ) → r < n.opened → n.stages f ≡ buffered → keeps_flight n f r i ≡ true → CanWork n
  holder_works f r i lt b h =
      let (live, head_le, begun, same) = keeps_flight-parts n f r i h in
      let stage : chunk_stage n r i ≡ buffered = ap (stage_of n.stages) same ∙ b in
      elim (dec_lt (n.requests r).dispatch.written i) [
        | yes behind ↦
            let order = in_order (v.runs r) in
            elim (order.0 (n.requests r).dispatch.written i behind
              ((Run-Inv (v.runs r)).begun i begun)) [
                | inl e ↦ admitted_works r _ lt live e
                | inr e ↦ arrived_works r lt live e
              ]
        | no head ↦
            started_works r i lt live (omega (arith, head_le)) begun
              (subst (λ s. is_granted s ≡ true) (sym stage) refl)
      ]

  unit_works : (f : ℕ) → f < n.count → 0 < unit_of (n.stages f) → CanWork n
  unfolding is_held
  unit_works f lt h = elim (unit-cases (n.stages f) h) [
    | inl e ↦ (_, stores f lt e)
    | inr b ↦ elim (Bool-cases (is_held n f)) [
      | inl e ↦
          let (r, lt_r, k) = any-witness n.opened _ e in
          let (i, _, k') = any-witness (n.requests r).dispatch.next (keeps_flight n f r) k in
          holder_works f r i lt_r b k'
      | inr e ↦ (_, frees f lt b e)
    ]
  ]

  -- A fetch that waits for a unit gets one, or another that has one can go on.
  pending_works : 0 < n.units → (f : ℕ) → f < n.count → n.stages f ≡ pending → CanWork n
  pending_works some_units f lt h = elim (dec_lt n.taken n.units) [
    | yes free ↦ (_, grants f lt h free)
    | no full ↦
        let (g, lt_g, k) = sum_of_pos unit_of n.count n.stages (omega (arith, v.tallied)) in
        unit_works g lt_g k
  ]

  request_works :
      0 < n.units
      → (r : ℕ) → r < n.opened
      → (n.requests r).dispatch.ended ≡ false
      → (n.requests r).dispatch.written < (n.requests r).dispatch.n_chunks
      → CanWork n
  request_works some_units r lt live more = elim (head_advances (v.runs r) live more) [
    | inl e ↦ arrived_works r lt live e
    | inr (inl e) ↦ elim (Stage-cases (chunk_stage n r (n.requests r).dispatch.written)) [
      | inl k ↦
          let (f, known, p) = flight_of r _ pending (λ c. cc) k in
          pending_works some_units f known p
      | inr k ↦ (_, admits r _ lt live e (granted-cases _ k))
    ]
    | inr (inr (inl e)) ↦ admitted_works r _ lt live e
    | inr (inr (inr (e, can))) ↦ (_, leads r lt can)
  ]

-- The buffer budget never makes requests wait for each other in a circle: whatever requests and fetches
-- a node with at least one unit of budget has come to, as long as some request has chunks to be written
-- and was not ended, some work can be done, other than by the deadline of a fetch that waits for
-- budget or by a client that goes away.
pub node_works :
    {workers : ℤ} {units : ℕ} {n : Node}
    → Reach workers units n
    → 0 < n.units
    → (r : ℕ) → r < n.opened
    → (n.requests r).dispatch.ended ≡ false
    → (n.requests r).dispatch.written < (n.requests r).dispatch.n_chunks
    → CanWork n
node_works reach = request_works (Reach-Inv reach)
