-- ===== src/Fetcher/Node/Drains.antt =====
-- services/fetcher.go: the work of a node comes to an end, and then every request is done.
use s3_cache.Prelude.{
  ℕ, suc, ◌+◌, ◌-◌, ◌<◌, ◌≤◌, ◌≡◌, ◌≢◌, ◌⊎◌, refl, ap, ◌∙◌, inl, inr, Bool, true, false, arith, not,
  ◌&&◌, ltb, any, any-witness, any-none, Bool-cases, sum_of, sum_of_update, sum_of_beyond,
  if◌then◌else◌,
}
use native.Mathlib.Decide.{dec_lt}
use s3_cache.Prelude.Int.{ℤ}
use s3_cache.Singleflight.{update}
use s3_cache.Fetcher.Dispatch.{
  Phase, idle, queued, admitted, arrived, Dispatch, can_start, start_next, admit_chunk, arrive,
  write_head, end_context,
}
use s3_cache.Fetcher.Dispatch.Order.{Run, Run-Inv}
use s3_cache.Fetcher.Node.{
  Stage, pending, downloading, buffered, stored, failed, NodeRequest, Node, add_flight, start_chunk,
  take_unit, set_stage, give_back, on_request, Work, hits, joins, leads, grants, stores, fails,
  keeps, frees, admits, arrives, writes, stops, Reach, works, later,
}
use s3_cache.Fetcher.Node.Invariant.{Inv, Reach-Inv, Runs}
use s3_cache.Fetcher.Node.Progress.{CanWork, node_works}

abbrev pub phase_left : Phase → ℕ
phase_left idle = 6
phase_left queued = 2
phase_left admitted = 1
phase_left arrived = 0

abbrev pub stage_left : Stage → ℕ
stage_left pending = 3
stage_left downloading = 2
stage_left buffered = 1
stage_left _ = 0

unfoldable pub dispatch_left : Dispatch → ℕ
dispatch_left d =
    sum_of phase_left d.n_chunks d.phases + (d.n_chunks - d.written) + (if d.ended then 0 else 1)

abbrev pub request_left : NodeRequest → ℕ
request_left q = dispatch_left q.dispatch

-- A bound on the work that is left.
unfoldable pub work_left : Node → ℕ
work_left n = sum_of request_left n.opened n.requests + sum_of stage_left n.count n.stages

module _ {workers : ℤ} {d : Dispatch} (run : Run workers d.n_chunks d) where
  start_next-left : can_start d ≡ true → dispatch_left (start_next d) + 4 ≡ dispatch_left d
  unfolding dispatch_left start_next can_start
  start_next-left h =
      let more : d.next < d.n_chunks = ground arith in
      let fresh : phase_left (d.phases d.next) ≡ 6 =
        ap phase_left ((Run-Inv run).fresh d.next (omega arith)) in
      omega (arith, fresh, sum_of_update phase_left d.n_chunks d.phases d.next queued more)

  begun-lt : (i : ℕ) → d.phases i ≢ idle → i < d.n_chunks
  begun-lt i h = elim (dec_lt i d.n_chunks) [
    | yes p ↦ p
    | no p ↦ absurd (h ((Run-Inv run).fresh i (omega (arith, (Run-Inv run).within))))
  ]

  admit_chunk-left :
      (i : ℕ) → d.phases i ≡ queued → dispatch_left (admit_chunk i d) + 1 ≡ dispatch_left d
  unfolding dispatch_left admit_chunk
  admit_chunk-left i h =
      let lt : i < d.n_chunks = begun-lt i (λ e. absurd (ground (arith, e, h))) in
      omega (arith, ap phase_left h, sum_of_update phase_left d.n_chunks d.phases i admitted lt)

  arrive-left : (i : ℕ) → d.phases i ≡ admitted → dispatch_left (arrive i d) + 1 ≡ dispatch_left d
  unfolding dispatch_left arrive
  arrive-left i h =
      let lt : i < d.n_chunks = begun-lt i (λ e. absurd (ground (arith, e, h))) in
      omega (arith, ap phase_left h, sum_of_update phase_left d.n_chunks d.phases i arrived lt)

  write_head-left :
      d.phases d.written ≡ arrived → dispatch_left (write_head d) + 1 ≡ dispatch_left d
  unfolding dispatch_left write_head
  write_head-left h =
      let lt : d.written < d.n_chunks = begun-lt d.written (λ e. absurd (ground (arith, e, h))) in
      omega arith

  end_context-left : d.ended ≡ false → dispatch_left (end_context d) + 1 ≡ dispatch_left d
  unfolding dispatch_left end_context
  end_context-left live = ground (arith, live)

module _ (n : Node) where
  changed-left :
      (r : ℕ) (q : NodeRequest) (k : ℕ)
      → r < n.opened
      → request_left q + k ≡ request_left (n.requests r)
      → work_left (record n { requests = update n.requests r q }) + k ≡ work_left n
  unfolding work_left
  changed-left r q k lt h = omega (arith, h, sum_of_update request_left n.opened n.requests r q lt)

  moved-left :
      (taken f : ℕ) (s : Stage)
      → f < n.count
      → stage_left s < stage_left (n.stages f)
      → work_left (record n { taken = taken; stages = update n.stages f s }) < work_left n
  unfolding work_left
  moved-left taken f s lt h = omega (arith, h, sum_of_update stage_left n.count n.stages f s lt)

  add_flight-left : work_left (add_flight n) ≡ work_left n + 3
  unfolding work_left add_flight
  add_flight-left = ground (arith, sum_of_beyond stage_left n.count n.stages n.count pending)

-- Every piece of work leaves less to do.
Work-left : {workers : ℤ} {n n' : Node} → Inv workers n → Work n n' → work_left n' < work_left n
unfolding add_flight start_chunk on_request take_unit set_stage give_back
Work-left v (hits {n} r lt h) =
    omega (arith, changed-left n r _ 4 lt (start_next-left (v.runs r) h))
Work-left v (joins {n} r f lt h k s) =
    omega (arith, changed-left n r _ 4 lt (start_next-left (v.runs r) h))
Work-left v (leads {n} r lt h) =
    let m : Node = add_flight n in
    omega (arith, add_flight-left n, changed-left m r _ 4 lt (start_next-left (v.runs r) h))
Work-left v (grants {n} f lt h free) = moved-left n _ f downloading lt (ground (arith, h))
Work-left v (stores {n} f lt h) = moved-left n _ f stored lt (ground (arith, h))
Work-left v (fails {n} f lt h) = moved-left n _ f failed lt (ground (arith, h))
Work-left v (keeps {n} f lt h) = moved-left n _ f buffered lt (ground (arith, h))
Work-left v (frees {n} f lt h k) = moved-left n _ f stored lt (ground (arith, h))
Work-left v (admits {n} r i lt live h g) =
    omega (arith, changed-left n r _ 1 lt (admit_chunk-left (v.runs r) i h))
Work-left v (arrives {n} r i lt live h g) =
    omega (arith, changed-left n r _ 1 lt (arrive-left (v.runs r) i h))
Work-left v (writes {n} r lt live h g) =
    omega (arith, changed-left n r _ 1 lt (write_head-left (v.runs r) h))
Work-left v (stops {n} r lt live h g) =
    omega (arith, changed-left n r _ 1 lt (end_context-left (v.runs r) live))

-- A sequence of steps of work.
pub data Works : ℕ → Node → Node → Type 0 where
  done : {n : Node} → Works 0 n n
  more : {k : ℕ} {n m n' : Node} → Works k n m → Work m n' → Works (suc k) n n'

Works-Reach :
    {workers : ℤ} {units k : ℕ} {n n' : Node}
    → Works k n n'
    → Reach workers units n
    → Reach workers units n'
Works-Reach done r = r
Works-Reach (more ws w) r = later (Works-Reach ws r) (works w)

Works-left :
    {workers : ℤ} {units k : ℕ} {n n' : Node}
    → Reach workers units n
    → Works k n n'
    → k + work_left n' ≤ work_left n
Works-left r done = omega arith
Works-left r (more ws w) =
    omega (arith, Works-left r ws, Work-left (Reach-Inv (Works-Reach ws r)) w)

Work-units : {n n' : Node} → Work n n' → n'.units ≡ n.units
unfolding add_flight start_chunk on_request take_unit set_stage give_back
Work-units (hits r lt h) = refl
Work-units (joins r f lt h k s) = refl
Work-units (leads r lt h) = refl
Work-units (grants f lt h free) = refl
Work-units (stores f lt h) = refl
Work-units (fails f lt h) = refl
Work-units (keeps f lt h) = refl
Work-units (frees f lt h k) = refl
Work-units (admits r i lt live h g) = refl
Work-units (arrives r i lt live h g) = refl
Work-units (writes r lt live h g) = refl
Work-units (stops r lt live h g) = refl

Works-units : {k : ℕ} {n n' : Node} → Works k n n' → n'.units ≡ n.units
Works-units done = refl
Works-units (more ws w) = Work-units w ∙ Works-units ws

-- A request whose consumer has ended: it has written all chunks, or stopped before.
abbrev pub Ended : NodeRequest → Type 0
Ended q = (q.dispatch.ended ≡ true) ⊎ (q.dispatch.written ≡ q.dispatch.n_chunks)

unfoldable runs_on : NodeRequest → Bool
runs_on q = not q.dispatch.ended && ltb q.dispatch.written q.dispatch.n_chunks

runs_on-parts :
    (q : NodeRequest)
    → runs_on q ≡ true
    → (q.dispatch.ended ≡ false) × (q.dispatch.written < q.dispatch.n_chunks)
unfolding runs_on
runs_on-parts q h = (ground arith, ground arith)

runs_on-Ended : {workers : ℤ} (q : NodeRequest) → Runs workers q → runs_on q ≡ false → Ended q
unfolding runs_on
runs_on-Ended q run h = elim (Bool-cases q.dispatch.ended) [
  | inl e ↦ inl e
  | inr e ↦ let v = Run-Inv run in inr (ground (arith, h, e, v.counted, v.within))
]

-- The work on the requests of a node ends, and not before all their consumers have: from any state
-- that a node with at least one unit of budget has come to, a sequence of steps of work has at most
-- `work_left` steps, and after each of them either the consumers of all requests have ended, or some
-- work can be done.
pub node_drains :
    {workers : ℤ} {units k : ℕ} {n n' : Node}
    → Reach workers units n
    → 0 < n.units
    → Works k n n'
    → (k + work_left n' ≤ work_left n)
      × (((r : ℕ) → r < n'.opened → Ended (n'.requests r)) ⊎ CanWork n')
node_drains {n' = n'} reach some_units ws =
    let reach' = Works-Reach ws reach in
    (
      Works-left reach ws,
      elim (Bool-cases (any n'.opened (λ r. runs_on (n'.requests r)))) [
        | inl e ↦
            let (r, lt, h) = any-witness n'.opened _ e in
            let (live, left) = runs_on-parts (n'.requests r) h in
            inr (node_works reach' (omega (arith, Works-units ws)) r lt live left)
        | inr e ↦ inl (λ r lt.
            runs_on-Ended (n'.requests r) ((Reach-Inv reach').runs r) (any-none n'.opened _ e r lt))
      ],
    )
