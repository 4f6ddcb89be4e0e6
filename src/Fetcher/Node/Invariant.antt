-- ===== src/Fetcher/Node/Invariant.antt =====
-- services/fetcher.go: what holds of the requests and fetches of a node between two steps.
use s3_cache.Prelude.{
  ℕ, ◌+◌, ◌-◌, ◌<◌, ◌≤◌, ◌≡◌, refl, ap, Bool, true, false, Option, none, some, arith, if◌then◌else◌,
  ◌==◌, sum_of, sum_of_beyond, sum_of_update,
}
use s3_cache.Prelude.Int.{ℤ}
use s3_cache.Singleflight.{update}
use s3_cache.Fetcher.Dispatch.{
  queued, admitted, arrived, Dispatch, new_dispatch, can_start, start_next, admit_chunk, arrive,
  write_head, end_context,
}
use s3_cache.Fetcher.Dispatch.Order.{Run}
use s3_cache.Fetcher.Node.{
  Stage, pending, downloading, buffered, stored, failed, NodeRequest, Node, new_request, new_node,
  open_request, add_flight, start_chunk, take_unit, set_stage, give_back, on_request, stage_of,
  chunk_stage, is_granted, is_published, Work, hits, joins, leads, grants, stores, fails, keeps,
  frees, admits, arrives, writes, stops, Step, works, opens, reads_ahead, times_out, leaves, Reach,
  start, later,
}

abbrev pub unit_of : Stage → ℕ
unit_of downloading = 1
unit_of buffered = 1
unit_of _ = 0

-- A chunk that is admitted, or has arrived, of a request that runs.
pub record Settled (stages : ℕ → Stage) (q : NodeRequest) : Type 0 where
  pub granted :
      (i : ℕ) → q.dispatch.phases i ≡ admitted → is_granted (stage_of stages (q.flight i)) ≡ true
  pub published :
      (i : ℕ) → q.dispatch.phases i ≡ arrived → is_published (stage_of stages (q.flight i)) ≡ true

abbrev pub Known : ℕ → NodeRequest → Type 0
Known count q = (i f : ℕ) → q.flight i ≡ some f → f < count

abbrev pub Runs : ℤ → NodeRequest → Type 0
Runs workers q = Run workers q.dispatch.n_chunks q.dispatch

pub record Inv (workers : ℤ) (n : Node) : Type 0 where
  pub runs : (r : ℕ) → Runs workers (n.requests r)
  pub tallied : n.taken ≡ sum_of unit_of n.count n.stages
  pub capped : n.taken ≤ n.units
  pub known : (r : ℕ) → Known n.count (n.requests r)
  pub settled : (r : ℕ) → (n.requests r).dispatch.ended ≡ false → Settled n.stages (n.requests r)

if_ind {ℓ κ} :
    {A : Type ℓ} (P : A → Type κ) (b : Bool) {x y : A} → P x → P y → P (if b then x else y)
if_ind P true p q = p
if_ind P false p q = q

stage_of-update :
    (p : Stage → Bool) (stages : ℕ → Stage) (f : ℕ) (s : Stage) (o : Option ℕ)
    → (p (stages f) ≡ true → p s ≡ true)
    → p (stage_of stages o) ≡ true
    → p (stage_of (update stages f s) o) ≡ true
stage_of-update p stages f s none up h = h
stage_of-update p stages f s (some g) up h = ground arith

stage_of_fresh :
    (count : ℕ) (stages : ℕ → Stage) (s : Stage) (o : Option ℕ)
    → ((f : ℕ) → o ≡ some f → f < count)
    → stage_of (update stages count s) o ≡ stage_of stages o
stage_of_fresh count stages s none h = refl
stage_of_fresh count stages s (some f) h = ground (arith, h f refl)

can_start_live : (d : Dispatch) → can_start d ≡ true → d.ended ≡ false
unfolding can_start
can_start_live d h = ground arith

module _ {workers : ℤ} {n : Node} where
  -- One request goes on.
  changed-Inv :
      (r : ℕ) (q : NodeRequest)
      → Runs workers q
      → Known n.count q
      → (q.dispatch.ended ≡ false → Settled n.stages q)
      → Inv workers n
      → Inv workers (record n { requests = update n.requests r q })
  changed-Inv r q runs known settled v = record {
    runs = λ j. if_ind (Runs workers) (r == j) runs (v.runs j);
    tallied = v.tallied;
    capped = v.capped;
    known = λ j. if_ind (Known n.count) (r == j) known (v.known j);
    settled = λ j.
        if_ind (λ s. s.dispatch.ended ≡ false → Settled n.stages s) (r == j) settled (v.settled j);
  }

  -- One fetch goes on.
  moved-Inv :
      (taken f : ℕ) (s : Stage)
      → f < n.count
      → taken + unit_of (n.stages f) ≡ n.taken + unit_of s
      → taken ≤ n.units
      → (is_granted (n.stages f) ≡ true → is_granted s ≡ true)
      → (is_published (n.stages f) ≡ true → is_published s ≡ true)
      → Inv workers n
      → Inv workers (record n { taken = taken; stages = update n.stages f s })
  moved-Inv taken f s lt same cap up_granted up_published v = record {
    runs = v.runs;
    tallied = omega (arith, v.tallied, sum_of_update unit_of n.count n.stages f s lt);
    capped = cap;
    known = v.known;
    settled = λ r live.
        let t = v.settled r live in
        record {
          granted = λ i h. stage_of-update is_granted n.stages f s _ up_granted (t.granted i h);
          published =
              λ i h. stage_of-update is_published n.stages f s _ up_published (t.published i h);
        };
  }

  add_flight-Inv : Inv workers n → Inv workers (add_flight n)
  unfolding add_flight
  add_flight-Inv v = record {
    runs = v.runs;
    tallied = ground (arith, v.tallied, sum_of_beyond unit_of n.count n.stages n.count pending);
    capped = v.capped;
    known = λ r i f h. omega (arith, v.known r i f h);
    settled = λ r live.
        let t = v.settled r live in
        record {
          granted = λ i h.
              rw (stage_of_fresh n.count n.stages pending ((n.requests r).flight i) (v.known r i))
                (t.granted i h);
          published = λ i h.
              rw (stage_of_fresh n.count n.stages pending ((n.requests r).flight i) (v.known r i))
                (t.published i h);
        };
  }

  give_back-Inv :
      (f : ℕ) (s : Stage)
      → f < n.count
      → unit_of (n.stages f) ≡ 1
      → unit_of s ≡ 0
      → is_published s ≡ true
      → is_granted s ≡ true
      → Inv workers n
      → Inv workers (give_back f s n)
  unfolding give_back
  give_back-Inv f s lt has none_left pub_s grant_s v =
      moved-Inv (n.taken - 1) f s lt
        (omega (arith, has, none_left, v.tallied, sum_of_update unit_of n.count n.stages f s lt))
        (omega (arith, v.capped)) (λ _. grant_s) (λ _. pub_s) v

  -- A request starts its next chunk.
  start_chunk-Inv :
      (r : ℕ) (o : Option ℕ)
      → can_start (n.requests r).dispatch ≡ true
      → ((f : ℕ) → o ≡ some f → f < n.count)
      → Inv workers n
      → Inv workers (start_chunk r o n)
  unfolding start_chunk start_next
  start_chunk-Inv r o h known v =
      let live : (n.requests r).dispatch.ended ≡ false = can_start_live (n.requests r).dispatch h in
      let t = v.settled r live in
      changed-Inv r _ (Run.starts h (v.runs r)) (λ i f e. ground (arith, known f, v.known r i f))
        (λ _. record {
          granted = λ i e. ground (arith, t.granted i);
          published = λ i e. ground (arith, t.published i);
        })
        v

  admit_chunk_on-Inv :
      (r i : ℕ)
      → (n.requests r).dispatch.ended ≡ false
      → (n.requests r).dispatch.phases i ≡ queued
      → is_granted (chunk_stage n r i) ≡ true
      → Inv workers n
      → Inv workers (on_request r (admit_chunk i) n)
  unfolding on_request admit_chunk
  admit_chunk_on-Inv r i live h g v =
      let t = v.settled r live in
      changed-Inv r _ (Run.admits i h (v.runs r)) (v.known r)
        (λ _. record {
          granted = λ j e. ground (arith, g, t.granted j);
          published = λ j e. ground (arith, t.published j);
        })
        v

  arrive_on-Inv :
      (r i : ℕ)
      → (n.requests r).dispatch.ended ≡ false
      → (n.requests r).dispatch.phases i ≡ admitted
      → is_published (chunk_stage n r i) ≡ true
      → Inv workers n
      → Inv workers (on_request r (arrive i) n)
  unfolding on_request arrive
  arrive_on-Inv r i live h g v =
      let t = v.settled r live in
      changed-Inv r _ (Run.arrives i h (v.runs r)) (v.known r)
        (λ _. record {
          granted = λ j e. ground (arith, t.granted j);
          published = λ j e. ground (arith, g, t.published j);
        })
        v

  write_on-Inv :
      (r : ℕ)
      → (n.requests r).dispatch.ended ≡ false
      → (n.requests r).dispatch.phases (n.requests r).dispatch.written ≡ arrived
      → Inv workers n
      → Inv workers (on_request r write_head n)
  unfolding on_request write_head
  write_on-Inv r live h v =
      let t = v.settled r live in
      changed-Inv r _ (Run.writes h (v.runs r)) (v.known r)
        (λ _. record { granted = t.granted; published = t.published }) v

  end_on-Inv : (r : ℕ) → Inv workers n → Inv workers (on_request r end_context n)
  unfolding on_request end_context
  end_on-Inv r v = changed-Inv r _ (Run.ends (v.runs r)) (v.known r) (λ e. absurd (cc)) v

  open_request-Inv : (n_chunks : ℕ) → Inv workers n → Inv workers (open_request workers n_chunks n)
  unfolding open_request new_dispatch
  open_request-Inv n_chunks v =
      let v' =
        changed-Inv n.opened (new_request workers n_chunks) Run.start (λ i f e. absurd (cc))
          (λ _. record { granted = λ i e. absurd (cc); published = λ i e. absurd (cc) }) v in
      record {
        runs = v'.runs;
        tallied = v'.tallied;
        capped = v'.capped;
        known = v'.known;
        settled = v'.settled;
      }

pub Work-Inv : {workers : ℤ} {n n' : Node} → Work n n' → Inv workers n → Inv workers n'
unfolding take_unit set_stage add_flight
Work-Inv (hits r lt h) v = start_chunk-Inv r none h (λ f e. absurd (cc)) v
Work-Inv (joins r f lt h k s) v = start_chunk-Inv r (some f) h (λ g e. ground (arith, k)) v
Work-Inv (leads r lt h) v =
    let v' = add_flight-Inv v in start_chunk-Inv r _ h (λ g e. ground arith) v'
Work-Inv (grants {n} f lt h free) v =
    moved-Inv (n.taken + 1) f downloading lt (ground (arith, h)) (omega arith) (λ e. refl)
      (λ e. ground (arith, h)) v
Work-Inv (stores f lt h) v = give_back-Inv f stored lt (ap unit_of h) refl refl refl v
Work-Inv (fails f lt h) v = give_back-Inv f failed lt (ap unit_of h) refl refl refl v
Work-Inv (keeps {n} f lt h) v =
    moved-Inv n.taken f buffered lt (ground (arith, h)) v.capped (λ e. refl) (λ e. refl) v
Work-Inv (frees f lt h k) v = give_back-Inv f stored lt (ap unit_of h) refl refl refl v
Work-Inv (admits r i lt live h g) v = admit_chunk_on-Inv r i live h g v
Work-Inv (arrives r i lt live h g) v = arrive_on-Inv r i live h g v
Work-Inv (writes r lt live h g) v = write_on-Inv r live h v
Work-Inv (stops r lt live h g) v = end_on-Inv r v

Step-Inv : {workers : ℤ} {n n' : Node} → Step workers n n' → Inv workers n → Inv workers n'
unfolding set_stage
Step-Inv (works w) v = Work-Inv w v
Step-Inv (opens n_chunks) v = open_request-Inv n_chunks v
Step-Inv reads_ahead v = add_flight-Inv v
Step-Inv (times_out {n} f lt h) v =
    moved-Inv n.taken f failed lt (ground (arith, h)) v.capped (λ e. refl) (λ e. refl) v
Step-Inv (leaves r lt) v = end_on-Inv r v

pub Reach-Inv : {workers : ℤ} {units : ℕ} {n : Node} → Reach workers units n → Inv workers n
unfolding new_node new_dispatch
Reach-Inv start = record {
  runs = λ r. Run.start;
  tallied = refl;
  capped = omega arith;
  known = λ r i f e. absurd (cc);
  settled = λ r live. record { granted = λ i e. absurd (cc); published = λ i e. absurd (cc) };
}
Reach-Inv (later r s) = Step-Inv s (Reach-Inv r)
