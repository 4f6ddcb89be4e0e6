-- ===== src/Fetcher/Node.antt =====
-- services/fetcher.go with services/budget.go: the requests and the upstream fetches of one node together.
-- A request is its dispatcher (Fetcher/Dispatch) with the flight that each of its chunks waits for; a
-- fetch is a stage; the buffer budget is the number of its taken units.
pub mod Invariant
pub mod Progress
pub mod Drains
use s3_cache.Prelude.{
  ℕ, zero, suc, ◌+◌, ◌-◌, ◌<◌, ◌≡◌, ◌⊎◌, Option, none, some, Bool, true, false, not, ◌&&◌, ◌||◌,
  ltb, leb, ◌==◌, any,
}
use s3_cache.Prelude.Int.{ℤ}
use s3_cache.Singleflight.{update}
use s3_cache.Fetcher.Dispatch.{
  Phase, idle, queued, admitted, arrived, Dispatch, new_dispatch, can_start, start_next,
  admit_chunk, arrive, write_head, end_context,
}

-- A fetch that waits for a unit of budget; downloads with one; was published with its buffer, which
-- keeps the unit; was published with its file; or was published with an error.
pub data Stage : Type 0 where
  pending downloading buffered stored failed : Stage

-- `flight` names the fetch that a started chunk waits for, or none if it was a hit.
pub record NodeRequest : Type 0 where
  pub dispatch : Dispatch
  pub flight : ℕ → Option ℕ

-- Fetches have the numbers below `count`, requests those below `opened`.
pub record Node : Type 0 where
  pub units : ℕ
  pub taken : ℕ
  pub count : ℕ
  pub stages : ℕ → Stage
  pub opened : ℕ
  pub requests : ℕ → NodeRequest

abbrev pub new_request : ℤ → ℕ → NodeRequest
new_request workers n_chunks = record {
  dispatch = new_dispatch workers n_chunks;
  flight = λ i. none;
}

unfoldable pub new_node : ℤ → ℕ → Node
new_node workers units = record {
  units = units;
  taken = 0;
  count = 0;
  stages = λ f. stored;
  opened = 0;
  requests = λ r. new_request workers 0;
}

unfoldable pub open_request : ℤ → ℕ → Node → Node
open_request workers n_chunks n = record n {
  opened = n.opened + 1;
  requests = update n.requests n.opened (new_request workers n_chunks);
}

-- The call of lead for a new flight.
unfoldable pub add_flight : Node → Node
add_flight n = record n { count = n.count + 1; stages = update n.stages n.count pending }

-- The dispatcher of request `r` starts its next chunk, which is a hit or waits for a flight.
unfoldable pub start_chunk : ℕ → Option ℕ → Node → Node
start_chunk r flight n = record n {
  requests = update n.requests r (record {
    dispatch = start_next (n.requests r).dispatch;
    flight = update (n.requests r).flight (n.requests r).dispatch.next flight;
  });
}

-- The fetch goes on; it takes a unit of budget, keeps what it has, or gives one back.
unfoldable pub take_unit : ℕ → Node → Node
take_unit f n = record n { taken = n.taken + 1; stages = update n.stages f downloading }

unfoldable pub set_stage : ℕ → Stage → Node → Node
set_stage f s n = record n { stages = update n.stages f s }

unfoldable pub give_back : ℕ → Stage → Node → Node
give_back f s n = record n { taken = n.taken - 1; stages = update n.stages f s }

-- A step of request `r` that leaves its flights as they are.
unfoldable pub on_request : ℕ → (Dispatch → Dispatch) → Node → Node
on_request r step n = record n {
  requests =
      update n.requests r (record (n.requests r) { dispatch = step (n.requests r).dispatch });
}

-- The stage of what a chunk waits for; a hit has its file.
abbrev pub stage_of : (ℕ → Stage) → Option ℕ → Stage
stage_of stages none = stored
stage_of stages (some f) = stages f

abbrev pub chunk_stage : Node → ℕ → ℕ → Stage
chunk_stage n r i = stage_of n.stages ((n.requests r).flight i)

abbrev pub is_granted : Stage → Bool
is_granted pending = false
is_granted _ = true

abbrev pub is_published : Stage → Bool
is_published pending = false
is_published downloading = false
is_published _ = true

abbrev pub is_failed : Stage → Bool
is_failed failed = true
is_failed _ = false

abbrev pub is_flight : ℕ → Option ℕ → Bool
is_flight f none = false
is_flight f (some g) = f == g

-- A request that still runs holds a reference to the flights of its chunks that are started and not
-- yet written.
unfoldable pub keeps_flight : Node → ℕ → ℕ → ℕ → Bool
keeps_flight n f r i =
    let d : Dispatch = (n.requests r).dispatch in
    not d.ended && (leb d.written i && (ltb i d.next && is_flight f ((n.requests r).flight i)))

unfoldable pub is_held : Node → ℕ → Bool
is_held n f = any n.opened (λ r. any (n.requests r).dispatch.next (keeps_flight n f r))

-- The steps that need neither a new request nor the end of a wait: a chunk is started and found on
-- disk, joins a fetch that is not published yet, or leads a new one; a fetch gets its unit, and then
-- publishes an error, a file or a buffer; the last reference to a buffer is dropped; a chunk is
-- admitted or arrives; the consumer writes the head chunk, or stops at its error.
pub data Work : Node → Node → Type 0 where
  hits :
      {n : Node} (r : ℕ)
      → r < n.opened
      → can_start (n.requests r).dispatch ≡ true
      → Work n (start_chunk r none n)
  joins :
      {n : Node} (r f : ℕ)
      → r < n.opened
      → can_start (n.requests r).dispatch ≡ true
      → f < n.count
      → is_published (n.stages f) ≡ false
      → Work n (start_chunk r (some f) n)
  leads :
      {n : Node} (r : ℕ)
      → r < n.opened
      → can_start (n.requests r).dispatch ≡ true
      → Work n (start_chunk r (some n.count) (add_flight n))
  grants :
      {n : Node} (f : ℕ)
      → f < n.count
      → n.stages f ≡ pending
      → n.taken < n.units
      → Work n (take_unit f n)
  stores :
      {n : Node} (f : ℕ) → f < n.count → n.stages f ≡ downloading → Work n (give_back f stored n)
  fails :
      {n : Node} (f : ℕ) → f < n.count → n.stages f ≡ downloading → Work n (give_back f failed n)
  keeps :
      {n : Node} (f : ℕ) → f < n.count → n.stages f ≡ downloading → Work n (set_stage f buffered n)
  frees :
      {n : Node} (f : ℕ)
      → f < n.count
      → n.stages f ≡ buffered
      → is_held n f ≡ false
      → Work n (give_back f stored n)
  admits :
      {n : Node} (r i : ℕ)
      → r < n.opened
      → (n.requests r).dispatch.ended ≡ false
      → (n.requests r).dispatch.phases i ≡ queued
      → is_granted (chunk_stage n r i) ≡ true
      → Work n (on_request r (admit_chunk i) n)
  arrives :
      {n : Node} (r i : ℕ)
      → r < n.opened
      → (n.requests r).dispatch.ended ≡ false
      → (n.requests r).dispatch.phases i ≡ admitted
      → is_published (chunk_stage n r i) ≡ true
      → Work n (on_request r (arrive i) n)
  writes :
      {n : Node} (r : ℕ)
      → r < n.opened
      → (n.requests r).dispatch.ended ≡ false
      → (n.requests r).dispatch.phases (n.requests r).dispatch.written ≡ arrived
      → is_failed (chunk_stage n r (n.requests r).dispatch.written) ≡ false
      → Work n (on_request r write_head n)
  stops :
      {n : Node} (r : ℕ)
      → r < n.opened
      → (n.requests r).dispatch.ended ≡ false
      → (n.requests r).dispatch.phases (n.requests r).dispatch.written ≡ arrived
      → is_failed (chunk_stage n r (n.requests r).dispatch.written) ≡ true
      → Work n (on_request r end_context n)

-- All that can happen: work, a new request, a fetch for readahead, the deadline of a fetch that waits
-- for budget, and a client that goes away.
pub data Step (workers : ℤ) : Node → Node → Type 0 where
  works : {n n' : Node} → Work n n' → Step workers n n'
  opens : {n : Node} (n_chunks : ℕ) → Step workers n (open_request workers n_chunks n)
  reads_ahead : {n : Node} → Step workers n (add_flight n)
  times_out :
      {n : Node} (f : ℕ)
      → f < n.count
      → n.stages f ≡ pending
      → Step workers n (set_stage f failed n)
  leaves : {n : Node} (r : ℕ) → r < n.opened → Step workers n (on_request r end_context n)

pub data Reach (workers : ℤ) (units : ℕ) : Node → Type 0 where
  start : Reach workers units (new_node workers units)
  later : {n n' : Node} → Reach workers units n → Step workers n n' → Reach workers units n'
