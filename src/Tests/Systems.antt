-- ===== src/Tests/Systems.antt =====
-- The requests of a node and the whole of serveAligned (services/fetcher.go) at concrete inputs.
use s3_cache.Prelude.{ℕ, ◌+◌, ◌<◌, ◌≤◌, ◌⊎◌, refl, arith, some}
use s3_cache.Prelude.Int.{pos}
use s3_cache.Fetcher.Dispatch.{new_dispatch, can_start, start_next}
use s3_cache.Fetcher.Node.{
  Node, new_node, open_request, add_flight, start_chunk, take_unit, give_back, stored, works, opens,
  Reach, start, later, leads, grants, stores,
}
use s3_cache.Fetcher.Node.Progress.{CanWork, node_works}
use s3_cache.Fetcher.Node.Drains.{Works, done, more, work_left, Ended, node_drains}

-- Two requests of one chunk, and one unit of budget.
abbrev two_requests : Node
two_requests = open_request (pos 2) 1 (open_request (pos 2) 1 (new_node (pos 2) 1))

abbrev lead_of : ℕ → Node → Node
lead_of r n = start_chunk r (some n.count) (add_flight n)

-- The fetch of the first has the unit, that of the second waits.
abbrev contended : Node
contended = take_unit 0 (lead_of 1 (lead_of 0 two_requests))

reach : Reach (pos 2) 1 contended
unfolding new_node open_request add_flight start_chunk new_dispatch can_start start_next take_unit
reach =
    later
      (later (later (later (later start (opens 1)) (opens 1)) (works (leads 0 (omega arith) refl)))
        (works (leads 1 (omega arith) refl)))
      (works (grants 0 (omega arith) refl (omega arith)))

node_works_example : CanWork contended
unfolding new_node open_request add_flight start_chunk new_dispatch start_next take_unit
node_works_example =
    node_works {n = contended} reach (omega arith) 1 (omega arith) refl (omega arith)

stored_one : Works 1 contended (give_back 0 stored contended)
unfolding new_node open_request add_flight start_chunk take_unit
stored_one = more done (stores 0 (omega arith) refl)

node_drains_example :
    let n' = give_back 0 stored contended in
    (1 + work_left n' ≤ work_left contended)
    × (((r : ℕ) → r < n'.opened → Ended (n'.requests r)) ⊎ CanWork n')
unfolding new_node open_request add_flight start_chunk take_unit
node_drains_example = node_drains {n = contended} reach (omega arith) stored_one
