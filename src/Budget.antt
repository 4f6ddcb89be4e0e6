-- ===== src/Budget.antt =====
-- services/budget.go: the counting semaphore over chunk buffers. The channel `units` is the number
-- of values in its buffer and the queue of the callers that are blocked in a send, oldest first; a
-- receive hands the freed slot to the oldest of them, as Go's channels do.
pub mod Runs
pub mod Invariant
use s3_cache.Prelude.{
  ℕ, suc, ◌+◌, ◌-◌, List, [], ◌∷◌, ◌++◌, Option, none, some, Bool, true, false, if◌then◌else◌, ltb,
  ◌==◌,
}
use s3_cache.Prelude.Int.{ℤ, pos, add64, sub64, ltb_ℤ, leb_ℤ}

pub record ChunkBudget : Type 0 where
  pub capacity : ℕ
  pub taken : ℕ
  pub queue : List ℕ
  pub in_use : ℤ
  pub peak : ℤ

unfoldable pub new_chunk_budget : ℕ → ChunkBudget
new_chunk_budget units = record {
  capacity = units;
  taken = 0;
  queue = [];
  in_use = pos 0;
  peak = pos 0;
}

-- A caller's send: whether it went through at once, or else the caller waits. (The first select of
-- `acquire` makes the same test, and changes nothing where it fails.)
unfoldable pub acquire : ℕ → ChunkBudget → ChunkBudget × Bool
acquire id b =
    if ltb b.taken b.capacity
    then (record b { taken = b.taken + 1 }, true)
    else (record b { queue = b.queue ++ id ∷ [] }, false)

abbrev without : ℕ → List ℕ → List ℕ
without id [] = []
without id (j ∷ q) = if id == j then q else j ∷ without id q

-- The context of a waiting caller ends.
unfoldable pub give_up : ℕ → ChunkBudget → ChunkBudget
give_up id b = record b { queue = without id b.queue }

unfoldable pub alloc : ℤ → ChunkBudget → ChunkBudget
alloc n b =
    let v : ℤ = add64 b.in_use n in
    record b { in_use = v; peak = if leb_ℤ v b.peak then b.peak else v }

-- The receive, with the waiting caller whose send goes through.
receive : List ℕ → ChunkBudget → ChunkBudget × Option ℕ
receive [] b = (record b { taken = b.taken - 1 }, none)
receive (id ∷ rest) b = (record b { queue = rest }, some id)

unfoldable pub release : ℤ → ChunkBudget → ChunkBudget × Option ℕ
unfolding receive
release n b =
    receive b.queue (record b { in_use = if ltb_ℤ (pos 0) n then sub64 b.in_use n else b.in_use })
