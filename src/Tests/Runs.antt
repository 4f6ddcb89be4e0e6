-- ===== src/Tests/Runs.antt =====
-- Runs of the shared state at concrete steps: calls, budget and write guard.
use s3_cache.Prelude.{
  ℕ, ◌+◌, ◌*◌, ◌≡◌, ◌≤◌, refl, arith, [], ◌∷◌, ◌++◌, none, some, true, false, length, if◌then◌else◌,
  ◌==◌,
}
use s3_cache.Prelude.Int.{pos, ◌≤ℤ◌}
use s3_cache.Prelude.Assoc.{Key, lookup, insert, same}
use s3_cache.Prelude.Text.{codes}
use s3_cache.Flight.{ChunkFlight}
use s3_cache.Singleflight.{Singleflight, new_singleflight, join, finish, update}
use s3_cache.Singleflight.Calls
use s3_cache.Singleflight.Sharing.{freed_once}
use s3_cache.Budget.{ChunkBudget, new_chunk_budget, acquire, alloc, release}
use s3_cache.Budget.Runs
use s3_cache.Budget.Runs.{sum}
use s3_cache.Budget.Invariant.{bytes_bounded, oldest_first}

abbrev result_of : ChunkFlight
result_of = record {
  error = none;
  size = pos 3;
  path = codes "p";
  pin = none;
  buf = some (codes "xyz");
  free = true;
  refs = pos 0;
}

abbrev key : Key
key = codes "k"

abbrev led : Singleflight
led = (join key new_singleflight).group

abbrev one : ℕ → ℕ
one = update (λ _. 0) (join key new_singleflight).call (0 + 1)

led_run : Calls.Run led one (λ _. 0)
led_run = Calls.joins key (omega arith) Calls.start

led_here : lookup key led.m ≡ some 0
unfolding join new_singleflight lookup insert same
led_here = refl

abbrev done : Singleflight
done = finish key 0 result_of led

done_run : Calls.Run done one (λ _. 0)
done_run = Calls.finishes key 0 result_of led_here refl led_run

freed_once_example : ◌≡◌ {A = ℕ} 0 (if (done.calls 0).done then if one 0 == 0 then 1 else 0 else 0)
freed_once_example = freed_once done_run 0

abbrev held_budget : ChunkBudget
held_budget = (acquire 1 (new_chunk_budget 1)).0

abbrev used_budget : ChunkBudget
used_budget = alloc (pos 4) held_budget

abbrev full_budget : ChunkBudget
full_budget = (acquire 2 used_budget).0

used_run : Runs.Run 1 4 used_budget (4 ∷ [])
unfolding acquire new_chunk_budget
used_run = Runs.allocs [] [] 4 (omega arith) (Runs.acquires 1 refl Runs.start)

full_run : Runs.Run 1 4 full_budget (4 ∷ [])
unfolding acquire new_chunk_budget alloc
full_run = Runs.waits 2 refl used_run

full_queue : full_budget.queue ≡ 2 ∷ []
unfolding acquire new_chunk_budget alloc
full_queue = refl

bytes_bounded_example :
    (used_budget.in_use ≡ pos (sum (4 ∷ [])))
    × (used_budget.in_use ≤ℤ pos (1 * 4))
    × (used_budget.in_use ≤ℤ used_budget.peak)
    × (used_budget.peak ≤ℤ pos (1 * 4))
    × (length {A = ℕ} (4 ∷ []) ≤ 1)
bytes_bounded_example = bytes_bounded (omega arith) used_run

oldest_first_example :
    (full_budget.taken ≡ 1)
    × (acquire 3 full_budget ≡ (record full_budget { queue = full_budget.queue ++ 3 ∷ [] }, false))
    × ((release (pos 4) full_budget).1 ≡ some 2)
    × ((release (pos 4) full_budget).0.queue ≡ [])
    × ((release (pos 4) full_budget).0.taken ≡ 1)
oldest_first_example = oldest_first (omega arith) full_run full_queue 3 4
