-- ===== src/Fetcher/Dispatch.antt =====
-- services/fetcher.go, the dispatcher of serveAligned: which chunks of a request are being fetched. The
-- channel `slots` is the number of values in it.
pub mod Order
pub mod Ends
use s3_cache.Prelude.{ℕ, ◌+◌, ◌-◌, Bool, true, false, ◌&&◌, not, if◌then◌else◌, ltb, ◌==◌}
use s3_cache.Prelude.Int.{ℤ, pos, pos_part, ltb_ℤ}
use s3_cache.Singleflight.{update}

-- A chunk whose fetch was not started; waits for buffer budget; does not (its `admit` was called); or
-- lies in its `pending` channel.
pub data Phase : Type 0 where
  idle queued admitted arrived : Phase

-- `next` is the index of the dispatcher's loop; `waiting` says whether it waits for the chunk before
-- `next` to be admitted. `written` is the index of the consumer's loop.
pub record Dispatch : Type 0 where
  pub window : ℕ
  pub n_chunks : ℕ
  pub next : ℕ
  pub slots : ℕ
  pub waiting : Bool
  pub written : ℕ
  pub phases : ℕ → Phase
  pub ended : Bool

abbrev pub window_of : ℤ → ℕ
window_of workers = if ltb_ℤ workers (pos 4) then 4 else pos_part workers

unfoldable pub new_dispatch : ℤ → ℕ → Dispatch
new_dispatch workers n_chunks = record {
  window = window_of workers;
  n_chunks = n_chunks;
  next = 0;
  slots = 0;
  waiting = false;
  written = 0;
  phases = λ i. idle;
  ended = false;
}

-- Whether the dispatcher's loop can start its next chunk.
unfoldable pub can_start : Dispatch → Bool
can_start d = ltb d.next d.n_chunks && (ltb d.slots d.window && (not d.ended && not d.waiting))

-- The loop takes a slot and starts the fetch of its next chunk.
unfoldable pub start_next : Dispatch → Dispatch
start_next d = record d {
  slots = d.slots + 1;
  phases = update d.phases d.next queued;
  next = d.next + 1;
  waiting = true;
}

-- fetchChunk calls `admit` for chunk `i`, which lets the loop go on if it waits for that chunk.
unfoldable pub admit_chunk : ℕ → Dispatch → Dispatch
admit_chunk i d = record d {
  phases = update d.phases i admitted;
  waiting = d.waiting && not (i + 1 == d.next);
}

-- The result of chunk `i` is put into its channel; fetchChunk has called `admit` by then.
unfoldable pub arrive : ℕ → Dispatch → Dispatch
arrive i d = record d { phases = update d.phases i arrived }

-- The consumer has written its chunk, and frees a slot.
unfoldable pub write_head : Dispatch → Dispatch
write_head d = record d { written = d.written + 1; slots = d.slots - 1 }

-- The context of the request ends; the loop starts nothing more.
unfoldable pub end_context : Dispatch → Dispatch
end_context d = record d { ended = true; waiting = false }
