-- ===== src/WriteGuard/Trace.antt =====
-- The write guard over the life of a request: what holds after any interleaving of the fetch side's
-- calls of hold with the consumer's writes.
use s3_cache.Prelude.{ℕ, suc, ◌^◌, ◌<◌, ◌≡◌, Bool, true, false, arith, is_some, ltb, ◌&&◌}
use s3_cache.Prelude.Int.{ℤ, pos, add64_pos, sub64_pos, ◌<ℤ◌}
use s3_cache.WriteGuard.{WriteGuard, new_write_guard, hold, begin, end}

-- A run of the guard with its clock readings. `n` counts the buffered chunks that were delivered
-- and are not yet written. A buffered chunk is written only after it was delivered.
pub data Run (settable : Bool) (timeout : ℤ) : ℕ → WriteGuard → Type 0 where
  start : Run settable timeout 0 (new_write_guard settable timeout)
  holds :
      {n : ℕ} {g : WriteGuard} (now : ℤ)
      → suc n < 2 ^ 63
      → Run settable timeout n g
      → Run settable timeout (suc n) (hold now g)
  begins :
      {n : ℕ} {g : WriteGuard} (now : ℤ)
      → g.writing ≡ false
      → Run settable timeout n g
      → Run settable timeout n (begin now g)
  ends_buffered :
      {n : ℕ} {g : WriteGuard}
      → g.writing ≡ true
      → Run settable timeout (suc n) g
      → Run settable timeout n (end true g)
  ends_cached :
      {n : ℕ} {g : WriteGuard}
      → g.writing ≡ true
      → Run settable timeout n g
      → Run settable timeout n (end false g)

pub record Inv (settable : Bool) (timeout : ℤ) (n : ℕ) (g : WriteGuard) : Type 0 where
  pub counted : g.held ≡ pos n
  pub same_timeout : g.timeout ≡ timeout
  pub same_conn : g.settable ≡ settable
  pub idle_unarmed : g.writing ≡ false → g.armed ≡ false
  pub marked : is_some g.deadline ≡ g.armed
  pub covered : g.writing ≡ true → 0 < n → pos 0 <ℤ timeout → settable ≡ true → g.armed ≡ true
  pub armed_held : g.armed ≡ true → 0 < n
  pub on : g.armed ≡ true → settable ≡ true

Run-Inv :
    {settable : Bool} {timeout : ℤ} {n : ℕ} {g : WriteGuard}
    → Run settable timeout n g
    → (n < 2 ^ 63) × Inv settable timeout n g
unfolding new_write_guard hold begin end
Run-Inv start = ground arith
Run-Inv (holds {n} {g} now k r) = let (h, v) = Run-Inv r in ground (arith, add64_pos n 1)
Run-Inv (begins {n} {g} now k r) = let (h, v) = Run-Inv r in ground arith
Run-Inv (ends_buffered {n} {g} k r) = let (h, v) = Run-Inv r in ground (arith, sub64_pos (suc n) 1)
Run-Inv (ends_cached {n} {g} k r) = let (h, v) = Run-Inv r in ground arith

-- Where the guard is on, the deadline is set exactly while a write runs and buffered chunks are
-- held: a request without buffers is never cut, and one that holds some never writes unguarded.
pub deadline_iff :
    {timeout : ℤ} {n : ℕ} {g : WriteGuard}
    → pos 0 <ℤ timeout
    → Run true timeout n g
    → is_some g.deadline ≡ (g.writing && ltb 0 n)
deadline_iff {n = n} on r = let (h, v) = Run-Inv r in ground arith

-- The count of held buffers is the number of those delivered and not yet written.
pub held_exact :
    {settable : Bool} {timeout : ℤ} {n : ℕ} {g : WriteGuard}
    → Run settable timeout n g
    → g.held ≡ pos n
held_exact r = let (h, v) = Run-Inv r in v.counted
