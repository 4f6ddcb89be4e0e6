-- ===== src/WriteGuard.antt =====
-- services/write_guard.go: the write deadline of a request that holds chunk buffers.
pub mod Trace
use s3_cache.Prelude.{ℕ, ◌+◌, Option, none, some, Bool, true, false, not, ◌&&◌, if◌then◌else◌}
use s3_cache.Prelude.Int.{ℤ, pos, add64, sub64, ltb_ℤ, leb_ℤ}

-- `deadline` and `settable` stand for the connection behind `rc`: the write deadline that is set on
-- it, and whether SetWriteDeadline succeeds there.
pub record WriteGuard : Type 0 where
  pub timeout : ℤ
  pub held : ℤ
  pub writing : Bool
  pub armed : Bool
  pub deadline : Option ℤ
  pub settable : Bool

unfoldable pub new_write_guard : Bool → ℤ → WriteGuard
new_write_guard settable timeout = record {
  timeout = timeout;
  held = pos 0;
  writing = false;
  armed = false;
  deadline = none;
  settable = settable;
}

unfoldable pub arm : ℤ → WriteGuard → WriteGuard
arm now g =
    if leb_ℤ g.timeout (pos 0)
    then g
    else if g.settable
    then record g { deadline = some (add64 now g.timeout); armed = true }
    else g

unfoldable pub hold : ℤ → WriteGuard → WriteGuard
unfolding arm
hold now g =
    let g' : WriteGuard = record g { held = add64 g.held (pos 1) } in
    if g'.writing && not g'.armed then arm now g' else g'

unfoldable pub begin : ℤ → WriteGuard → WriteGuard
unfolding arm
begin now g =
    let g' : WriteGuard = record g { writing = true } in
    if ltb_ℤ (pos 0) g'.held then arm now g' else g'

-- The deadline is cleared by SetWriteDeadline with the zero time.
unfoldable pub end : Bool → WriteGuard → WriteGuard
end buffered g =
    let g' : WriteGuard = record g {
      writing = false;
      held = if buffered then sub64 g.held (pos 1) else g.held;
    } in
    if g'.armed
    then record g' { armed = false; deadline = if g'.settable then none else g'.deadline }
    else g'
