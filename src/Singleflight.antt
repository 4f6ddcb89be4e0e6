-- ===== src/Singleflight.antt =====
-- services/singleflight.go: concurrent fetches of the same chunk share one call. A call is named by
-- a number, as Go names it by a pointer.
pub mod Calls
pub mod Sharing
use s3_cache.Prelude.{
  ℕ, ◌+◌, List, [], ◌∷◌, Option, none, some, Bool, true, false, if◌then◌else◌, ◌==◌, length,
}
use s3_cache.Prelude.Int.{ℤ, pos, add32}
use s3_cache.Prelude.Assoc.{Key, lookup, insert, remove}
use s3_cache.Flight.{ChunkFlight, unref}

-- `admitted` and `done` say whether the channel is closed.
pub record SfCall : Type 0 where
  pub admitted : Bool
  pub done : Bool
  pub res : Option ChunkFlight
  pub waiters : ℤ

-- `next` is the name of the next call that is made.
pub record Singleflight : Type 0 where
  pub m : List (Key × ℕ)
  pub calls : ℕ → SfCall
  pub next : ℕ

abbrev pub update {ℓ} : {A : Type ℓ} → (ℕ → A) → ℕ → A → ℕ → A
update f i a j = if i == j then a else f j

abbrev no_call : SfCall
no_call = record { admitted = false; done = false; res = none; waiters = pos 0 }

unfoldable pub new_singleflight : Singleflight
new_singleflight = record { m = []; calls = λ _. no_call; next = 0 }

unfoldable pub admit : SfCall → SfCall
admit c = record c { admitted = true }

pub record Joined : Type 0 where
  pub group : Singleflight
  pub call : ℕ
  pub leader : Bool

join_at : Singleflight → Key → Option ℕ → Joined
join_at g key (some id) =
    let c : SfCall = g.calls id in
    record {
      group = record g {
        calls = update g.calls id (record c { waiters = add32 c.waiters (pos 1) });
      };
      call = id;
      leader = false;
    }
join_at g key none = record {
  group = record {
    m = insert key g.next g.m;
    calls =
        update g.calls g.next
          (record { admitted = false; done = false; res = none; waiters = pos 1 });
    next = g.next + 1;
  };
  call = g.next;
  leader = true;
}

unfoldable pub join : Key → Singleflight → Joined
unfolding join_at
join key g = join_at g key (lookup key g.m)

unfoldable pub finish : Key → ℕ → ChunkFlight → Singleflight → Singleflight
unfolding admit
finish key id res g =
    let c : SfCall = g.calls id in
    let published : ChunkFlight = record res { refs = c.waiters } in
    record g {
      m = remove key g.m;
      calls = update g.calls id (record (admit c) { res = some published; done = true });
    }

unfoldable pub inflight : Singleflight → ℕ
inflight g = length g.m

drop_of : Singleflight → ℕ → Option ChunkFlight → Singleflight × Bool
drop_of g id none = (g, false)
drop_of g id (some fl) =
    let (fl', freed) = unref fl in
    (record g { calls = update g.calls id (record (g.calls id) { res = some fl' }) }, freed)

-- A caller of call `id` drops its reference (chunkFlight.unref, from a claim or a close).
unfoldable pub drop_reference : ℕ → Singleflight → Singleflight × Bool
unfolding drop_of
drop_reference id g = drop_of g id (g.calls id).res
