-- ===== src/Singleflight/Sharing.antt =====
-- What the life of the calls comes to: one fetch at a time for a chunk, freed once.
use s3_cache.Prelude.{
  ℕ, ◌<◌, ◌≡◌, refl, ◌∙◌, none, some, true, false, arith, inl, inr, if◌then◌else◌, ◌==◌,
  Option-cases,
}
use s3_cache.Prelude.Assoc.{Key, remove, lookup, lookup-insert, lookup-remove, same_refl}
use s3_cache.Flight.{ChunkFlight}
use s3_cache.Singleflight.{Singleflight, Joined, join, finish, join_at}
use s3_cache.Singleflight.Calls.{Run, Run-Inv}

-- Over any interleaving, the resources of a call are freed exactly when its last reference is
-- dropped, once, and never before its result is published: so long as a caller holds a reference
-- they are not freed, and when none does they are.
pub freed_once :
    {g : Singleflight} {held frees : ℕ → ℕ}
    → Run g held frees
    → (i : ℕ) → frees i ≡ (if (g.calls i).done then if held i == 0 then 1 else 0 else 0)
freed_once {g} r i =
    let v = Run-Inv r in
    elim (Option-cases (g.calls i).res) [
      | inl e ↦ ground (arith, v.each i, v.published i)
      | inr (fl, e) ↦ ground (arith, v.each i, v.published i)
    ]

-- While a key is in flight a caller joins its call, does not lead, and the call is not done; and no
-- two keys share a call.
pub join_in_flight :
    {g : Singleflight} {held frees : ℕ → ℕ}
    → Run g held frees
    → (key other : Key) (id : ℕ) → lookup key g.m ≡ some id
    → ((join key g).leader ≡ false)
      × ((join key g).call ≡ id)
      × ((g.calls id).done ≡ false)
      × (lookup other g.m ≡ some id → other ≡ key)
unfolding join join_at
join_in_flight {g} r key other id e =
    let v = Run-Inv r in
    (rw (join, e) refl, rw (join, e) refl, (v.opened key id e).3, λ p. v.unique other key id p e)

-- Once the call in flight for a key is finished, the next caller of the key leads, with a new call
-- that is then in flight.
pub finish_then_join :
    {g : Singleflight} {held frees : ℕ → ℕ}
    → Run g held frees
    → (key : Key) (id : ℕ) (res : ChunkFlight) → lookup key g.m ≡ some id
    → let j : Joined = join key (finish key id res g) in
      (j.leader ≡ true) × (id < j.call) × (lookup key j.group.m ≡ some j.call)
unfolding join join_at finish
finish_then_join {g} r key id res e =
    let v = Run-Inv r in
    let gone : lookup key (finish key id res g).m ≡ none =
      lookup-remove key key g.m ∙ rw (same_refl key) refl in
    rw (join, gone)
      (
        refl,
        (v.opened key id e).0,
        lookup-insert key key g.next (remove key g.m) ∙ rw (same_refl key) refl,
      )
