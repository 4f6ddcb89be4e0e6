-- ===== src/Singleflight/Calls.antt =====
-- The life of the calls, over any interleaving of joins, finishes and dropped references.
use s3_cache.Prelude.{
  ℕ, suc, ◌+◌, ◌^◌, ◌<◌, ◌≤◌, ◌≡◌, refl, Option, none, some, Bool, true, false, arith, inl, inr,
  if◌then◌else◌, ◌==◌, Option-cases, is_some,
}
use s3_cache.Prelude.Int.{ℤ, pos, add32_one, add32-minus_one}
use s3_cache.Prelude.Assoc.{Key, lookup, lookup-insert, lookup-remove, same_iff}
use s3_cache.Flight.{ChunkFlight, unref}
use s3_cache.Singleflight.{
  Singleflight, update, new_singleflight, join, finish, drop_reference, join_at, drop_of,
}

-- A run. `held i` counts the references to call `i` that its callers have and have not dropped, and
-- `frees i` how often its resources were freed. The caller that was told to lead finishes the call
-- of its key; a reference is dropped only once the result is published.
pub data Run : Singleflight → (ℕ → ℕ) → (ℕ → ℕ) → Type 0 where
  start : Run new_singleflight (λ _. 0) (λ _. 0)
  joins :
      {g : Singleflight} {held frees : ℕ → ℕ} (key : Key)
      → held (join key g).call + 1 < 2 ^ 31
      → Run g held frees
      → Run (join key g).group (update held (join key g).call (held (join key g).call + 1)) frees
  finishes :
      {g : Singleflight} {held frees : ℕ → ℕ} (key : Key) (id : ℕ) (res : ChunkFlight)
      → lookup key g.m ≡ some id
      → res.free ≡ true
      → Run g held frees
      → Run (finish key id res g) held frees
  drops :
      {g : Singleflight} {held frees : ℕ → ℕ} (id : ℕ) (n : ℕ)
      → is_some (g.calls id).res ≡ true
      → held id ≡ suc n
      → Run g held frees
      → Run
          (drop_reference id g).0
          (update held id n)
          (update frees id (if (drop_reference id g).1 then frees id + 1 else frees id))

-- What is true of call `i`, by its result.
abbrev pub CallInv : Option ChunkFlight → ℤ → ℕ → ℕ → Type 0
CallInv none waiters held frees = (waiters ≡ pos held) × (frees ≡ 0)
CallInv (some fl) waiters held frees =
    (fl.refs ≡ pos held) × (fl.free ≡ true) × (frees ≡ (if held == 0 then 1 else 0))

pub record Inv (g : Singleflight) (held frees : ℕ → ℕ) : Type 0 where
  pub each :
      (i : ℕ) → CallInv (g.calls i).res (g.calls i).waiters (held i) (frees i) × (held i < 2 ^ 31)
  pub opened :
      (key : Key) (i : ℕ)
      → lookup key g.m ≡ some i
      → (i < g.next) × ((g.calls i).res ≡ none) × (0 < held i) × ((g.calls i).done ≡ false)
  pub unique : (k l : Key) (i : ℕ) → lookup k g.m ≡ some i → lookup l g.m ≡ some i → k ≡ l
  pub unborn : (i : ℕ) → g.next ≤ i → ((g.calls i).res ≡ none) × (held i ≡ 0)
  pub published : (i : ℕ) → is_some (g.calls i).res ≡ (g.calls i).done

-- One reference of a published call is dropped.
drop_call :
    (n frees : ℕ) (w : ℤ) (fl : ChunkFlight)
    → CallInv (some fl) w (suc n) frees
    → suc n < 2 ^ 31
    → CallInv (some (unref fl).0) w n (if (unref fl).1 then frees + 1 else frees)
unfolding unref
drop_call n frees w fl v h = ground (arith, add32-minus_one n)

module _ {g : Singleflight} {held frees : ℕ → ℕ} (key : Key) (v : Inv g held frees) where
  join_old :
      (id : ℕ)
      → lookup key g.m ≡ some id
      → held id + 1 < 2 ^ 31
      → Inv (join_at g key (some id)).group (update held id (held id + 1)) frees
  unfolding join_at
  join_old id e h = record {
    each = λ i. ground (arith, v.each i, v.opened key id, add32_one (held id));
    opened = λ k i p. ground (arith, v.opened k i);
    unique = v.unique;
    unborn = λ i p. ground (arith, v.unborn i, v.opened key id);
    published = λ i. ground (arith, v.published i);
  }

  join_new :
      lookup key g.m ≡ none
      → held g.next + 1 < 2 ^ 31
      → Inv (join_at g key none).group (update held g.next (held g.next + 1)) frees
  unfolding join_at
  join_new e h = record {
    each = λ i. ground (arith, v.each i, v.unborn g.next);
    opened = λ k i p. ground (arith, v.opened k i, v.unborn g.next, lookup-insert key k g.next g.m);
    unique = λ k l i p q. ground (
      arith,
      v.unique k l i,
      v.opened k i,
      v.opened l i,
      lookup-insert key k g.next g.m,
      lookup-insert key l g.next g.m,
      same_iff k key,
      same_iff l key,
    );
    unborn = λ i p. ground (arith, v.unborn i);
    published = λ i. ground (arith, v.published i);
  }

  join-Inv :
      held (join key g).call + 1 < 2 ^ 31
      → Inv (join key g).group (update held (join key g).call (held (join key g).call + 1)) frees
  unfolding join join_at
  join-Inv h = elim (Option-cases (lookup key g.m)) [
    | inl e ↦ rw (join, e) (join_new e (rw e at h))
    | inr (id, e) ↦ rw (join, e) (join_old id e (rw e at h))
  ]

  finish-Inv :
      (id : ℕ) (res : ChunkFlight)
      → lookup key g.m ≡ some id
      → res.free ≡ true
      → Inv (finish key id res g) held frees
  unfolding finish
  finish-Inv id res e f = record {
    each = λ i. ground (arith, v.each i, v.opened key id);
    opened = λ k i p.
        ground (arith, v.opened k i, v.unique k key id, lookup-remove key k g.m, same_iff k key);
    unique = λ k l i p q.
        ground (arith, v.unique k l i, lookup-remove key k g.m, lookup-remove key l g.m);
    unborn = λ i p. ground (arith, v.unborn i, v.opened key id);
    published = λ i. ground (arith, v.published i);
  }

module _ {g : Singleflight} {held frees : ℕ → ℕ} (v : Inv g held frees) where
  drop-Inv :
      (id n : ℕ) (fl : ChunkFlight)
      → (g.calls id).res ≡ some fl
      → held id ≡ suc n
      → let d : Singleflight × Bool = drop_of g id (some fl) in
        Inv d.0 (update held id n) (update frees id (if d.1 then frees id + 1 else frees id))
  unfolding drop_of
  drop-Inv id n fl e h =
      let step = drop_call n (frees id) (g.calls id).waiters fl in
      record {
        each = λ i. ground (arith, v.each i, step);
        opened = λ k i p. ground (arith, v.opened k i);
        unique = v.unique;
        unborn = λ i p. ground (arith, v.unborn i);
        published = λ i. ground (arith, v.published i);
      }

pub Run-Inv : {g : Singleflight} {held frees : ℕ → ℕ} → Run g held frees → Inv g held frees
unfolding new_singleflight drop_reference lookup
Run-Inv start = record {
  each = λ i. ((refl, refl), omega arith);
  opened = λ k i p. cc;
  unique = λ k l i p q. cc;
  unborn = λ i p. (refl, refl);
  published = λ i. refl;
}
Run-Inv (joins key h r) = join-Inv key (Run-Inv r) h
Run-Inv (finishes key id res e f r) = finish-Inv key (Run-Inv r) id res e f
Run-Inv (drops {g} id n p h r) = elim (Option-cases (g.calls id).res) [
  | inl e ↦ absurd (ground arith)
  | inr (fl, e) ↦ rw (drop_reference, e) (drop-Inv (Run-Inv r) id n fl e h)
]
