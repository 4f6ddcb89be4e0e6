-- ===== src/Budget/Invariant.antt =====
-- Every step of a run keeps the invariant, and what follows for the bytes and for the waiting callers.
use s3_cache.Prelude.{
  ℕ, ◌+◌, ◌*◌, ◌^◌, ◌<◌, ◌≤◌, ◌≡◌, refl, List, [], ◌∷◌, ◌++◌, some, true, false, arith, length,
  length-append, max, sym, ap, ◌∙◌, inl, inr, if◌then◌else◌,
}
use s3_cache.Prelude.Int.{pos, ◌≤ℤ◌, ltb_ℤ, add64, sub64, add64_pos, sub64_pos}
use s3_cache.Budget.{ChunkBudget, new_chunk_budget, acquire, give_up, alloc, release}
use s3_cache.Budget.Runs.{
  Run, start, acquires, waits, gives_up, allocs, releases, hands_over, sum, sum-append, AllLe,
  AllLe-parts, AllLe-put, sum_total, Inv,
}

module _ {units chunk : ℕ} {b : ChunkBudget} where
  acquire-Inv :
      {l : List ℕ} (id : ℕ)
      → (acquire id b).1 ≡ true
      → Inv units chunk b l
      → Inv units chunk (acquire id b).0 (0 ∷ l)
  unfolding acquire
  acquire-Inv id h v = ground arith

  wait-Inv :
      {l : List ℕ} (id : ℕ)
      → (acquire id b).1 ≡ false
      → Inv units chunk b l
      → Inv units chunk (acquire id b).0 l
  unfolding acquire
  wait-Inv id h v = ground arith

  give_up-Inv : {l : List ℕ} (id : ℕ) → Inv units chunk b l → Inv units chunk (give_up id b) l
  unfolding give_up
  give_up-Inv id v = record {
    same_capacity = v.same_capacity;
    counted = v.counted;
    bounded = v.bounded;
    busy = elim v.busy [ inl e ↦ inl (rw e refl) | inr e ↦ inr e ];
    small = v.small;
    exact = v.exact;
    peaked = v.peaked;
  }

  module _ (fits : units * chunk < 2 ^ 63) (xs ys : List ℕ) (n : ℕ) where
    alloc-Inv :
        n ≤ chunk
        → Inv units chunk b (xs ++ 0 ∷ ys)
        → Inv units chunk (alloc (pos n) b) (xs ++ n ∷ ys)
    unfolding alloc
    alloc-Inv h v =
        let small : AllLe chunk (xs ++ n ∷ ys) = AllLe-put chunk 0 n xs ys v.small h in
        let s : ℕ = sum (xs ++ n ∷ ys) in
        let len : length (xs ++ n ∷ ys) ≡ b.taken =
          omega (arith, v.counted, length-append xs (n ∷ ys), length-append xs (0 ∷ ys)) in
        let total : s ≤ units * chunk =
          sum_total units chunk (xs ++ n ∷ ys) small (omega (arith, len, v.bounded)) in
        let grown : sum (xs ++ 0 ∷ ys) + n ≡ s =
          omega (arith, sum-append xs (n ∷ ys), sum-append xs (0 ∷ ys)) in
        let used : add64 b.in_use (pos n) ≡ pos s =
          rw v.exact
            (add64_pos (sum (xs ++ 0 ∷ ys)) n (omega (arith, grown, total)) ∙ ap pos grown) in
        let (p, e, lo, hi) = v.peaked in
        record {
          same_capacity = v.same_capacity;
          counted = sym len;
          bounded = v.bounded;
          busy = v.busy;
          small = small;
          exact = used;
          peaked = (max p s, rw (used, e) (ground arith), omega arith, omega arith);
        }

    -- The allocated bytes after a release.
    freed :
        Inv units chunk b (xs ++ n ∷ ys)
        → (if ltb_ℤ (pos 0) (pos n) then sub64 b.in_use (pos n) else b.in_use)
          ≡ pos (sum (xs ++ ys))
    freed v =
        let s : ℕ = sum (xs ++ n ∷ ys) in
        let shrunk : s ≡ n + sum (xs ++ ys) =
          omega (arith, sum-append xs (n ∷ ys), sum-append xs ys) in
        let len : length (xs ++ n ∷ ys) ≤ units = omega (arith, v.counted, v.bounded) in
        let total : s ≤ units * chunk = sum_total units chunk (xs ++ n ∷ ys) v.small len in
        rw v.exact (ground (arith, sub64_pos s n))

    release-Inv :
        b.queue ≡ []
        → Inv units chunk b (xs ++ n ∷ ys)
        → Inv units chunk (release (pos n) b).0 (xs ++ ys)
    unfolding release
    release-Inv q v =
        let (small, k) = AllLe-parts chunk n xs ys v.small in
        let (p, e, lo, hi) = v.peaked in
        rw (release, q)
          (record {
            same_capacity = v.same_capacity;
            counted = omega (arith, v.counted, length-append xs (n ∷ ys), length-append xs ys);
            bounded = omega (arith, v.bounded);
            busy = inl refl;
            small = small;
            exact = freed v;
            peaked = (p, e, omega (arith, lo, sum-append xs (n ∷ ys), sum-append xs ys), hi);
          })

    hand_over-Inv :
        {id : ℕ} {rest : List ℕ}
        → b.queue ≡ id ∷ rest
        → Inv units chunk b (xs ++ n ∷ ys)
        → Inv units chunk (release (pos n) b).0 (0 ∷ (xs ++ ys))
    unfolding release
    hand_over-Inv q v =
        let (small, k) = AllLe-parts chunk n xs ys v.small in
        let (p, e, lo, hi) = v.peaked in
        rw (release, q)
          (record {
            same_capacity = v.same_capacity;
            counted = omega (arith, v.counted, length-append xs (n ∷ ys), length-append xs ys);
            bounded = v.bounded;
            busy = inr (ground arith);
            small = (omega arith, small);
            exact = freed v ∙ ap pos (omega arith);
            peaked = (p, e, omega (arith, lo, sum-append xs (n ∷ ys), sum-append xs ys), hi);
          })

pub Run-Inv :
    {units chunk : ℕ} {b : ChunkBudget} {l : List ℕ}
    → units * chunk < 2 ^ 63
    → Run units chunk b l
    → Inv units chunk b l
unfolding new_chunk_budget
Run-Inv fits start = record {
  same_capacity = refl;
  counted = refl;
  bounded = omega arith;
  busy = inl refl;
  small = tt;
  exact = refl;
  peaked = (0, refl, omega arith, omega arith);
}
Run-Inv fits (acquires id h r) = acquire-Inv id h (Run-Inv fits r)
Run-Inv fits (waits id h r) = wait-Inv id h (Run-Inv fits r)
Run-Inv fits (gives_up id r) = give_up-Inv id (Run-Inv fits r)
Run-Inv fits (allocs xs ys n h r) = alloc-Inv fits xs ys n h (Run-Inv fits r)
Run-Inv fits (releases xs ys n q r) = release-Inv fits xs ys n q (Run-Inv fits r)
Run-Inv fits (hands_over xs ys n q r) = hand_over-Inv fits xs ys n q (Run-Inv fits r)

-- The promise of the budget, where units × chunk size fits an int64: the chunk bytes in the heap never
-- exceed it, now and at their peak, and are those of the buffers that are held.
pub bytes_bounded :
    {units chunk : ℕ} {b : ChunkBudget} {l : List ℕ}
    → units * chunk < 2 ^ 63
    → Run units chunk b l
    → (b.in_use ≡ pos (sum l))
      × (b.in_use ≤ℤ pos (units * chunk))
      × (b.in_use ≤ℤ b.peak)
      × (b.peak ≤ℤ pos (units * chunk))
      × (length l ≤ units)
bytes_bounded {units} {chunk} {l = l} fits r =
    let v = Run-Inv fits r in
    let (p, e, lo, hi) = v.peaked in
    (
      v.exact,
      rw v.exact (omega arith),
      rw (v.exact, e) (omega arith),
      rw e (omega arith),
      omega (arith, v.counted, v.bounded),
    )

queue_full :
    {units chunk : ℕ} {b : ChunkBudget} {l : List ℕ} {id : ℕ} {rest : List ℕ}
    → Inv units chunk b l
    → b.queue ≡ id ∷ rest
    → b.taken ≡ units
queue_full v q = ground arith

-- While callers wait, every unit is held, a new caller does not get one but waits behind them, and
-- a release passes its unit to the caller that has waited longest, who leaves the queue.
pub oldest_first :
    {units chunk : ℕ} {b : ChunkBudget} {l : List ℕ} {id : ℕ} {rest : List ℕ}
    → units * chunk < 2 ^ 63
    → Run units chunk b l
    → b.queue ≡ id ∷ rest
    → (new : ℕ) (n : ℕ)
    → (b.taken ≡ units)
      × (acquire new b ≡ (record b { queue = b.queue ++ new ∷ [] }, false))
      × ((release (pos n) b).1 ≡ some id)
      × ((release (pos n) b).0.queue ≡ rest)
      × ((release (pos n) b).0.taken ≡ units)
unfolding acquire release
oldest_first fits r q new n =
    let v = Run-Inv fits r in
    let full = queue_full v q in
    (
      full,
      ground (arith, v.same_capacity),
      rw (release, q) refl,
      rw (release, q) refl,
      rw (release, q) full,
    )
