-- ===== src/Readahead/Running.antt =====
-- services/readahead.go: the running fetches, over any interleaving of schedules and ends of fetches.
use s3_cache.Prelude.{
  ℕ, ◌+◌, ◌<◌, ◌≤◌, ◌≡◌, refl, sym, ◌∙◌, List, [], ◌∷◌, ◌++◌, arith, if◌then◌else◌, Bool, true,
  false, ◌&&◌, ◌||◌, not, is_some, max, Bool-cases, inl, inr, lt→ltb, le→ltb,
}
use s3_cache.Prelude.Int.{ℤ, pos, pos_part, ltb_ℤ}
use s3_cache.Prelude.Assoc.{
  Key, same, same_sym, same_iff, lookup, remove, lookup-insert, lookup-remove,
}
use s3_cache.Readahead.{Readahead, new_readahead, mark, claim_slot, free_slot, forget}

-- How far a key is: marked, with a slot, or without it again.
pub data Phase : Type 0 where
  marked fetching ending : Phase

abbrev weight : Phase → ℕ
weight marked = 0
weight fetching = 1
weight ending = 0

-- The fetches among the keys that are under way.
abbrev pub fetches : List (Key × Phase) → ℕ
fetches [] = 0
fetches ((k, ph) ∷ l) = weight ph + fetches l

abbrev pub holds : Key → List (Key × Phase) → Bool
holds j [] = false
holds j ((k, ph) ∷ l) = same j k || holds j l

abbrev pub distinct : List (Key × Phase) → Bool
distinct [] = true
distinct ((k, ph) ∷ l) = not (holds k l) && distinct l

-- A run with the keys that are under way.
pub data Run (chunks concurrency timeout : ℤ) : Readahead → List (Key × Phase) → Type 0 where
  start : Run chunks concurrency timeout (new_readahead chunks concurrency timeout) []
  marks :
      {r : Readahead} {l : List (Key × Phase)} (k : Key)
      → (mark k r).1 ≡ true
      → Run chunks concurrency timeout r l
      → Run chunks concurrency timeout (mark k r).0 ((k, marked) ∷ l)
  finds :
      {r : Readahead} {l : List (Key × Phase)} (k : Key)
      → (mark k r).1 ≡ false
      → Run chunks concurrency timeout r l
      → Run chunks concurrency timeout (mark k r).0 l
  claims :
      {r : Readahead} (xs ys : List (Key × Phase)) (k : Key) (s e : ℤ)
      → r.taken < r.capacity
      → Run chunks concurrency timeout r (xs ++ (k, marked) ∷ ys)
      → Run chunks concurrency timeout (claim_slot k s e r).0 (xs ++ (k, fetching) ∷ ys)
  drops :
      {r : Readahead} (xs ys : List (Key × Phase)) (k : Key) (s e : ℤ)
      → r.capacity ≤ r.taken
      → Run chunks concurrency timeout r (xs ++ (k, marked) ∷ ys)
      → Run chunks concurrency timeout (claim_slot k s e r).0 (xs ++ ys)
  frees :
      {r : Readahead} (xs ys : List (Key × Phase)) (k : Key)
      → Run chunks concurrency timeout r (xs ++ (k, fetching) ∷ ys)
      → Run chunks concurrency timeout (free_slot r) (xs ++ (k, ending) ∷ ys)
  forgets :
      {r : Readahead} (xs ys : List (Key × Phase)) (k : Key)
      → Run chunks concurrency timeout r (xs ++ (k, ending) ∷ ys)
      → Run chunks concurrency timeout (forget k r) (xs ++ ys)

fetches_mid :
    (xs ys : List (Key × Phase)) (k : Key) (ph : Phase)
    → fetches (xs ++ (k, ph) ∷ ys) ≡ weight ph + fetches (xs ++ ys)
fetches_mid [] ys k ph = refl
fetches_mid ((j, p) ∷ xs) ys k ph = omega (arith, fetches_mid xs ys k ph)

holds_mid :
    (j : Key) (xs ys : List (Key × Phase)) (k : Key) (ph : Phase)
    → holds j (xs ++ (k, ph) ∷ ys) ≡ (same j k || holds j (xs ++ ys))
holds_mid j [] ys k ph = refl
holds_mid j ((i, p) ∷ xs) ys k ph = ground (arith, holds_mid j xs ys k ph)

distinct_mid :
    (xs ys : List (Key × Phase)) (k : Key) (ph : Phase)
    → distinct (xs ++ (k, ph) ∷ ys) ≡ (not (holds k (xs ++ ys)) && distinct (xs ++ ys))
distinct_mid [] ys k ph = refl
distinct_mid ((j, p) ∷ xs) ys k ph =
    ground (arith, holds_mid j xs ys k ph, distinct_mid xs ys k ph, same_sym j k)

-- What holds of a readahead in a run.
pub record Inv (capacity : ℕ) (r : Readahead) (l : List (Key × Phase)) : Type 0 where
  pub same_capacity : r.capacity ≡ capacity
  pub counted : r.taken ≡ fetches l
  pub bounded : r.taken ≤ r.capacity
  pub tracked : (j : Key) → is_some (lookup j r.in_flight) ≡ holds j l
  pub once : distinct l ≡ true

-- The slots of a readahead; a concurrency below 1 counts as 1.
abbrev pub slots : ℤ → ℕ
slots concurrency = max 1 (pos_part concurrency)

capacity_lem : (z : ℤ) → pos_part (if ltb_ℤ z (pos 1) then pos 1 else z) ≡ slots z
capacity_lem z = ground arith

module _ {capacity : ℕ} {r : Readahead} where
  mark-Inv :
      {l : List (Key × Phase)} (k : Key)
      → (mark k r).1 ≡ true
      → Inv capacity r l
      → Inv capacity (mark k r).0 ((k, marked) ∷ l)
  unfolding mark
  mark-Inv k h v = elim (Bool-cases (is_some (lookup k r.in_flight))) [
    | inl held ↦ let clash : false ≡ true = rw (mark, held) at h in absurd (cc)
    | inr fresh ↦
        rw (mark, fresh)
          (record {
            same_capacity = v.same_capacity;
            counted = omega (arith, v.counted);
            bounded = v.bounded;
            tracked = λ j. ground (arith, lookup-insert k j tt r.in_flight, v.tracked j);
            once = ground (arith, v.tracked k);
          })
  ]

  find-Inv :
      {l : List (Key × Phase)} (k : Key)
      → (mark k r).1 ≡ false
      → Inv capacity r l
      → Inv capacity (mark k r).0 l
  unfolding mark
  find-Inv k h v = elim (Bool-cases (is_some (lookup k r.in_flight))) [
    | inl held ↦ rw (mark, held) v
    | inr fresh ↦ let clash : true ≡ false = rw (mark, fresh) at h in absurd (cc)
  ]

  module _ (xs ys : List (Key × Phase)) (k : Key) where
    claim_slot-Inv :
        (s e : ℤ)
        → r.taken < r.capacity
        → Inv capacity r (xs ++ (k, marked) ∷ ys)
        → Inv capacity (claim_slot k s e r).0 (xs ++ (k, fetching) ∷ ys)
    unfolding claim_slot
    claim_slot-Inv s e room v =
        rw (claim_slot, lt→ltb r.taken r.capacity room)
          (record {
            same_capacity = v.same_capacity;
            counted =
                omega (arith, v.counted, fetches_mid xs ys k marked, fetches_mid xs ys k fetching);
            bounded = omega arith;
            tracked =
                λ j. v.tracked j ∙ holds_mid j xs ys k marked ∙ sym (holds_mid j xs ys k fetching);
            once = distinct_mid xs ys k fetching ∙ sym (distinct_mid xs ys k marked) ∙ v.once;
          })

    -- The mark of a key is taken away.
    unmarked :
        (ph : Phase)
        → Inv capacity r (xs ++ (k, ph) ∷ ys)
        → ((j : Key) → is_some (lookup j (remove k r.in_flight)) ≡ holds j (xs ++ ys))
          × (distinct (xs ++ ys) ≡ true)
    unmarked ph v = (
      λ j. ground (
        arith,
        lookup-remove k j r.in_flight,
        same_iff j k,
        v.tracked j,
        holds_mid j xs ys k ph,
        distinct_mid xs ys k ph,
        v.once,
      ),
      ground (arith, distinct_mid xs ys k ph, v.once),
    )

    drop-Inv :
        (s e : ℤ)
        → r.capacity ≤ r.taken
        → Inv capacity r (xs ++ (k, marked) ∷ ys)
        → Inv capacity (claim_slot k s e r).0 (xs ++ ys)
    unfolding claim_slot
    drop-Inv s e full v =
        let (tracked, once) = unmarked marked v in
        rw (claim_slot, le→ltb r.taken r.capacity full)
          (record {
            same_capacity = v.same_capacity;
            counted = omega (arith, v.counted, fetches_mid xs ys k marked);
            bounded = v.bounded;
            tracked = tracked;
            once = once;
          })

    free-Inv :
        Inv capacity r (xs ++ (k, fetching) ∷ ys)
        → Inv capacity (free_slot r) (xs ++ (k, ending) ∷ ys)
    unfolding free_slot
    free-Inv v = record {
      same_capacity = v.same_capacity;
      counted = omega (arith, v.counted, fetches_mid xs ys k fetching, fetches_mid xs ys k ending);
      bounded = omega (arith, v.bounded);
      tracked = λ j. v.tracked j ∙ holds_mid j xs ys k fetching ∙ sym (holds_mid j xs ys k ending);
      once = distinct_mid xs ys k ending ∙ sym (distinct_mid xs ys k fetching) ∙ v.once;
    }

    forget-Inv : Inv capacity r (xs ++ (k, ending) ∷ ys) → Inv capacity (forget k r) (xs ++ ys)
    unfolding forget
    forget-Inv v =
        let (tracked, once) = unmarked ending v in
        record {
          same_capacity = v.same_capacity;
          counted = omega (arith, v.counted, fetches_mid xs ys k ending);
          bounded = v.bounded;
          tracked = tracked;
          once = once;
        }

pub Run-Inv :
    {chunks concurrency timeout : ℤ} {r : Readahead} {l : List (Key × Phase)}
    → Run chunks concurrency timeout r l
    → Inv (slots concurrency) r l
unfolding new_readahead lookup
Run-Inv {concurrency} start = record {
  same_capacity = capacity_lem concurrency;
  counted = refl;
  bounded = omega arith;
  tracked = λ j. refl;
  once = refl;
}
Run-Inv (marks k h r) = mark-Inv k h (Run-Inv r)
Run-Inv (finds k h r) = find-Inv k h (Run-Inv r)
Run-Inv (claims xs ys k s e h r) = claim_slot-Inv xs ys k s e h (Run-Inv r)
Run-Inv (drops xs ys k s e h r) = drop-Inv xs ys k s e h (Run-Inv r)
Run-Inv (frees xs ys k r) = free-Inv xs ys k (Run-Inv r)
Run-Inv (forgets xs ys k r) = forget-Inv xs ys k (Run-Inv r)

-- However the schedules and the ends of fetches interleave, as many fetches run as slots are taken,
-- and no more than the concurrency, or one where that is less; no key is under way twice; and the marks
-- are those of the keys under way.
pub fetches_bounded :
    {chunks concurrency timeout : ℤ} {r : Readahead} {l : List (Key × Phase)}
    → Run chunks concurrency timeout r l
    → (r.taken ≡ fetches l)
      × (fetches l ≤ slots concurrency)
      × (distinct l ≡ true)
      × ((j : Key) → is_some (lookup j r.in_flight) ≡ holds j l)
fetches_bounded r =
    let v = Run-Inv r in
    (v.counted, omega (arith, v.counted, v.bounded, v.same_capacity), v.once, v.tracked)
