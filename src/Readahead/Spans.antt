-- ===== src/Readahead/Spans.antt =====
-- services/readahead.go, Kick: which spans of the object are fetched ahead.
use native.Mathlib.Nat.{le-div_iff_mul-le}
use s3_cache.Prelude.{
  ℕ, zero, suc, ◌+◌, ◌-◌, ◌*◌, ◌/◌, ◌^◌, ◌<◌, ◌≤◌, ◌≡◌, refl, ap, subst, ◌∙◌, inl, inr, List, [],
  ◌∷◌, arith, ltb, min, length, Bool-cases, false, is_some,
}
use s3_cache.Prelude.Int.{
  ℤ, pos, pos_part, sub64, div64, add64_pos, sub64_pos, mul64_pos, div64_pos, ltb_ℤ, leb_ℤ,
}
use s3_cache.Prelude.Assoc.{Key, lookup}
use s3_cache.Fetcher.Get.{ObjVersion}
use s3_cache.Cache.Files.{CacheState}
use s3_cache.Cache.Names.{flight_key}
use s3_cache.Readahead.{
  Readahead, Scheduled, started, Lookup, is_hit, span_end, mark, claim_slot, start_fetch, schedule,
  kick_from, kick,
}
use s3_cache.Readahead.Keys.{dedup_key-eq-flight_key}

-- A fetch that was started for chunk `n`: its key, and its span in an object of `total` bytes.
abbrev pub Ahead : Key → ObjVersion → ℕ → ℕ → ℕ → Scheduled → Type 0
Ahead key v c total n (started k s e) =
    (k ≡ flight_key key (pos (n * c)) v)
    × (s ≡ pos (n * c))
    × (e ≡ pos (min (n * c + c) total - 1))
    × (n * c < total)
Ahead key v c total n _ = Unit {0}

abbrev pub AllAhead : Key → ObjVersion → ℕ → ℕ → ℕ → List Scheduled → Type 0
AllAhead key v c total n [] = Unit {0}
AllAhead key v c total n (how ∷ hows) =
    Ahead key v c total n how × AllAhead key v c total (n + 1) hows

moved_on :
    (key : Key) (v : ObjVersion) (c total : ℕ) {m n : ℕ} (hows : List Scheduled)
    → m ≡ n
    → AllAhead key v c total m hows
    → AllAhead key v c total n hows
moved_on key v c total hows e h = subst (λ k. AllAhead key v c total k hows) e h

module _ (get : Lookup) (key : Key) (v : ObjVersion) (c total : ℕ) (hc : 0 < c)
    (fits : total + c < 2 ^ 63) where
  span_end_lem :
      (n : ℕ)
      → n * c < total
      → span_end (pos c) (pos total) (pos (n * c)) ≡ pos (min (n * c + c) total - 1)
  span_end_lem n h =
      rw
        (
          add64_pos (n * c) c (omega arith),
          sub64_pos (n * c + c) 1 (omega arith) (omega arith),
          sub64_pos total 1 (omega arith) (omega arith),
        )
        (ground arith)

  start_fetch-Ahead :
      (n : ℕ) (k : Key) (s e : ℤ) (r : Readahead)
      → Ahead key v c total n (started k s e)
      → Ahead key v c total n (start_fetch k s e r).1
  unfolding start_fetch mark claim_slot
  start_fetch-Ahead n k s e r h = elim (Bool-cases (is_some (lookup k r.in_flight))) [
    | inl held ↦ rw (start_fetch, held) tt
    | inr fresh ↦ elim (Bool-cases (ltb r.taken r.capacity)) [
      | inl room ↦ rw (start_fetch, fresh, room) h
      | inr full ↦ rw (start_fetch, fresh, full) tt
    ]
  ]

  schedule-Ahead :
      (n : ℕ) (r : Readahead) (st : CacheState)
      → n * c < total
      → Ahead key v c total n (schedule get (pos c) key v (pos n) (pos total) r st).2
  unfolding schedule
  schedule-Ahead n r st h =
      rw
        (
          schedule,
          mul64_pos n c (omega arith),
          span_end_lem n h,
          dedup_key-eq-flight_key key v (n * c),
        )
        (elim (Bool-cases (is_hit (get (pos (n * c)) st).1)) [
          | inl cached ↦ rw cached tt
          | inr missing ↦ rw missing (
              start_fetch-Ahead n (flight_key key (pos (n * c)) v) (pos (n * c))
                (pos (min (n * c + c) total - 1)) r (refl, refl, refl, h))
        ])

  -- The number of the last chunk, as Kick computes it.
  last_lem : 0 < total → div64 (sub64 (pos total) (pos 1)) (pos c) ≡ pos ((total - 1) / c)
  last_lem h = rw (sub64_pos total 1 (omega arith) (omega arith)) (div64_pos (total - 1) c)

  kick_from-AllAhead :
      (from left i : ℕ) (r : Readahead) (st : CacheState)
      → 0 < total
      → from + i + left < 2 ^ 63
      → AllAhead key v c total
          (from + i)
          (kick_from get (pos c) key v (pos from) (pos total) left i r st).2
        × (length (kick_from get (pos c) key v (pos from) (pos total) left i r st).2
            ≡ min left ((total - 1) / c + 1 - (from + i)))
  unfolding kick_from
  kick_from-AllAhead from zero i r st ht b = (tt, omega arith)
  kick_from-AllAhead from (suc left) i r st ht b =
      let (r', st', how) = schedule get (pos c) key v (pos (from + i)) (pos total) r st in
      rw (kick_from, add64_pos from i (omega arith), last_lem ht)
        (elim (Bool-cases (ltb_ℤ (pos ((total - 1) / c)) (pos (from + i)))) [
          | inl past ↦ rw past (tt, ground (arith, past))
          | inr within ↦
              let le : from + i ≤ (total - 1) / c = ground (arith, within) in
              let low : (from + i) * c ≤ total - 1 = (le-div_iff_mul-le hc).0 le in
              let (ahead, len) = kick_from-AllAhead from left (i + 1) r' st' ht (omega arith) in
              rw within (
                (
                  schedule-Ahead (from + i) r st (omega arith),
                  moved_on key v c total _ (omega arith) ahead,
                ),
                ap suc len ∙ omega arith,
              )
        ])

-- Kick on an object of known size: it looks at the chunks from `from` on, one by one, as many as are
-- configured and the object has. A fetch that it starts has the key that a request for the chunk has,
-- and spans the chunk: from a multiple of the chunk size, which is in the object, to its end or that
-- of the object. Chunk numbers and the end of the last chunk fit an int64.
pub kick-AllAhead :
    (get : Lookup) (key : Key) (v : ObjVersion) (c total from : ℕ) (r : Readahead) (st : CacheState)
    → 0 < c
    → total + c < 2 ^ 63
    → 0 < total
    → from + pos_part r.chunks < 2 ^ 63
    → AllAhead key v c total from (kick get (pos c) key v (pos from) (pos total) r st).2
      × (length (kick get (pos c) key v (pos from) (pos total) r st).2
          ≡ min (pos_part r.chunks) ((total - 1) / c + 1 - from))
unfolding kick
kick-AllAhead get key v c total from r st hc fits ht b =
    let known : leb_ℤ (pos total) (pos 0) ≡ false = ground arith in
    let at_start : from + 0 ≡ from = omega arith in
    let (ahead, len) =
      kick_from-AllAhead get key v c total hc fits from (pos_part r.chunks) 0 r st ht
        (omega arith) in
    rw (kick, known) (moved_on key v c total _ at_start ahead, rw at_start at len)
