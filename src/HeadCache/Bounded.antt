-- ===== src/HeadCache/Bounded.antt =====
-- The head cache never grows past its limit.
use s3_cache.Prelude.{ℕ, ◌<◌, ◌≤◌, ◌≡◌, ◌≢◌, refl, List, [], ◌∷◌, none, some, true, arith, length}
use s3_cache.Prelude.Assoc.{Key, same_refl, member, lookup, remove, lookup-remove, length-insert}
use s3_cache.HeadCache.{Head, HeadEntry, HeadCache, put, shed_expired, shed_until}

-- The walk visits every key of the map.
abbrev pub Covers : List Key → List (Key × HeadEntry) → Type 0
Covers order m = (k : Key) → lookup k m ≢ none → member k order ≡ true

Covers-remove :
    (k : Key) (ks : List Key) (m : List (Key × HeadEntry))
    → Covers (k ∷ ks) m
    → Covers ks (remove k m)
unfolding member
Covers-remove k ks m c j h = ground (arith, lookup-remove k j m, c j)

lookup_head :
    (k : Key) (e : HeadEntry) (m : List (Key × HeadEntry)) → lookup k ((k, e) ∷ m) ≡ some e
unfolding lookup
lookup_head k e m = rw (same_refl k) refl

shed_until-lt :
    (limit : ℕ) (order : List Key) (m : List (Key × HeadEntry))
    → 0 < limit
    → Covers order m
    → length (shed_until limit order m) < limit
unfolding shed_until member
shed_until-lt limit [] [] pos c = pos
shed_until-lt limit [] ((k, e) ∷ m) pos c = absurd (ground (arith, c k, lookup_head k e m))
shed_until-lt limit (k ∷ ks) m pos c =
    ground (arith, shed_until-lt limit ks (remove k m) pos (Covers-remove k ks m c))

-- With a limit of at least 1 (it is 8192), a put never takes the cache past it, in whatever order
-- Go walks over the entries that are left to drop.
pub put-le :
    (now : ℕ) (order : List Key) (key : Key) (out : Head) (h : HeadCache)
    → 0 < h.limit
    → length h.m ≤ h.limit
    → Covers order (shed_expired now h.ttl h.m)
    → length (put now order key out h).m ≤ h.limit
unfolding put
put-le now order key out h pos le c =
    let e : HeadEntry = record { out = out; at = now } in
    ground (
      arith,
      length-insert key e h.m,
      length-insert key e (shed_until h.limit order (shed_expired now h.ttl h.m)),
      shed_until-lt h.limit order (shed_expired now h.ttl h.m) pos c,
    )
