-- ===== src/HeadCache.antt =====
-- services/head_cache.go, and Fetcher.headObject of services/fetcher.go, which reads through it.
-- Times are readings of a monotonic clock. The order in which Go walks over a map is arbitrary, and
-- is an argument of `put`.
pub mod Bounded
pub mod Reads
use s3_cache.Prelude.{
  ℕ, ◌+◌, List, [], ◌∷◌, Option, none, some, Bool, true, false, Result, ok, err, if◌then◌else◌, ltb,
  leb, length,
}
use s3_cache.Prelude.Int.{ℤ, sub_ℕ, ltb_ℤ, leb_ℤ}
use s3_cache.Prelude.Assoc.{Key, lookup, insert, remove}

-- What the program reads of a HeadObjectOutput; a time of 0 is Go's zero time.
pub record Head : Type 0 where
  pub content_length : Option ℤ
  pub content_type : Option (List ℕ)
  pub etag : Option (List ℕ)
  pub last_modified : Option ℕ

pub record HeadEntry : Type 0 where
  pub out : Head
  pub at : ℕ

pub record HeadCache : Type 0 where
  pub m : List (Key × HeadEntry)
  pub ttl : ℤ
  pub limit : ℕ

-- 8192
abbrev pub head_cache_cap : ℕ
head_cache_cap = 8192

unfoldable pub new_head_cache : ℤ → HeadCache
new_head_cache ttl = record { m = []; ttl = ttl; limit = head_cache_cap }

-- time.Since(at) < ttl
abbrev pub is_fresh : ℕ → ℤ → HeadEntry → Bool
is_fresh now ttl e = ltb_ℤ (sub_ℕ now e.at) ttl

unfoldable pub get : ℕ → Key → HeadCache → Option Head × Bool
get now key h = elim (lookup key h.m) [
  | none ↦ (none, false)
  | some e ↦ (some e.out, is_fresh now h.ttl e)
]

unfoldable pub drop : Key → HeadCache → HeadCache
drop key h = record h { m = remove key h.m }

-- The first loop of put: every expired entry goes.
unfoldable pub shed_expired : ℕ → ℤ → List (Key × HeadEntry) → List (Key × HeadEntry)
shed_expired now ttl [] = []
shed_expired now ttl ((k, e) ∷ m) =
    if is_fresh now ttl e then (k, e) ∷ shed_expired now ttl m else shed_expired now ttl m

-- The second loop of put, over the keys in the order of the walk.
unfoldable pub shed_until : ℕ → List Key → List (Key × HeadEntry) → List (Key × HeadEntry)
shed_until limit [] m = m
shed_until limit (k ∷ ks) m =
    let rest = shed_until limit ks (remove k m) in if ltb (length m) limit then m else rest

unfoldable pub put : ℕ → List Key → Key → Head → HeadCache → HeadCache
unfolding shed_expired shed_until
put now order key out h =
    let room : List (Key × HeadEntry) =
      if leb h.limit (length h.m)
      then shed_until h.limit order (shed_expired now h.ttl h.m)
      else h.m in
    record h { m = insert key (record { out = out; at = now }) room }

-- What headObject does, with the clock at its two readings of the cache and at the store, and the
-- answer of the object store. The result says whether the store was asked.
pub record Asked (E : Type 0) : Type 0 where
  pub cache : HeadCache
  pub result : Result E Head
  pub asked : Bool

pub record Env (E : Type 0) : Type 0 where
  pub first : ℕ
  pub second : ℕ
  pub stored : ℕ
  pub order : List Key
  pub answer : Result E Head

-- The stale entry, if the store failed.
abbrev or_stale : {E : Type 0} → E → Option Head → Result E Head
or_stale e none = err e
or_stale e (some stale) = ok stale

ask : {E : Type 0} → Env E → Key → HeadCache → Asked E
ask env key h = elim env.answer [
  | ok out ↦ record { cache = put env.stored env.order key out h; result = ok out; asked = true }
  | err e ↦ record { cache = h; result = or_stale e (get env.second key h).0; asked = true }
]

-- The first reading of the cache, by its result.
from_cache : {E : Type 0} → Env E → Key → HeadCache → Option Head × Bool → Asked E
unfolding ask
from_cache env key h (some out, true) = record { cache = h; result = ok out; asked = false }
from_cache env key h (out, fresh) = ask env key h

unfoldable pub head_object : {E : Type 0} → Env E → Key → HeadCache → Asked E
unfolding from_cache
head_object env key h = from_cache env key h (get env.first key h)
