-- ===== src/HeadCache/Reads.antt =====
-- What get and headObject return.
use s3_cache.Prelude.{
  ℕ, ◌≡◌, refl, sym, ap, ◌∙◌, List, none, some, true, false, arith, ok, err, Option-cases,
  Result-cases, inl, inr,
}
use s3_cache.Prelude.Int.{sub_ℕ, ltb_ℤ}
use s3_cache.Prelude.Assoc.{Key, same_refl, lookup, lookup-insert, lookup-remove}
use s3_cache.HeadCache.{
  Head, HeadEntry, HeadCache, Asked, Env, is_fresh, get, put, drop, head_object, from_cache, ask,
}

lookup-put :
    (now : ℕ) (order : List Key) (key : Key) (out : Head) (h : HeadCache)
    → lookup key (put now order key out h).m ≡ some (record { out = out; at = now })
unfolding put
lookup-put now order key out h = rw (lookup-insert, same_refl key) refl

-- Metadata that was stored is read back under its key, and is fresh for one TTL.
pub get-put :
    (now later : ℕ) (order : List Key) (key : Key) (out : Head) (h : HeadCache)
    → get later key (put now order key out h) ≡ (some out, ltb_ℤ (sub_ℕ later now) h.ttl)
unfolding get put
get-put now later order key out h = rw (get, lookup-put now order key out h) refl

-- What headObject may do with a key. `stale` is the outage fallback.
pub data Reading {E : Type 0} (env : Env E) (key : Key) (h : HeadCache) (a : Asked E) : Type 0 where
  fresh :
      (e : HeadEntry)
      → lookup key h.m ≡ some e
      → is_fresh env.first h.ttl e ≡ true
      → a ≡ record { cache = h; result = ok e.out; asked = false }
      → Reading env key h a
  fetched :
      (out : Head)
      → env.answer ≡ ok out
      → a.asked ≡ true
      → a.result ≡ ok out
      → lookup key a.cache.m ≡ some (record { out = out; at = env.stored })
      → Reading env key h a
  stale :
      (e : HeadEntry) (x : E)
      → lookup key h.m ≡ some e
      → is_fresh env.first h.ttl e ≡ false
      → env.answer ≡ err x
      → a ≡ record { cache = h; result = ok e.out; asked = true }
      → Reading env key h a
  failed :
      (x : E)
      → lookup key h.m ≡ none
      → env.answer ≡ err x
      → a ≡ record { cache = h; result = err x; asked = true }
      → Reading env key h a

module _ {E : Type 0} (env : Env E) (key : Key) (h : HeadCache) where
  ask_ok :
      (out : Head)
      → env.answer ≡ ok out
      → ask env key h
        ≡ record { cache = put env.stored env.order key out h; result = ok out; asked = true }
  unfolding ask
  ask_ok out p = rw (ask, p) refl

  ask_failed :
      (x : E)
      → env.answer ≡ err x
      → lookup key h.m ≡ none
      → ask env key h ≡ record { cache = h; result = err x; asked = true }
  unfolding ask get
  ask_failed x p q = rw (ask, get, p, q) refl

  asks :
      ((e : HeadEntry) → lookup key h.m ≡ some e → is_fresh env.first h.ttl e ≡ false)
      → head_object env key h ≡ ask env key h
  unfolding head_object get
  asks expired = elim (Option-cases (lookup key h.m)) [
    | inl q ↦ rw (head_object, from_cache, get, q) refl
    | inr (e, q) ↦ rw (head_object, from_cache, get, q, expired e q) refl
  ]

-- After a drop (a chunk fetch found that the object had changed), the next request asks the store
-- and has its answer: neither a fresh nor a stale entry of the old object is served.
pub head_object-drop :
    {E : Type 0} (env : Env E) (key : Key) (h : HeadCache)
    → let a : Asked E = head_object env key (drop key h) in
      (a.asked ≡ true) × (a.result ≡ env.answer)
unfolding drop
head_object-drop env key h =
    let gone : lookup key (drop key h).m ≡ none = rw (lookup-remove, same_refl key) refl in
    let q = asks env key (drop key h) (λ e p. absurd (ground arith)) in
    elim (Result-cases env.answer) [
      | inl (out, p) ↦
          let r = q ∙ ask_ok env key (drop key h) out p in
          (ap (λ (a : Asked _). a.asked) r, ap (λ (a : Asked _). a.result) r ∙ sym p)
      | inr (x, p) ↦
          let r = q ∙ ask_failed env key (drop key h) x p gone in
          (ap (λ (a : Asked _). a.asked) r, ap (λ (a : Asked _). a.result) r ∙ sym p)
    ]
