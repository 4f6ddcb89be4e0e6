-- ===== src/Fetcher/Fetch/Publish.antt =====
-- services/fetcher.go, Fetcher.lead: what a fetch publishes, and that it returns its unit of budget.
use s3_cache.Prelude.{
  ℕ, ◌+◌, ◌-◌, ◌^◌, ◌<◌, ◌≤◌, ◌≡◌, ◌⊎◌, inl, inr, refl, sym, ap, ◌∙◌, List, Option, none, some,
  Bool, true, Result, ok, err, arith, length, extract, Result-cases, if◌then◌else◌, is_some,
  length-extract,
}
use mathlib.Core.Option.{some_inj}
use s3_cache.Prelude.Int.{ℤ, pos, minus_one, pos_part, add64, add64_pos, sub64_pos}
use s3_cache.Prelude.Assoc.{Key, same_refl, lookup, lookup-remove}
use s3_cache.HeadCache.{HeadCache}
use s3_cache.Http.{Error}
use s3_cache.Flight.{ChunkFlight}
use s3_cache.Flight.Claim.{Holds}
use s3_cache.Singleflight.{SfCall, Singleflight, update, admit, finish}
use s3_cache.Budget.{ChunkBudget, alloc, release}
use s3_cache.Fetcher.Get.{ObjVersion}
use s3_cache.Fetcher.Fetch.{
  Store, Lead, Fetching, PutOutcome, put_failed, no_cache, put_at, open_range, download, lead_size,
  lead_granted, free_flight, downloaded,
}
use s3_cache.Fetcher.Fetch.Content.{IsRangeOf, read_body_lem}

-- What was published: an error, or a flight that holds the chunk however it is claimed.
pub data Published (bytes : List ℕ) (fl : ChunkFlight) : Type 0 where
  failed : (e : Error) → fl.error ≡ some e → Published bytes fl
  held :
      ((opened : Option (List ℕ)) → (opened ≡ none) ⊎ (opened ≡ some bytes) → Holds bytes opened fl)
      → Published bytes fl

up_and_down : (k : ℕ) → k + 1 < 2 ^ 63 → add64 (add64 (pos k) (pos 1)) minus_one ≡ pos k
unfolding add64
up_and_down k h = ground arith

update_same : (calls : ℕ → SfCall) (id : ℕ) (c : SfCall) → update calls id c id ≡ c
update_same calls id c = ground arith

abbrev admitted : ℕ → Singleflight → Singleflight
admitted id g = record g { calls = update g.calls id (admit (g.calls id)) }

-- What finish leaves of a call.
finish_lem :
    (sf_key : Key) (id : ℕ) (fl : ChunkFlight) (g : Singleflight)
    → let g' : Singleflight = finish sf_key id fl g in
      ((g'.calls id).res ≡ some (record fl { refs = (g.calls id).waiters }))
      × ((g'.calls id).done ≡ true)
      × (lookup sf_key g'.m ≡ none)
unfolding finish
finish_lem sf_key id fl g =
    let call = update_same g.calls id (record (admit (g.calls id)) {
      res = some (record fl { refs = (g.calls id).waiters });
      done = true;
    }) in
    (
      ap (λ (c : SfCall). c.res) call,
      ap (λ (c : SfCall). c.done) call,
      lookup-remove sf_key sf_key g.m ∙ rw (same_refl sf_key) refl,
    )

-- The fetch of the bytes [s, s + n).
abbrev pub fetch_of : ℕ → Key → Key → ObjVersion → ℕ → ℕ → Lead
fetch_of id sf_key key v s n = record {
  id = id;
  sf_key = sf_key;
  key = key;
  version = v;
  start = pos s;
  end = pos (s + n - 1);
}

module _ (object : List ℕ) (store : Store) (id : ℕ) (sf_key key : Key) (v : ObjVersion) (s n : ℕ)
    (n_pos : 0 < n) (small : s + n < 2 ^ 63) where
  abbrev the_fetch : Lead
  the_fetch = fetch_of id sf_key key v s n

  lead_size_lem : lead_size the_fetch ≡ pos n
  lead_size_lem =
      rw
        (
          sub64_pos (s + n - 1) s (omega arith) (omega arith),
          add64_pos (s + n - 1 - s) 1 (omega arith),
        )
        (ap pos (omega arith))

  size_part : pos_part (lead_size the_fetch) ≡ n
  size_part = ap pos_part lead_size_lem

  download_lem :
      (expired : Bool) (heads : HeadCache) (bytes : List ℕ)
      → s + n ≤ length object
      → IsRangeOf object store key v s n
      → (download store expired key v (pos s) (pos (s + n - 1)) n heads).1 ≡ ok bytes
      → bytes ≡ extract object s n
  unfolding download
  download_lem expired heads bytes h ranged p =
      elim (Result-cases (open_range store key v.etag (pos s) (pos (s + n - 1)))) [
        | inr (e, q) ↦ absurd (ground arith)
        | inl (body, q) ↦
            let (rest, prefix) = ranged body q in
            read_body_lem object s n expired body rest bytes h prefix (rw (download, q) at p)
      ]

  downloaded-Published :
      (read : Result Error (List ℕ)) (put : PutOutcome) (waiters : ℤ)
      → ((bytes : List ℕ) → read ≡ ok bytes → bytes ≡ extract object s n)
      → s + n ≤ length object
      → Published (extract object s n) (record (downloaded the_fetch read put).0 { refs = waiters })
  downloaded-Published (err e) put waiters good h = failed e refl
  downloaded-Published (ok bytes) put_failed waiters good h = held (λ opened found. record {
    no_error = refl;
    sized = lead_size_lem ∙ ap pos (sym (length-extract object s n h));
    kept = inl (ap some (good bytes refl));
    on_disk = found;
  })
  downloaded-Published (ok bytes) no_cache waiters good h = held (λ opened found. record {
    no_error = refl;
    sized = lead_size_lem ∙ ap pos (sym (length-extract object s n h));
    kept = inl (ap some (good bytes refl));
    on_disk = found;
  })
  downloaded-Published (ok bytes) (put_at path) waiters good h = held (λ opened found. record {
    no_error = refl;
    sized = lead_size_lem ∙ ap pos (sym (length-extract object s n h));
    kept = inr (refl, ap some (good bytes refl));
    on_disk = found;
  })

  abbrev pub read_of : Bool → HeadCache → Result Error (List ℕ)
  read_of expired heads =
      (download store expired key v (pos s) (pos (s + n - 1)) (pos_part (lead_size the_fetch))
        heads).1

  -- The flight that a fetch leaves in its call, given what Put comes to.
  pub lead_granted_res :
      (expired : Bool) (put : PutOutcome) (f : Fetching)
      → ((lead_granted store expired put (fetch_of id sf_key key v s n) f).group.calls id).res
        ≡ some (record (downloaded the_fetch (read_of expired f.heads) put).0 {
          refs = (f.group.calls id).waiters;
        })
  unfolding lead_granted finish
  lead_granted_res expired put f =
      (finish_lem sf_key id (downloaded the_fetch (read_of expired f.heads) put).0
        (admitted id f.group)).0
      ∙ ap
          (λ (k : ℤ).
            some (record (downloaded the_fetch (read_of expired f.heads) put).0 { refs = k }))
          (ap (λ (c : SfCall). c.waiters) (update_same f.group.calls id (admit (f.group.calls id))))

  downloaded_free :
      (read : Result Error (List ℕ)) (put : PutOutcome)
      → (downloaded the_fetch read put).0.free ≡ true
  downloaded_free (err e) put = refl
  downloaded_free (ok bytes) put_failed = refl
  downloaded_free (ok bytes) no_cache = refl
  downloaded_free (ok bytes) (put_at path) = refl

  pub read_lem :
      (expired : Bool) (heads : HeadCache) (bytes : List ℕ)
      → s + n ≤ length object
      → IsRangeOf object store key v s n
      → read_of expired heads ≡ ok bytes
      → bytes ≡ extract object s n
  read_lem expired heads bytes h ranged p = download_lem expired heads bytes h ranged (
      ap (λ (m : ℕ). (download store expired key v (pos s) (pos (s + n - 1)) m heads).1)
        (sym size_part)
      ∙ p)

  -- A fetch that got its unit finishes its call in every case: the key is free for the next call, and
  -- the callers find a result, with a reference for each of them, which is an error or holds exactly
  -- the bytes [s, s + n), on disk or in the buffer. The store answers a range request for the version
  -- by a prefix of the range or an error, and the range lies in the object.
  pub lead_granted-Published :
      (expired : Bool) (put : PutOutcome) (f : Fetching)
      → s + n ≤ length object
      → IsRangeOf object store key v s n
      → let f' : Fetching = lead_granted store expired put (fetch_of id sf_key key v s n) f in
        (fl : ChunkFlight) × ((f'.group.calls id).res ≡ some fl)
        × ((f'.group.calls id).done ≡ true)
        × (lookup sf_key f'.group.m ≡ none)
        × (fl.refs ≡ (f.group.calls id).waiters)
        × (fl.free ≡ true)
        × Published (extract object s n) fl
  unfolding lead_granted finish
  lead_granted-Published expired put f h ranged =
      let done =
        finish_lem sf_key id (downloaded the_fetch (read_of expired f.heads) put).0
          (admitted id f.group) in
      (
        record (downloaded the_fetch (read_of expired f.heads) put).0 {
          refs = (f.group.calls id).waiters;
        },
        lead_granted_res expired put f,
        done.1,
        done.2,
        refl,
        downloaded_free (read_of expired f.heads) put,
        downloaded-Published (read_of expired f.heads) put (f.group.calls id).waiters
            (λ bytes p. read_lem expired f.heads bytes h ranged p) h,
      )

  -- The unit goes back in lead, or with the flight that keeps the buffer, and not twice.
  accounts :
      (read : Result Error (List ℕ)) (put : PutOutcome) (b : ChunkBudget)
      → let d = downloaded the_fetch read put in
        let b' : ChunkBudget = if d.1 then (release (lead_size the_fetch) b).0 else b in
        (if is_some d.0.buf then (release d.0.size b').0 else b')
        ≡ (release (lead_size the_fetch) b).0
  accounts (err e) put b = refl
  accounts (ok bytes) put_failed b = refl
  accounts (ok bytes) no_cache b = refl
  accounts (ok bytes) (put_at path) b = refl

  -- Whatever the store and the cache do, once the published flight is freed a fetch has given back
  -- its one unit and exactly the bytes it allocated under it, and the count of flights is what it
  -- was; that count fits an int64.
  pub lead_granted_budget :
      (expired : Bool) (put : PutOutcome) (f : Fetching) (fl : ChunkFlight) (k : ℕ)
      → f.flights ≡ pos k
      → k + 1 < 2 ^ 63
      → ((lead_granted store expired put (fetch_of id sf_key key v s n) f).group.calls id).res
        ≡ some fl
      → let f' : Fetching = lead_granted store expired put (fetch_of id sf_key key v s n) f in
        ((free_flight fl f').budget ≡ (release (pos n) (alloc (pos n) f.budget)).0)
        × ((free_flight fl f').flights ≡ f.flights)
  unfolding lead_granted free_flight
  lead_granted_budget expired put f fl k counted small_count published =
      let d = downloaded the_fetch (read_of expired f.heads) put in
      let done = finish_lem sf_key id d.0 (admitted id f.group) in
      let same_flight : some fl
          ≡ some (record d.0 { refs = ((admitted id f.group).calls id).waiters }) =
        sym published ∙ done.0 in
      let b : ChunkBudget = alloc (lead_size the_fetch) f.budget in
      let b' : ChunkBudget = if d.1 then (release (lead_size the_fetch) b).0 else b in
      (
        ap (λ (x : ChunkFlight). if is_some x.buf then (release x.size b').0 else b')
              (some_inj.0 same_flight)
            ∙ accounts (read_of expired f.heads) put b
            ∙ ap (λ (z : ℤ). (release z (alloc z f.budget)).0) lead_size_lem,
        rw counted (up_and_down k small_count),
      )
