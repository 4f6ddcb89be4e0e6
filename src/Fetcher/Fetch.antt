-- ===== src/Fetcher/Fetch.antt =====
-- services/fetcher.go, Fetcher.lead, download and openRange: the upstream fetch of one chunk. The
-- object store, the outcome of DiskCache.Put and the wait for a unit of budget are arguments.
pub mod Content
pub mod Publish
pub mod Deliver
pub mod Cached
use s3_cache.Prelude.{
  ℕ, ◌-◌, List, [], ◌∷◌, ◌++◌, Option, none, some, Bool, true, false, Result, ok, err,
  if◌then◌else◌, is_some, ltb, ◌==◌, length, take,
}
use s3_cache.Prelude.Int.{ℤ, pos, minus_one, pos_part, add64, sub64}
use s3_cache.Prelude.Assoc.{Key, same}
use s3_cache.Prelude.Text.{codes, format_int, format_uint}
use s3_cache.HeadCache.{HeadCache, drop}
use s3_cache.Http.{Error}
use s3_cache.Flight.{ChunkFlight}
use s3_cache.Singleflight.{Singleflight, update, admit, finish}
use s3_cache.Budget.{ChunkBudget, alloc, release}
use s3_cache.Fetcher.Get.{ObjVersion}

-- A conditional Range GET, and the body that comes back: the bytes up to where it ends, and the text
-- of the error that ended it, if it was not the end of the file.
pub record GetObject : Type 0 where
  pub key : Key
  pub range : List ℕ
  pub if_match : Option (List ℕ)

pub record Body : Type 0 where
  pub bytes : List ℕ
  pub cut : Option (List ℕ)

abbrev pub Store : Type 0
Store = GetObject → Result Error Body

-- "bytes=%d-%d"
abbrev pub range_text : ℤ → ℤ → List ℕ
range_text start end = codes "bytes=" ++ (format_int start ++ b'-' ∷ format_int end)

unfoldable pub open_range : Store → Key → List ℕ → ℤ → ℤ → Result Error Body
open_range store key etag start end = store (record {
  key = key;
  range = range_text start end;
  if_match = if same etag [] then none else some etag;
})

-- The error that ended io.ReadFull after `n` bytes.
abbrev read_error : ℕ → Option (List ℕ) → List ℕ
read_error n (some text) = text
read_error n none = if n == 0 then codes "EOF" else codes "unexpected EOF"

abbrev short_read : ℕ → ℕ → Option (List ℕ) → Error
short_read n size cut = record {
  message =
      codes "read chunk body: got "
      ++ (format_uint n
          ++ (codes " of " ++ (format_uint size ++ (codes " bytes: " ++ read_error n cut))));
  status = none;
}

abbrev context_error : Error
context_error = record { message = codes "context deadline exceeded"; status = none }

-- What download leaves of the cached HEADs, and the bytes that it read. `expired` says whether the
-- fetch's deadline passed before the read ended.
unfoldable pub read_body : Bool → ℕ → Body → Result Error (List ℕ)
read_body expired size body =
    if ltb (length body.bytes) size
    then if expired then err context_error else err (short_read (length body.bytes) size body.cut)
    else ok (take size body.bytes)

abbrev is_changed : Option ℕ → Bool
is_changed none = false
is_changed (some code) = code == 412

unfoldable pub download :
    Store → Bool → Key → ObjVersion → ℤ → ℤ → ℕ → HeadCache → HeadCache × Result Error (List ℕ)
unfolding open_range read_body
download store expired key v start end size heads = elim (open_range store key v.etag start end) [
  | err e ↦ ((if is_changed e.status then drop key heads else heads), err e)
  | ok body ↦ (heads, read_body expired size body)
]

-- What DiskCache.Put comes to: an error, no cache, or the path of the file.
pub data PutOutcome : Type 0 where
  put_failed no_cache : PutOutcome
  put_at : List ℕ → PutOutcome

-- The parts of the Fetcher that a fetch changes.
pub record Fetching : Type 0 where
  pub group : Singleflight
  pub budget : ChunkBudget
  pub heads : HeadCache
  pub flights : ℤ

-- A fetch: `id` names the call and `key` the object; `sf_key` is the key of the flight.
pub record Lead : Type 0 where
  pub id : ℕ
  pub sf_key : Key
  pub key : Key
  pub version : ObjVersion
  pub start : ℤ
  pub end : ℤ

abbrev pub lead_size : Lead → ℤ
lead_size l = add64 (sub64 l.end l.start) (pos 1)

abbrev new_flight : Lead → ChunkFlight
new_flight l = record {
  error = none;
  size = lead_size l;
  path = [];
  pin = none;
  buf = none;
  free = true;
  refs = pos 0;
}

-- The fetch waited for a unit of budget until its deadline.
unfoldable pub lead_denied : Lead → Fetching → Fetching
lead_denied l f = record f {
  group =
      finish l.sf_key l.id
        (record (new_flight l) {
          error = some (record { message = codes "chunk fetch queue timeout"; status = none });
        })
        f.group;
  flights = add64 f.flights (pos 1);
}

-- The flight, once the bytes are there, and whether the unit goes back at once.
abbrev stored_flight : Lead → List ℕ → PutOutcome → ChunkFlight × Bool
stored_flight l buf put_failed = (record (new_flight l) { buf = some buf }, false)
stored_flight l buf no_cache = (record (new_flight l) { buf = some buf }, false)
stored_flight l buf (put_at path) = (record (new_flight l) { path = path; pin = some buf }, true)

abbrev downloaded : Lead → Result Error (List ℕ) → PutOutcome → ChunkFlight × Bool
downloaded l (err e) put = (record (new_flight l) { error = some e }, true)
downloaded l (ok buf) put = stored_flight l buf put

-- The fetch holds a unit of budget.
unfoldable pub lead_granted : Store → Bool → PutOutcome → Lead → Fetching → Fetching
lead_granted store expired put l f =
    let admitted : Singleflight = record f.group {
      calls = update f.group.calls l.id (admit (f.group.calls l.id));
    } in
    let b : ChunkBudget = alloc (lead_size l) f.budget in
    let (heads, read) =
      download store expired l.key l.version l.start l.end (pos_part (lead_size l)) f.heads in
    let (fl, back) = downloaded l read put in
    record {
      group = finish l.sf_key l.id fl admitted;
      budget = if back then (release (lead_size l) b).0 else b;
      heads = heads;
      flights = add64 f.flights (pos 1);
    }

-- res.free: it runs when the last reference to the flight is dropped.
unfoldable pub free_flight : ChunkFlight → Fetching → Fetching
free_flight fl f = record f {
  budget = if is_some fl.buf then (release fl.size f.budget).0 else f.budget;
  flights = add64 f.flights minus_one;
}
