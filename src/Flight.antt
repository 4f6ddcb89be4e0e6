-- ===== src/Flight.antt =====
-- services/chunk.go, chunkFlight: the outcome of one upstream fetch, shared by every caller that
-- joined it.
pub mod Claim
use s3_cache.Prelude.{ℕ, List, Option, none, some, Bool, true, false, ◌&&◌, if◌then◌else◌}
use s3_cache.Prelude.Int.{ℤ, pos, minus_one, add32, ltb_ℤ, leb_ℤ}
use s3_cache.Chunk.{ChunkResult, Via}
use s3_cache.Http.{Error}

-- `pin` is the handle of the cache file, by the bytes that it keeps readable. `free` says whether
-- there is a function to run when the last reference is dropped.
pub record ChunkFlight : Type 0 where
  pub error : Option Error
  pub size : ℤ
  pub path : List ℕ
  pub pin : Option (List ℕ)
  pub buf : Option (List ℕ)
  pub free : Bool
  pub refs : ℤ

-- refs.Add(-1) == 0
abbrev is_zero : ℤ → Bool
is_zero z = leb_ℤ z (pos 0) && leb_ℤ (pos 0) z

-- The flight, and whether `free` runs.
unfoldable pub unref : ChunkFlight → ChunkFlight × Bool
unref fl =
    let left : ℤ = add32 fl.refs minus_one in (record fl { refs = left }, is_zero left && fl.free)

pub record Claimed : Type 0 where
  pub result : ChunkResult Error
  pub flight : ChunkFlight
  pub freed : Bool

abbrev pub nothing : ℤ → ChunkResult Error
nothing chunk_start = record {
  payload = none;
  file = none;
  section = none;
  file_size = pos 0;
  error = none;
  chunk_start = chunk_start;
  via = none;
  done = none;
}

abbrev dropping : ChunkResult Error → ChunkFlight × Bool → Claimed
dropping cr r = record { result = cr; flight = r.0; freed = r.1 }

-- `opened` is what os.Open(fl.path) gives: a handle by its bytes, or an error. `id` names the
-- flight in a result that keeps its reference.
unfoldable pub claim : ℕ → ℤ → Option (List ℕ) → ChunkFlight → Claimed
claim id chunk_start opened fl = elim fl.error [
  | some e ↦ dropping (record (nothing chunk_start) { error = some e }) (unref fl)
  | none ↦ elim fl.buf [
    | some bytes ↦ record {
      result = record (nothing chunk_start) {
        payload = some bytes;
        via = some Via.buffer;
        done = some id;
      };
      flight = fl;
      freed = false;
    }
    | none ↦ elim opened [
      | some bytes ↦
          dropping
            (record (nothing chunk_start) {
              file = some bytes;
              file_size = fl.size;
              via = some Via.file;
            })
            (unref fl)
      | none ↦ record {
        result = record (nothing chunk_start) {
          section = fl.pin;
          file_size = fl.size;
          via = some Via.pinned;
          done = some id;
        };
        flight = fl;
        freed = false;
      }
    ]
  ]
]
