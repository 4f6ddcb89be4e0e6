-- ===== src/Http.antt =====
-- What the program uses of net/http's ResponseWriter: the headers it sets, the status line, which
-- is committed once together with the headers, and the body.
use s3_cache.Prelude.{
  ℕ, ◌≤◌, arith, ◌-◌, List, [], ◌∷◌, ◌++◌, Option, none, some, ◌||◌, if◌then◌else◌, ◌==◌, length,
}
use s3_cache.Prelude.Text.{codes, contains}

-- One field for each header that the program names.
pub record Headers : Type 0 where
  pub allow : Option (List ℕ)
  pub content_type : Option (List ℕ)
  pub content_type_options : Option (List ℕ)
  pub content_length : Option (List ℕ)
  pub content_range : Option (List ℕ)
  pub accept_ranges : Option (List ℕ)
  pub etag : Option (List ℕ)
  pub last_modified : Option (List ℕ)

-- `sent` are the headers as they were when the status was committed; a later change of `header`
-- does not reach the client. `room` is how many more body bytes the client takes.
pub record Writer : Type 0 where
  pub header : Headers
  pub status : Option ℕ
  pub sent : Option Headers
  pub body : List ℕ
  pub room : ℕ

abbrev pub no_headers : Headers
no_headers = record {
  allow = none;
  content_type = none;
  content_type_options = none;
  content_length = none;
  content_range = none;
  accept_ranges = none;
  etag = none;
  last_modified = none;
}

abbrev pub fresh_writer : ℕ → Writer
fresh_writer room = record {
  header = no_headers;
  status = none;
  sent = none;
  body = [];
  room = room;
}

-- Only the first status counts.
unfoldable pub write_header : ℕ → Writer → Writer
write_header code w = elim w.status [
  | none ↦ record w { status = some code; sent = some w.header }
  | some c ↦ w
]

-- Bytes that the client has taken; a body with no status implies 200.
unfoldable pub write_body : List ℕ → Writer → Writer
unfolding write_header
write_body bytes w =
    let w' : Writer = write_header 200 w in
    record w' { body = w'.body ++ bytes; room = w'.room - length bytes }

-- http.Error: a plain text body in place of what the headers announced. The texts are short and
-- are sent whole.
unfoldable pub http_error : List ℕ → ℕ → Writer → Writer
unfolding write_header write_body
http_error message code w =
    let h : Headers = record w.header {
      content_length = none;
      content_type = some (codes "text/plain; charset=utf-8");
      content_type_options = some (codes "nosniff");
    } in
    write_body (message ++ b'\n' ∷ []) (write_header code (record w { header = h }))

-- An error value: its text, and the HTTP status if it is a failed request to the object store.
pub record Error : Type 0 where
  pub message : List ℕ
  pub status : Option ℕ

-- services/web.go, httpErrorFromS3
unfoldable pub s3_status : List ℕ → ℕ
s3_status msg =
    if contains msg (codes "NoSuchKey")
      || contains msg (codes "NotFound")
      || contains msg (codes "status code: 404")
    then 404
    else if contains msg (codes "Forbidden") || contains msg (codes "status code: 403")
    then 403
    else 502

abbrev pub s3_text : ℕ → List ℕ
s3_text code =
    if code == 404
    then codes "not found"
    else if code == 403
    then codes "forbidden"
    else codes "upstream error"

unfoldable pub http_error_from_s3 : Error → Writer → Writer
unfolding s3_status
http_error_from_s3 e w = let code : ℕ = s3_status e.message in http_error (s3_text code) code w

pub s3_status_le : (msg : List ℕ) → 400 ≤ s3_status msg
unfolding s3_status
s3_status_le msg = ground arith
