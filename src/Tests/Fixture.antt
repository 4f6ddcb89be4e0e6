-- ===== src/Tests/Fixture.antt =====
-- A disk cache (services/cache.go) for the tests: two versions of one chunk.
use mathlib.Core.Option.{some_inj}
use s3_cache.Prelude.{
  ℕ, zero, suc, ◌+◌, ◌%◌, ◌≡◌, ◌≢◌, ◌⊎◌, inl, inr, refl, sym, ap, subst, ◌∙◌, List, [], ◌∷◌, ◌++◌,
  none, some, true, false, ok, arith, length, if◌then◌else◌,
}
use s3_cache.Prelude.Int.{pos}
use s3_cache.Prelude.Assoc.{Key, same, lookup, insert, remove}
use s3_cache.Prelude.Text.{codes, format_int, format_uint, digits, Lacks}
use s3_cache.Prelude.Paths.{
  join_path, joined, split_path, clean, elements, elements_from, push_all, push, render,
}
use s3_cache.Cache.Shards.{Host, get_dir, ends_in_star, not_exist}
use s3_cache.Cache.Names.{Places, root, chunk_path, chunk_name}
use s3_cache.Cache.Names.Distinct.{AllHex, IsDigest}
use s3_cache.Cache.Files.{
  CacheState, Calls, Writing, Times, open_file, write_file, write_temp, marker_time, marker_made,
  read_or_create_marker,
}
use s3_cache.Cache.Access.{put_chunk, marker_of, put_at}
use s3_cache.Cache.Access.Kept.{HasPlainTemp, PlainTemp}
use s3_cache.Cache.Access.Contents.{version, IsDistinct, IsVersioned}

-- A digest of as many hexadecimal digits as are asked for, one for each byte.
abbrev pub toy : ℕ → List ℕ → List ℕ
toy zero s = []
toy (suc n) [] = b'0' ∷ toy n []
toy (suc n) (c ∷ s) = (b'a' + c % 6) ∷ toy n s

pub toy-AllHex : (n : ℕ) (s : List ℕ) → AllHex (toy n s)
toy-AllHex zero s = tt
toy-AllHex (suc n) [] = (refl, toy-AllHex n [])
toy-AllHex (suc n) (c ∷ s) = (ground arith, toy-AllHex n s)

pub length-toy : (n : ℕ) (s : List ℕ) → length (toy n s) ≡ n
length-toy zero s = refl
length-toy (suc n) [] = ap suc (length-toy n [])
length-toy (suc n) (c ∷ s) = ap suc (length-toy n s)

abbrev pub host : Host
host = record { digest = toy 40; read_dir = λ dir. not_exist; makes_dir = λ dir. true }

pub digests : (s : List ℕ) → IsDigest (host.digest s)
digests s = record { hex = toy-AllHex 40 s; long = length-toy 40 s }

abbrev pub places : Places
places = record { location = codes "/c"; subdir = codes "s" }

pub has_subdir : same places.subdir [] ≡ false
unfolding same
has_subdir = refl

abbrev pub times : Times
times = record { format = λ t. t ∷ []; parse = λ text. elim text [ [] ↦ none | t ∷ ts ↦ some t ] }

abbrev writing : Writing
writing = record {
  now = 7;
  mkdir_ok = true;
  temp = some (codes "1");
  written = none;
  rename_ok = true;
  remove_ok = true;
}

abbrev pub calls : Calls
calls = record {
  now = 7;
  opens = λ p. true;
  stat_ok = true;
  touch_ok = true;
  marking = writing;
  sync_ok = true;
  writing = writing;
}

pub one_not_slash : ◌≢◌ {A = ℕ} b'1' b'/'
one_not_slash = λ e. omega arith

plain_star : HasPlainTemp writing
plain_star star e = subst (Lacks b'/') (some_inj.0 e) (one_not_slash, tt)

pub plain : PlainTemp calls
plain = (plain_star, plain_star)

abbrev pub key : Key
key = codes "k"

abbrev pub old_path : List ℕ
old_path = codes "/c/s/f0/" ++ (toy 40 key ++ b'/' ∷ toy 40 (codes "k:0:a"))

abbrev pub empty : CacheState
empty = record { files = []; since = [] }

pub at_old_path : chunk_path host places key (version (codes "a")) (pos 0) ≡ ok old_path
unfolding chunk_path root get_dir ends_in_star format_int format_uint digits join_path joined same
    clean elements elements_from push_all push render
at_old_path = refl

pub stored :
    (put_chunk host
      (some places)
      times
      calls
      key
      (version (codes "a"))
      (pos 0)
      (codes "old")
      empty).1
    ≡ put_at old_path
unfolding put_chunk chunk_path root get_dir ends_in_star format_int format_uint digits join_path
    joined same clean elements elements_from push_all push render marker_of marker_time
    read_or_create_marker marker_made open_file write_file write_temp lookup insert remove
    split_path
stored = refl

-- The chunks in use: the first one of the object, in two versions.
abbrev pub Known : Key → List ℕ → ℕ → Type 0
Known k e m = (k ≡ key) × (m ≡ 0) × ((e ≡ codes "a") ⊎ (e ≡ codes "b"))

abbrev pub content : Key → List ℕ → ℕ → List ℕ
content k e m = if same e (codes "a") then codes "old" else codes "new"

pub name_cases :
    (k : Key) (e : List ℕ) (m : ℕ)
    → Known k e m
    → (chunk_name k (version e) (pos m) ≡ codes "k:0:a")
      ⊎ (chunk_name k (version e) (pos m) ≡ codes "k:0:b")
unfolding format_int format_uint digits
name_cases k e m (p, q, r) = elim r [
  | inl a ↦ inl (rw (p, q, a) refl)
  | inr b ↦ inr (rw (p, q, b) refl)
]

pub apart : ◌≢◌ {A = List ℕ} (toy 40 (codes "k:0:a")) (toy 40 (codes "k:0:b"))
apart = λ e. cc

pub distinct : IsDistinct host Known
distinct = record {
  bounded = λ k e m (p : Known k e m). omega (arith, p.1);
  keys = λ k j e f m n p q h. p.0 ∙ sym q.0;
  names = λ k j e f m n p q h. elim (name_cases k e m p) [
    | inl x ↦ elim (name_cases j f n q) [
      | inl y ↦ x ∙ sym y
      | inr y ↦ absurd (apart (sym (ap (toy 40) x) ∙ h ∙ ap (toy 40) y))
    ]
    | inr x ↦ elim (name_cases j f n q) [
      | inl y ↦ absurd (apart (sym (ap (toy 40) y) ∙ sym h ∙ ap (toy 40) x))
      | inr y ↦ x ∙ sym y
    ]
  ];
}

pub empty-IsVersioned : IsVersioned host places digests has_subdir Known distinct content []
unfolding lookup
empty-IsVersioned k v m q f kn e h l = cc

abbrev pub after : CacheState
after =
    (put_chunk host (some places) times calls key (version (codes "a")) (pos 0) (codes "old")
      empty).0
