-- ===== src/Cache/Access/Disks.antt =====
-- services/cache.go: what writing a file does to the other files, at every system call on the way.
use s3_cache.Prelude.{
  ℕ, ◌≡◌, inl, inr, refl, ◌∙◌, List, [], ◌∷◌, ◌++◌, Option, none, some, Bool, true, false, take,
  if◌then◌else◌, ◌&&◌, Option-cases, Bool-cases,
}
use s3_cache.Prelude.Assoc.{same, lookup, insert, remove, lookup-insert, lookup-remove}
use s3_cache.Cache.Files.{
  FileNode, Files, Writing, Wrote, file_of, drop_temp, renamed, write_temp, write_file,
}

-- On each of the disks, `q` has what it had.
abbrev pub AllKeep : List ℕ → Option FileNode → List Files → Type 0
AllKeep q old [] = Unit {0}
AllKeep q old (d ∷ ds) = (lookup q d ≡ old) × AllKeep q old ds

insert_other :
    (q tmp : List ℕ) (f : FileNode) (files : Files)
    → same q tmp ≡ false
    → lookup q (insert tmp f files) ≡ lookup q files
insert_other q tmp f files ne = rw (lookup-insert tmp q f files, ne) refl

remove_other :
    (q tmp : List ℕ) (files : Files)
    → same q tmp ≡ false
    → lookup q (remove tmp files) ≡ lookup q files
remove_other q tmp files ne = rw (lookup-remove tmp q files, ne) refl

drop_temp_other :
    (calls : Writing) (q tmp : List ℕ) (files : Files)
    → same q tmp ≡ false
    → lookup q (drop_temp calls tmp files) ≡ lookup q files
drop_temp_other calls q tmp files ne = elim (Bool-cases calls.remove_ok) [
  | inl e ↦ rw e (remove_other q tmp files ne)
  | inr e ↦ rw e refl
]

abbrev pub succeeded : Wrote → Bool
succeeded w = elim w.failed [ none ↦ true | some e ↦ false ]

-- What `q` has in the end: the new bytes if it is the path that was written, and else what it had.
abbrev pub Ends : Writing → List ℕ → List ℕ → List ℕ → Files → Wrote → Type 0
Ends calls q p bytes files w =
    (lookup q w.files
      ≡ (if succeeded w && same q p then some (file_of bytes calls.now) else lookup q files))
    × AllKeep q (lookup q files) w.during

AllKeep-append :
    (q : List ℕ) (old : Option FileNode) (xs : List Files) (d : Files)
    → AllKeep q old xs
    → lookup q d ≡ old
    → AllKeep q old (xs ++ d ∷ [])
AllKeep-append q old [] d h e = (e, tt)
AllKeep-append q old (x ∷ xs) d h e = (h.0, AllKeep-append q old xs d h.1 e)

module _ (calls : Writing) (q tmp p bytes : List ℕ) (ne : same q tmp ≡ false) where
  renamed-Ends :
      (files full : Files) (before : List Files)
      → lookup q full ≡ lookup q files
      → AllKeep q (lookup q files) before
      → Ends calls q p bytes files (renamed calls tmp p bytes full before)
  renamed-Ends files full before old whole = elim (Bool-cases calls.rename_ok) [
    | inl e ↦
        let rest : lookup q (remove tmp full) ≡ lookup q files = remove_other q tmp full ne ∙ old in
        rw e (lookup-insert p q (file_of bytes calls.now) (remove tmp full) ∙ rw rest refl, whole)
    | inr e ↦ rw e (
      drop_temp_other calls q tmp full ne ∙ old,
      AllKeep-append q (lookup q files) before full whole old,
    )
  ]

  write_temp-Ends :
      (synced : Bool) (files : Files)
      → Ends calls q p bytes files (write_temp calls synced tmp p bytes files)
  unfolding write_temp
  write_temp-Ends synced files =
      let empty : Files = insert tmp (file_of [] calls.now) files in
      let made : lookup q empty ≡ lookup q files =
        insert_other q tmp (file_of [] calls.now) files ne in
      let put_in : (b : List ℕ)
          → lookup q (insert tmp (file_of b calls.now) empty) ≡ lookup q files =
        λ b. insert_other q tmp (file_of b calls.now) empty ne ∙ made in
      elim (Option-cases calls.written) [
        | inr (n, e) ↦
            rw (write_temp, e)
              (
                drop_temp_other calls q tmp (insert tmp (file_of (take n bytes) calls.now) empty) ne
                    ∙ put_in (take n bytes),
                (made, (put_in (take n bytes), tt)),
              )
        | inl e ↦ elim (Bool-cases synced) [
          | inl s ↦
              rw (write_temp, e, s)
                (renamed-Ends files (insert tmp (file_of bytes calls.now) empty)
                  (empty ∷ insert tmp (file_of bytes calls.now) empty ∷ []) (put_in bytes)
                  (made, (put_in bytes, tt)))
          | inr s ↦
              rw (write_temp, e, s)
                (
                  drop_temp_other calls q tmp (insert tmp (file_of bytes calls.now) empty) ne
                      ∙ put_in bytes,
                  (made, (put_in bytes, tt)),
                )
        ]
      ]

-- Writing a file is atomic for every file `q` but the temporary ones: until the last step it has what it
-- had, and then, if it is the file that is written and the write succeeds, all of the new bytes.
pub write_file-Ends :
    (calls : Writing) (synced : Bool) (dir prefix p bytes q : List ℕ) (files : Files)
    → ((star : List ℕ) → calls.temp ≡ some star → same q (dir ++ b'/' ∷ (prefix ++ star)) ≡ false)
    → Ends calls q p bytes files (write_file calls synced dir prefix p bytes files)
unfolding write_file
write_file-Ends calls synced dir prefix p bytes q files ne = elim (Bool-cases calls.mkdir_ok) [
  | inr e ↦ rw (write_file, e) (refl, tt)
  | inl e ↦ elim (Option-cases calls.temp) [
    | inl t ↦ rw (write_file, e, t) (refl, tt)
    | inr (star, t) ↦
        rw (write_file, e, t)
          (write_temp-Ends calls q (dir ++ b'/' ∷ (prefix ++ star)) p bytes (ne star t) synced
            files)
  ]
]
