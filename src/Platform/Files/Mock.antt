-- ===== src/Platform/Files/Mock.antt =====
-- MockFileSystemReader as a store: what is read after any sequence of writes.
use sys_scope.Base.{
  ◌≡◌, refl, sym, ap, ◌∙◌, inl, inr, Bool, true, false, ◌||◌, List, [], ◌∷◌, ◌++◌, Option, none,
  some, arith, Text, text_eq, text_eq_iff, text_key, lookup, lookup-insert, Bool-cases,
  if◌then◌else◌,
}
use sys_scope.Platform.Files.{
  MockFiles, no_files, set_file_content, add_directory_entry, clear, read_file_contents,
  read_file_lines, contents_of, lines_of, has_entry, insert_entry, entries_of,
}

pub data Write : Type 0 where
  sets : Text → Text → Write
  adds : Text → Text → Write
  clears : Write

apply : Write → MockFiles → MockFiles
apply (sets path content) m = set_file_content path content m
apply (adds dir name) m = add_directory_entry dir name m
apply clears m = clear m

pub apply_all : List Write → MockFiles → MockFiles
apply_all [] m = m
apply_all (w ∷ ws) m = apply_all ws (apply w m)

-- The last content that is set for the path and not cleared, and `before` without one.
abbrev pub last_content : Text → Option Text → List Write → Option Text
last_content path before [] = before
last_content path before (sets p t ∷ ws) =
    last_content path (if text_eq p path then some t else before) ws
last_content path before (adds dir name ∷ ws) = last_content path before ws
last_content path before (clears ∷ ws) = last_content path none ws

apply_all-files :
    (ws : List Write) (m : MockFiles) (path : Text)
    → lookup path (apply_all ws m).virtual_files
      ≡ last_content path (lookup path m.virtual_files) ws
unfolding apply_all apply set_file_content add_directory_entry clear lookup
apply_all-files [] m path = refl
apply_all-files (sets p t ∷ ws) m path =
    apply_all-files ws (set_file_content p t m) path
    ∙ ap (λ o. last_content path o ws) (lookup-insert p path t m.virtual_files)
apply_all-files (adds dir name ∷ ws) m path =
    apply_all-files ws (add_directory_entry dir name m) path
apply_all-files (clears ∷ ws) m path = apply_all-files ws (clear m) path

-- After any sequence of writes on new mock files, a path reads as the last content that was set for
-- it since the last clear, whole and by lines, and as the error that names the path where there is
-- none; entries that are added to directories change no content.
pub read-apply_all :
    (ws : List Write) (path : Text)
    → let m = apply_all ws no_files in
      (read_file_contents m path ≡ contents_of path (last_content path none ws))
      × (read_file_lines m path ≡ lines_of (contents_of path (last_content path none ws)))
unfolding read_file_contents read_file_lines lookup
read-apply_all ws path =
    let e = apply_all-files ws no_files path in
    (ap (contents_of path) e, ap (λ o. lines_of (contents_of path o)) e)

-- Whether a directory has the entry, `before` unless the writes say otherwise.
abbrev pub listed : Text → Text → Bool → List Write → Bool
listed dir name before [] = before
listed dir name before (sets p t ∷ ws) = listed dir name before ws
listed dir name before (adds d n ∷ ws) =
    listed dir name (if text_eq d dir then text_eq n name || before else before) ws
listed dir name before (clears ∷ ws) = listed dir name false ws

has_entry-append :
    (e x : Text) (xs : List Text) → has_entry e (xs ++ (x ∷ [])) ≡ (text_eq x e || has_entry e xs)
unfolding has_entry
has_entry-append e x [] = refl
has_entry-append e x (y ∷ xs) = ground (arith, has_entry-append e x xs)

has_entry-same :
    (e x : Text) (xs : List Text)
    → has_entry x xs ≡ true
    → has_entry e xs ≡ (text_eq x e || has_entry e xs)
has_entry-same e x xs h = elim (Bool-cases (text_eq x e)) [
  | inl q ↦
      let there : has_entry e xs ≡ true =
        ap (λ y. has_entry y xs) (sym ((text_eq_iff x e).0 q)) ∙ h in
      rw (q, there) refl
  | inr q ↦ rw q refl
]

has_entry-insert_entry :
    (e x : Text) (xs : List Text)
    → has_entry e (insert_entry x xs) ≡ (text_eq x e || has_entry e xs)
unfolding insert_entry
has_entry-insert_entry e x xs = elim (Bool-cases (has_entry x xs)) [
  | inl h ↦ rw h (has_entry-same e x xs h)
  | inr h ↦ rw h (has_entry-append e x xs)
]

-- What a directory holds, nothing for one that is not there.
abbrev pub entries : Text → MockFiles → List Text
entries dir m = entries_of (lookup dir m.virtual_dirs)

entries_of-if :
    (b : Bool) (xs : List Text) (o : Option (List Text))
    → entries_of (if b then some xs else o) ≡ (if b then xs else entries_of o)
unfolding entries_of
entries_of-if true xs o = refl
entries_of-if false xs o = refl

entries-add :
    (dir d n name : Text) (m : MockFiles)
    → has_entry name (entries dir (add_directory_entry d n m)) ≡ (
        if text_eq d dir
        then text_eq n name || has_entry name (entries dir m)
        else has_entry name (entries dir m))
unfolding add_directory_entry
entries-add dir d n name m =
    ap (λ o. has_entry name (entries_of o)) (lookup-insert d dir _ m.virtual_dirs)
    ∙ ap (has_entry name) (entries_of-if (text_eq d dir) _ (lookup dir m.virtual_dirs))
    ∙ elim (Bool-cases (text_eq d dir)) [
      | inl q ↦
          let same : d ≡ dir = (text_eq_iff d dir).0 q in
          rw (q, same) (has_entry-insert_entry name n (entries dir m))
      | inr q ↦ rw q refl
    ]

entries-apply_all :
    (ws : List Write) (m : MockFiles) (dir name : Text)
    → has_entry name (entries dir (apply_all ws m))
      ≡ listed dir name (has_entry name (entries dir m)) ws
unfolding apply_all apply set_file_content clear lookup has_entry entries_of
entries-apply_all [] m dir name = refl
entries-apply_all (sets p t ∷ ws) m dir name =
    entries-apply_all ws (set_file_content p t m) dir name
entries-apply_all (adds d n ∷ ws) m dir name =
    entries-apply_all ws (add_directory_entry d n m) dir name
    ∙ ap (λ b. listed dir name b ws) (entries-add dir d n name m)
entries-apply_all (clears ∷ ws) m dir name = entries-apply_all ws (clear m) dir name

-- After any sequence of writes on new mock files, a directory holds exactly the entries that were
-- added to it since the last clear.
pub entries-apply_all_new :
    (ws : List Write) (dir name : Text)
    → has_entry name (entries dir (apply_all ws no_files)) ≡ listed dir name false ws
unfolding lookup has_entry entries_of
entries-apply_all_new ws dir name = entries-apply_all ws no_files dir name
