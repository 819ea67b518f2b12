-- ===== src/Platform/Files.antt =====
-- platform/file_system_reader.hpp and mock_file_system_reader.cpp. The real file system is outside
-- the program, so a `Reader` is what one call of a collector sees of it.
pub mod Mock
use sys_scope.Base.{
  ℕ, ◌≡◌, Bool, true, false, ◌||◌, List, [], ◌∷◌, ◌++◌, Option, none, some, Text, codes, text_eq,
  lines, Dict, lookup, insert, text_key, if◌then◌else◌,
}
use sys_scope.Core.Result.{Result, ok, error}

-- IFileSystemReader
pub record Reader : Type 0 where
  pub read_file_contents : Text → Result Text
  pub read_file_lines : Text → Result (List Text)
  pub file_exists : Text → Bool
  pub list_directory_entries : Text → Result (List Text)

-- MockFileSystemReader
pub record MockFiles : Type 0 where
  pub virtual_files : Dict Text Text
  pub virtual_dirs : Dict Text (List Text)

abbrev pub no_files : MockFiles
no_files = record { virtual_files = []; virtual_dirs = [] }

pub set_file_content : Text → Text → MockFiles → MockFiles
set_file_content path content m = record m { virtual_files = insert path content m.virtual_files }

pub has_entry : Text → List Text → Bool
has_entry e [] = false
has_entry e (x ∷ xs) = text_eq x e || has_entry e xs

-- `std::unordered_set::insert`
pub insert_entry : Text → List Text → List Text
unfolding has_entry
insert_entry e xs = if has_entry e xs then xs else xs ++ (e ∷ [])

-- `virtual_dirs_[dir]`: a directory that is not there yet is empty.
pub entries_of : Option (List Text) → List Text
entries_of none = []
entries_of (some es) = es

pub add_directory_entry : Text → Text → MockFiles → MockFiles
unfolding entries_of insert_entry
add_directory_entry dir name m = record m {
  virtual_dirs =
      insert dir (insert_entry name (entries_of (lookup dir m.virtual_dirs))) m.virtual_dirs;
}

pub clear : MockFiles → MockFiles
clear m = no_files

pub contents_of : Text → Option Text → Result Text
contents_of path none = error (codes "Mock file not found: " ++ path)
contents_of path (some t) = ok t

pub read_file_contents : MockFiles → Text → Result Text
unfolding contents_of
read_file_contents m path = contents_of path (lookup path m.virtual_files)

pub lines_of : Result Text → Result (List Text)
lines_of (error e) = error e
lines_of (ok t) = ok (lines t)

pub read_file_lines : MockFiles → Text → Result (List Text)
unfolding lines_of
read_file_lines m path = lines_of (read_file_contents m path)

abbrev pub found {ℓ} : {A : Type ℓ} → Option A → Bool
found none = false
found (some a) = true

pub file_exists : MockFiles → Text → Bool
file_exists m path = found (lookup path m.virtual_files) || found (lookup path m.virtual_dirs)

-- The order in which an unordered_set is walked is `walk`.
module _ (walk : List Text → List Text) where
  listing_of : Text → Option (List Text) → Result (List Text)
  listing_of path none = error (codes "Mock directory not found: " ++ path)
  listing_of path (some es) = ok (walk es)

  pub list_directory_entries : MockFiles → Text → Result (List Text)
  unfolding listing_of
  list_directory_entries m path = listing_of path (lookup path m.virtual_dirs)

  unfoldable pub mock_reader : MockFiles → Reader
  unfolding read_file_contents read_file_lines file_exists list_directory_entries
  mock_reader m = record {
    read_file_contents = read_file_contents m;
    read_file_lines = read_file_lines m;
    file_exists = file_exists m;
    list_directory_entries = list_directory_entries m;
  }
