-- ===== src/Platform/RealFiles.antt =====
-- platform/real_file_system_reader.cpp over the operating system's answers.
use sys_scope.Base.{
  Bool, not, ◌||◌, List, ◌++◌, Option, none, some, Text, codes, lines, if◌then◌else◌,
}
use sys_scope.Core.Result.{Result, ok, error}
use sys_scope.Platform.Files.{Reader}

-- What std::ifstream and std::filesystem say of a path: the content of a file that opens, whether the
-- path exists and is a directory, and the names that an iteration gives with the message of its error
-- code, if it set one. Steps of the iterator do not throw.
pub record Os : Type 0 where
  pub open_file : Text → Option Text
  pub exists : Text → Bool
  pub is_directory : Text → Bool
  pub directory_names : Text → List Text
  pub iteration_error : Text → Option Text

unfoldable pub opened : Text → Option Text → Result Text
opened path none = error (codes "Failed to open file: " ++ path)
opened path (some content) = ok content

unfoldable pub read_file_contents : Os → Text → Result Text
unfolding opened
read_file_contents os path = opened path (os.open_file path)

unfoldable pub opened_lines : Text → Option Text → Result (List Text)
opened_lines path none = error (codes "Failed to open file: " ++ path)
opened_lines path (some content) = ok (lines content)

unfoldable pub read_file_lines : Os → Text → Result (List Text)
unfolding opened_lines
read_file_lines os path = opened_lines path (os.open_file path)

unfoldable pub file_exists : Os → Text → Bool
file_exists os path = os.exists path

unfoldable pub iterated : List Text → Option Text → Result (List Text)
iterated entries none = ok entries
iterated entries (some message) = error (codes "Error iterating directory: " ++ message)

unfoldable pub list_directory_entries : Os → Text → Result (List Text)
unfolding iterated
list_directory_entries os path =
    if not (os.exists path) || not (os.is_directory path)
    then error (codes "Directory does not exist: " ++ path)
    else iterated (os.directory_names path) (os.iteration_error path)

unfoldable pub real_reader : Os → Reader
unfolding read_file_contents read_file_lines file_exists list_directory_entries
real_reader os = record {
  read_file_contents = read_file_contents os;
  read_file_lines = read_file_lines os;
  file_exists = file_exists os;
  list_directory_entries = list_directory_entries os;
}
