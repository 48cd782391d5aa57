-- ===== src/Logger.antt =====
-- Logger/src/logger.cpp, open_file: which file of the folder the records go to, and the constructor. The
-- folder's entries are an argument, in the order of the directory iterator.
pub mod Newest
pub mod Dialogue
use pet_project.Base.{
  ℕ, zero, suc, ◌+◌, ◌≤◌, Bool, true, false, Option, none, some, List, [], ◌∷◌, ◌++◌, ltb, leb,
  length, if◌then◌else◌, ◌>>=◌,
}
use pet_project.Base.Text.{Text, lit}
use pet_project.Base.Decimal.{to_string}
use pet_project.Handler.Dir.{path_append}

-- A directory_entry: its path, is_regular_file(), last_write_time(), and file_size(ec), `none` if the
-- error code is set.
pub record LogEntry : Type 0 where
  pub path : Text
  pub is_regular : Bool
  pub last_write_time : ℕ
  pub file_size : Option ℕ

-- The file that is opened: for records behind those in it, or empty.
pub data LogFile : Type 0 where
  appended created : Text → LogFile

-- entries: the regular files
unfoldable pub regular_entries : List LogEntry → List LogEntry
regular_entries [] = []
regular_entries (e ∷ es) = if e.is_regular then e ∷ regular_entries es else regular_entries es

-- std::max_element with `compare`: the first of the newest from `best` on
unfoldable pub max_element_from : LogEntry → List LogEntry → LogEntry
max_element_from best [] = best
max_element_from best (e ∷ es) =
    let newer = max_element_from e es in
    let older = max_element_from best es in
    if ltb best.last_write_time e.last_write_time then newer else older

-- The end iterator of an empty vector is `none`.
unfoldable pub max_element : List LogEntry → Option LogEntry
unfolding max_element_from
max_element [] = none
max_element (e ∷ es) = some (max_element_from e es)

-- (file_size(ec) <= max_log_file_size) && (!ec)
unfoldable pub has_room : ℕ → LogEntry → Bool
has_room limit e = elim e.file_size [ none ↦ false | some size ↦ leb size limit ]

-- service + "_log" + n + ".log" in the folder
unfoldable pub new_log_file : Text → Text → ℕ → Text
new_log_file folder service n =
    path_append folder (service ++ (lit "_log" ++ (to_string n ++ lit ".log")))

-- open_file, for a folder that exists; `none` is a read through the end iterator.
unfoldable pub open_in : Text → Text → ℕ → List LogEntry → Option LogFile
unfolding regular_entries max_element has_room new_log_file
open_in folder service limit [] = some (created (new_log_file folder service 1))
open_in folder service limit (e ∷ es) = do
  last ← max_element (regular_entries (e ∷ es))
  some (
      if has_room limit last
      then appended last.path
      else created (new_log_file folder service (length (regular_entries (e ∷ es)) + 1)))

-- open_file: `exists` tells whether the folder is there, and `created_dir` what the dialogue that
-- creates it returned; a created folder has no entry. The inner option is a file that is not opened.
unfoldable pub open_file : Bool → Bool → Text → Text → ℕ → List LogEntry → Option (Option LogFile)
unfolding open_in
open_file true created_dir folder service limit es = do
  f ← open_in folder service limit es
  some (some f)
open_file false true folder service limit es = do f ← open_in folder service limit []; some (some f)
open_file false false folder service limit es = some none

-- Logger(service, log_dir, size): whether it has started. `opens` tells whether the stream is open.
unfoldable pub construct :
    (LogFile → Bool) → Bool → Bool → Text → Text → ℕ → List LogEntry → Option Bool
unfolding open_file
construct opens exists created_dir folder service limit es = do
  opened ← open_file exists created_dir folder service limit es
  some (elim opened [ none ↦ false | some f ↦ opens f ])

-- make_record(event): the line that goes to the file, for the time as put_time writes it.
unfoldable pub record_line : Text → Text → Text
record_line time event = time ++ (b' ' ∷ b'\t' ∷ (event ++ b'\n' ∷ []))
