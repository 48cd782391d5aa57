-- ===== src/Handler/Dir.antt =====
-- Handler/src/handler.cpp, class Server_dir_handler. The file system is an argument: what
-- `is_directory` answers for a path, and the entries that a directory iterator visits. `none` is
-- undefined behaviour or an exception.
pub mod Digits
pub mod FilesTable
pub mod Requested
pub mod Find
use pet_project.Base.{
  ℕ, zero, suc, ◌+◌, ◌-◌, ◌/◌, max, Bool, true, false, ◌&&◌, ◌||◌, Option, none, some, List, [],
  ◌∷◌, ◌++◌, length, ltb, ◌==◌, if◌then◌else◌, ◌>>=◌,
}
use pet_project.Base.Text.{
  Text, lit, text_eq, starts_with, contains, back?, drop_back, is_empty, spaces,
}
use pet_project.Base.Decimal.{to_string}
use pet_project.Handler.Request.{ReqInfo}

-- A directory_entry: the name of its path, and is_regular_file(). `shown` is what a string_view of the
-- name reads after the path that held the name has been destroyed. That is undefined behaviour, of
-- which nothing is known: any text, or `none`, after which nothing can be said.
pub record Entry : Type 0 where
  pub filename : Text
  pub is_regular : Bool
  pub shown : Option Text

pub record FileSystem : Type 0 where
  -- the answer, and the message of the error code if it is set
  pub is_directory : Text → Bool × Option Text
  -- the entries in the order of the iterator; `none` if its constructor throws
  pub list_dir : Text → Option (List Entry)

pub record DirHandler : Type 0 where
  pub files_path : Text
  pub check_res : Bool

-- check_dir(), with the message that it writes to std::cerr and to the log. With an error code the
-- message is a view of a temporary string, which is destroyed before it is read.
pub check_dir : FileSystem → DirHandler → Option (DirHandler × Text)
check_dir fs h =
    let (is_dir, ec) = fs.is_directory h.files_path in
    elim ec [
      | some message ↦ none
      | none ↦ some (
          if is_dir then (record h { check_res = true }, []) else (
            record h { files_path = []; check_res = false },
            lit "Given path to files dir is not a directory",
          ))
    ]

pub set_path : FileSystem → Text → DirHandler → Option (DirHandler × Bool)
unfolding check_dir
set_path fs path h = do r ← check_dir fs (record h { files_path = path }); some (r.0, r.0.check_res)

-- path /= filename, for a name with no slash
unfoldable pub path_append : Text → Text → Text
path_append path name = elim (back? path) [
  | none ↦ name
  | some c ↦ if c == b'/' then path ++ name else path ++ (b'/' ∷ name)
]

-- The closure `compare`: the prefix before a star, which refers to the target, or a copy of it.
pub data Compare : Type 0 where
  by_prefix : Compare
  by_name : Text → Compare

-- The target after a match, or `none` if the file does not match.
unfoldable pub compare_file : Compare → Text → Text → Option Text
compare_file by_prefix target file = if starts_with file target then some file else none
compare_file (by_name captured) target file = if text_eq file captured then some target else none

-- The loop over the directory, up to the first regular file that matches. `curr_file` is a view of the
-- name in the temporary path that filename() gives, which is destroyed at the end of the assignment.
unfoldable pub find_file : Text → Compare → List Entry → ReqInfo → Option ReqInfo
unfolding compare_file path_append
find_file path c [] r = some (record r { error = lit "File " ++ (r.target ++ lit " not found") })
find_file path c (e ∷ es) r =
    let rest = find_file path c es r in
    let compared = (do
      curr_file ← e.shown
      elim (compare_file c r.target curr_file) [
        | some target ↦ some (record r { target = target; result = path_append path curr_file })
        | none ↦ rest
      ]) in
    if e.is_regular then compared else rest

-- The test that get_file_URI shares.
unfoldable pub is_illegal : ℕ → Text → Bool
is_illegal last target = last == b'/' || contains target (lit "..")

abbrev pub illegal : Text
illegal = lit "Illegal request-target"

-- The choice of the closure, which drops a star from the target, and the loop.
unfoldable pub find_target : Text → ℕ → List Entry → ReqInfo → Option ReqInfo
unfolding find_file
find_target path last es r =
    if ltb 1 (length r.target) && last == b'*'
    then find_file path by_prefix es (record r { target = drop_back r.target })
    else find_file path (by_name r.target) es r

unfoldable pub find_legal : FileSystem → DirHandler → ℕ → ReqInfo → Option ReqInfo
unfolding is_illegal find_target
find_legal fs h last r =
    if is_illegal last r.target
    then some (record r { error = illegal })
    else (do es ← fs.list_dir h.files_path; find_target h.files_path last es r)

-- target.back() comes first
unfoldable pub find : FileSystem → DirHandler → ReqInfo → Option ReqInfo
unfolding find_legal
find fs h r = do last ← back? r.target; find_legal fs h last r

-- do { ++number_of_digits; n /= 10; } while (n != 0)
unfoldable pub digits_loop : ℕ → ℕ → ℕ → ℕ
digits_loop zero k n = k
digits_loop (suc fuel) k n =
    let rest = digits_loop fuel (k + 1) (n / 10) in if n / 10 == 0 then k + 1 else rest

-- Each round but the last divides a number that is not 0, so `n + 1` rounds are enough.
unfoldable pub number_of_digits : ℕ → ℕ
unfolding digits_loop
number_of_digits n = digits_loop (suc n) 0 n

unfoldable pub regular_names : List Entry → List Text
regular_names [] = []
regular_names (e ∷ es) = if e.is_regular then e.filename ∷ regular_names es else regular_names es

-- std::string(w - used + 1, ' ') on an unsigned type; a count below zero throws
unfoldable pub gap : ℕ → ℕ → Option Text
gap w used = if ltb (w + 1) used then none else some (spaces (w + 1 - used))

-- The lines of the files from position `pos` on.
unfoldable pub files_lines : ℕ → ℕ → List Text → Option Text
unfolding gap
files_lines w pos [] = some []
files_lines w pos (name ∷ names) = do
  pad ← gap w (number_of_digits pos)
  rest ← files_lines w (pos + 1) names
  some (to_string pos ++ (pad ++ (name ++ (b'\n' ∷ rest))))

unfoldable pub first_column : ℕ → ℕ
first_column n = max (number_of_digits n) 3

unfoldable pub table_of : List Text → Option Text
unfolding gap files_lines first_column
table_of names = do
  pad ← gap (first_column (length names)) 3
  rest ← files_lines (first_column (length names)) 1 names
  some (lit "Pos" ++ (pad ++ (lit "File name\n" ++ rest)))

pub forming_files_table : FileSystem → DirHandler → Option Text
unfolding table_of regular_names
forming_files_table fs h = do es ← fs.list_dir h.files_path; table_of (regular_names es)

unfoldable pub is_files_table : Text → Bool
is_files_table target =
    is_empty target
    || text_eq target (lit "/")
    || text_eq target (lit "files_table")
    || text_eq target (lit "Files_table")

-- Whether the request is for a file, and the vector afterwards.
unfoldable pub handle : FileSystem → DirHandler → ReqInfo → Option (Bool × ReqInfo)
unfolding find forming_files_table is_files_table
handle fs h r =
    if is_files_table r.target
    then (do t ← forming_files_table fs h; some (false, record r { result = t }))
    else (do r' ← find fs h r; some (true, r'))
