-- ===== src/Tests/Handler.antt =====
-- The handlers at a directory of two songs and at a database that answers every query.
use pet_project.Base.{
  ℕ, ◌≡◌, ◌+◌, ◌-◌, tabulate, refl, Bool, true, false, none, some, List, [], ◌∷◌, ◌++◌, length,
  arith,
}
use pet_project.Base.Text.{Text, lit, text_eq, spaces}
use pet_project.Base.Int.{pos, half}
use pet_project.Database.Result.{
  Pgresult, PgResult, make, nfields_of, ntuples_of, found_in, get_value, field_value, Cell, cell,
  get_result_container, get_result_single,
}
use pet_project.Database.Result.Container.{IsTable}
use pet_project.Handler.Request.{ReqInfo}
use pet_project.Handler.Tables.{forming_tables_helper}
use pet_project.Handler.Tables.Aligned.{AreLines, forming_tables_helper-AreLines}
use pet_project.Handler.Dir.{Entry, FileSystem, DirHandler, first_column, table_of}
use pet_project.Handler.Dir.FilesTable.{AreEntries, table_of-AreEntries}
use pet_project.Handler.Http.State.{Backend, HttpHandler, exec}
use pet_project.Handler.Http.Log.{trim_command}
use pet_project.Handler.Http.Files.{
  decide, files_query, log_query, name_query, uid_query, handle, res_handle, choose, take_file,
}
use pet_project.Handler.Http.Files.Served.{GivesUnique, decide-GivesUnique}
use pet_project.Handler.Http.Files.Total.{Answers, CanTrim, handle_total}
use pet_project.Server.Request.{HttpRequest, get, opened}
use pet_project.Server.Session.{
  Completion, request_read, response_written, read_failed, end_of_stream,
}
use pet_project.Server.Handlers.{IsServed, database_session-IsServed}

abbrev song_cells : List Cell
song_cells = cell (b'1' ∷ []) ∷ cell (b'a' ∷ b'b' ∷ []) ∷ []

abbrev header_cells : List Cell
header_cells = cell (b'i' ∷ b'd' ∷ []) ∷ cell (b'n' ∷ []) ∷ []

two_rows : IsTable 2 (header_cells ∷ song_cells ∷ [])
two_rows = (
  record { width = refl; measured = (refl, (refl, tt)) },
  (record { width = refl; measured = (refl, (refl, tt)) }, tt),
)

forming_tables_helper-AreLines_example :
    (t : Text) × (ws : List ℕ) × (forming_tables_helper (header_cells ∷ song_cells ∷ []) ≡ some t)
    × (length ws ≡ 1)
    × AreLines ws (header_cells ∷ song_cells ∷ []) t
forming_tables_helper-AreLines_example =
    forming_tables_helper-AreLines 1 header_cells (song_cells ∷ []) two_rows

abbrev names : List Text
names = lit "a.mp3" ∷ lit "b.mp3" ∷ []

table_of-AreEntries_example :
    let w = first_column 2 in
    (header : Text) × (lines : Text) × (table_of names ≡ some (header ++ lines))
    × (header ≡ lit "Pos" ++ (spaces (w + 1 - 3) ++ lit "File name\n"))
    × AreEntries w 1 names lines
table_of-AreEntries_example = table_of-AreEntries names

abbrev songs_dir : List Entry
songs_dir =
    record { filename = lit "live"; is_regular = false; shown = some (lit "live") }
    ∷ record { filename = lit "a.mp3"; is_regular = true; shown = some (lit "a.mp3") }
    ∷ []

abbrev disk : FileSystem
disk = record { is_directory = λ _. (true, none); list_dir = λ _. some songs_dir }

abbrev dir_handler : DirHandler
dir_handler = record { files_path = lit "/srv/songs"; check_res = true }

abbrev request : ReqInfo
request = record {
  target = b'a' ∷ b'*' ∷ [];
  host = [];
  port = [];
  ip_address = [];
  user_agent = [];
  method = lit "GET";
  result = [];
  error = [];
}

-- A result of one row and two columns, which holds 3 everywhere.
abbrev pub threes : Pgresult
threes = record {
  status_name = lit "PGRES_TUPLES_OK";
  nfields = 2;
  ntuples = 1;
  fname = λ j. lit "f";
  value = λ i j. b'3' ∷ [];
  error_message = [];
  cmd_status = lit "SELECT 1";
}

abbrev pub one_row : PgResult
one_row = record {
  result = some threes;
  db_name = lit "db";
  success = true;
  n_fields = 2;
  n_tuples = 1;
}

abbrev no_row : PgResult
no_row = record one_row { result = some (record threes { ntuples = 0 }); n_tuples = 0 }

abbrev found : ReqInfo
found = record request { target = b'3' ∷ []; result = b'3' ∷ b'/' ∷ b'3' ∷ [] }

decided : decide one_row no_row request ≡ some found
unfolding decide res_handle choose take_file get_result_container tabulate field_value
decided = refl

decide-GivesUnique_example : GivesUnique one_row no_row request found
decide-GivesUnique_example =
    decide-GivesUnique one_row no_row request found (λ e. omega arith) (λ e. omega arith) refl
      decided

-- A database that always gives that result, used by one session.
abbrev pub answering : Backend Unit
answering = record { pqexec = λ c f db. (some threes, lit "db", db); others = λ db n. n }

abbrev handler : HttpHandler Unit
handler = record {
  db = tt;
  has_logger = false;
  log = [];
  days_limit = pos 7;
  rows_limit = pos 4;
  log_table_nrows = pos 5;
  sent = [];
}

made : make (some threes) (lit "db") ≡ one_row
unfolding make nfields_of ntuples_of found_in text_eq lit
made = refl

pub answered :
    (c : Text) (front : Bool) (h : HttpHandler Unit) → (exec answering c front h).0 ≡ one_row
unfolding exec
answered c front h = made

pub get_result_single_three : get_result_single one_row ≡ some (b'3' ∷ [])
unfolding get_result_single get_value
get_result_single_three = refl

answering-Answers : Answers answering
answering-Answers = record {
  files_columns = λ h. rw (answered files_query false h) (λ e. omega arith);
  log_columns = λ h. rw (answered log_query false h) (λ e. omega arith);
  name_columns = λ h t p. rw (answered (name_query t) false h) (λ e. omega arith);
  uid_columns = λ h t p. rw (answered (uid_query t) false h) (λ e. omega arith);
  trim_value = λ h n p. rw (answered (trim_command n) true h, get_result_single_three) (λ e. cc);
}

trims : (h : HttpHandler Unit) → CanTrim answering h
trims h full = rw (answered (trim_command (half h.rows_limit)) true h) refl

handle_total_example :
    (file : Bool) × (h' : HttpHandler Unit) × (r' : ReqInfo) × (handle answering handler request
      ≡ some (file, h', r'))
handle_total_example =
    handle_total answering answering-Answers handler request
      ((λ e. omega (arith, e)), ((λ e. omega (arith, e)), tt)) (trims handler)

abbrev http_request : HttpRequest
http_request = record {
  verb = get;
  method_string = lit "GET";
  target = b'/' ∷ b's' ∷ [];
  version = 11;
  host = lit "localhost";
  user_agent = lit "client";
  keep_alive = true;
}

abbrev completions : List Completion
completions = request_read http_request ∷ response_written false ∷ read_failed end_of_stream ∷ []

database_session-IsServed_example :
    IsServed answering
      (lit "server")
      (λ path. opened 1000)
      (λ f. [])
      none
      (lit "127.0.0.1")
      4000
      handler
      completions
database_session-IsServed_example =
    database_session-IsServed answering (lit "server") (λ path. opened 1000) (λ f. []) none
      (lit "127.0.0.1") 4000 handler completions answering-Answers trims
      ((b'/', b's' ∷ [], refl, ((λ e. omega (arith, e)), tt)), (tt, (tt, tt)))
