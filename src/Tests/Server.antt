-- ===== src/Tests/Server.antt =====
-- Server_HTTP at a request for a song.
use pet_project.Base.{◌≡◌, refl, true, none, some, List, [], ◌∷◌, arith}
use pet_project.Base.{inl, tabulate}
use pet_project.Database.Result.{Pgresult, PgResult, get_result_container, field_value}
use pet_project.Handler.Http.Files.{decide, res_handle, choose, take_file}
use pet_project.Server.Request.Searched.{status_for}
use pet_project.Server.Request.Database.{decide-status_for}
use pet_project.Base.Text.{Text, lit}
use pet_project.Handler.Request.{ReqInfo}
use pet_project.Handler.Dir.{Entry, FileSystem, DirHandler}
use pet_project.Server.Request.{
  get, head, HttpRequest, Opened, opened, HandleRequest, construct, respond,
}
use pet_project.Server.Request.Head.{head_of, head_of-respond}

abbrev request_for_song : HttpRequest
request_for_song = record {
  verb = get;
  method_string = lit "GET";
  target = b'/' ∷ b's' ∷ [];
  version = 11;
  host = lit "localhost";
  user_agent = lit "client";
  keep_alive = true;
}

abbrev client : HandleRequest
client = construct (lit "server") (lit "127.0.0.1") 4000

abbrev song_vector : ReqInfo
song_vector = record {
  target = b's' ∷ [];
  host = lit "localhost";
  port = lit "4000";
  ip_address = lit "127.0.0.1";
  user_agent = lit "client";
  method = lit "GET";
  result = [];
  error = [];
}

abbrev open_any : Text → Opened
open_any path = opened 1000

head_of-respond_example :
    head_of (respond client (record request_for_song { verb = head }) open_any true song_vector)
    ≡ head_of (respond client (record request_for_song { verb = get }) open_any true song_vector)
head_of-respond_example = head_of-respond client request_for_song open_any true song_vector

abbrev song_files : List Entry
song_files =
    record { filename = b's' ∷ []; is_regular = true; shown = some (b's' ∷ []) }
    ∷ record { filename = b't' ∷ []; is_regular = true; shown = none }
    ∷ []

abbrev disk : FileSystem
disk = record { is_directory = λ _. (true, none); list_dir = λ _. some song_files }

abbrev songs_handler : DirHandler
songs_handler = record { files_path = lit "/srv/songs"; check_res = true }

-- A result of one row and two columns, which holds "s" everywhere.
abbrev found : Pgresult
found = record {
  status_name = lit "PGRES_TUPLES_OK";
  nfields = 2;
  ntuples = 1;
  fname = λ j. lit "f";
  value = λ i j. b's' ∷ [];
  error_message = [];
  cmd_status = lit "SELECT 1";
}

abbrev one_row : PgResult
one_row = record {
  result = some found;
  db_name = lit "db";
  success = true;
  n_fields = 2;
  n_tuples = 1;
}

abbrev no_row : PgResult
no_row = record one_row { result = some (record found { ntuples = 0 }); n_tuples = 0 }

abbrev song_found : ReqInfo
song_found = record song_vector { target = b's' ∷ []; result = b's' ∷ b'/' ∷ b's' ∷ [] }

song_is_found : decide one_row no_row song_vector ≡ some song_found
unfolding decide res_handle choose take_file get_result_container tabulate field_value
song_is_found = refl

decide-status_for_example :
    (respond client request_for_song open_any true song_found).status ≡ status_for one_row no_row
decide-status_for_example =
    decide-status_for client request_for_song open_any one_row no_row song_vector song_found
      (λ e. cc) (λ path. (1000, refl)) (λ e. omega arith) (λ e. omega arith) refl (inl refl)
      song_is_found
