-- ===== src/Tests/Client.antt =====
-- Client_HTTP and Logger at an ini file's fields and a folder of logs.
use pet_project.Base.{suc, ◌≡◌, ◌≢◌, refl, inr, true, false, none, some, [], ◌∷◌, ◌++◌, arith}
use mathlib.Core.List.{cons≢nil}
use pet_project.Base.Text.{Text, lit, starts_with}
use pet_project.Base.Int.{pos}
use pet_project.Handler.Request.{ReqInfo}
use pet_project.Server.Request.{get, HttpRequest, HandleRequest, construct, file_response}
use pet_project.Client.{parse, Looper, start, next_target}
use pet_project.Client.Fields.{join, parse-join}
use pet_project.Client.Targets.{Requests, repeat, start-Requests}
use pet_project.Client.Download.{disposition, set_params_file_body_parser-file_response}
use pet_project.Client.Session.{
  success, Round, Surroundings, no_session, set_params_file_body_parser,
}
use pet_project.Handler.Dir.{path_append}
use pet_project.Logger.{LogEntry, LogFile, open_in, regular_entries}
use pet_project.Logger.Newest.{Outcome, open_in-Outcome}

abbrev first : Text
first = b'a' ∷ []

abbrev second : Text
second = b'b' ∷ []

parse-join_example : parse (join 1 first (second ∷ [])) ≡ some (first ∷ second ∷ [])
parse-join_example =
    parse-join 1 first (second ∷ []) (λ e. ground arith, tt) ((λ e. ground arith, tt), tt)
      (refl, tt)

start-Requests_example :
    (l : Looper) × (l' : Looper) × Requests
      (start (first ∷ second ∷ []) (pos (suc 1)))
      (repeat (suc 1) (first ∷ second ∷ []))
      l
    × (next_target l ≡ some (none, l'))
    × (next_target l' ≡ some (none, l'))
start-Requests_example = start-Requests 1 first (second ∷ [])

abbrev request : HttpRequest
request = record {
  verb = get;
  method_string = lit "GET";
  target = b'/' ∷ b's' ∷ [];
  version = 11;
  host = lit "localhost";
  user_agent = lit "client";
  keep_alive = true;
}

abbrev server : HandleRequest
server = construct (lit "server") (lit "127.0.0.1") 4000

abbrev song_vector : ReqInfo
song_vector = record {
  target = b's' ∷ [];
  host = [];
  port = [];
  ip_address = [];
  user_agent = [];
  method = lit "GET";
  result = lit "/srv/songs/s";
  error = [];
}

abbrev download_round : Round
download_round = record {
  taken = some (b's' ∷ []);
  entered = none;
  written = success;
  header_read = success;
  header = record {
    content_type = lit "audio/mpeg";
    content_disposition = disposition (b's' ∷ []);
    text = [];
    content_length = some 1000;
  };
  answered_name = [];
  exists = true;
  created = success;
  opened = success;
  body_read = success;
  page = [];
}

abbrev client_surroundings : Surroundings
client_surroundings = record {
  host = lit "localhost";
  port = lit "4000";
  path_to_dwnld_dir = lit "/home/downloads";
  message = λ ec. [];
  thread_id = lit "1";
  shutdown = success;
}

no_slash : starts_with (b's' ∷ []) (b'/' ∷ []) ≡ false
unfolding starts_with
no_slash = refl

answered_field :
    some (disposition (b's' ∷ []))
    ≡ (file_response server request song_vector 1000).content_disposition
unfolding file_response
answered_field = refl

answered_size : some 1000 ≡ some (file_response server request song_vector 1000).content_length
unfolding file_response
answered_size = refl

set_params_file_body_parser-file_response_example :
    set_params_file_body_parser client_surroundings download_round no_session
    ≡ some (
      true,
      record no_session {
        opened = [] ++ (path_append (lit "/home/downloads") (b's' ∷ []), 1000) ∷ [];
      },
    )
set_params_file_body_parser-file_response_example =
    set_params_file_body_parser-file_response server request song_vector 1000 client_surroundings
      download_round no_session refl ((λ e. ground arith), tt) no_slash answered_field answered_size
      refl refl

abbrev log_entry : LogEntry
log_entry = record {
  path = lit "/var/log/Inotify_log1.log";
  is_regular = true;
  last_write_time = 7;
  file_size = some 900;
}

abbrev log_folder : LogEntry
log_folder = record log_entry { is_regular = false }

some_regular : regular_entries (log_folder ∷ log_entry ∷ []) ≢ []
unfolding regular_entries
some_regular e = cons≢nil e

open_in-Outcome_example :
    (f : LogFile) × (open_in (lit "/var/log") (lit "Inotify") 1000 (log_folder ∷ log_entry ∷ [])
      ≡ some f)
    × Outcome (lit "/var/log") (lit "Inotify") 1000 (log_folder ∷ log_entry ∷ []) f
open_in-Outcome_example =
    open_in-Outcome (lit "/var/log") (lit "Inotify") 1000 (log_folder ∷ log_entry ∷ [])
      (inr some_regular)
