-- ===== src/Tests/Sessions.antt =====
-- The sessions of Client_HTTP, and the search for its ini file.
use pet_project.Base.{
  suc, ◌+◌, ◌≡◌, ◌⊎◌, refl, true, false, none, some, List, [], ◌∷◌, ◌++◌, length, arith, ◌>>=◌,
}
use pet_project.Base.Text.{Text, lit, is_empty}
use pet_project.Base.Int.{pos}
use pet_project.Client.{Looper, next_target, start, file_name}
use pet_project.Client.Sessions.{
  Phase, at_top, looping, out_of_range, advance, Client, launch, Reach, here, next, Step, advanced,
}
use pet_project.Client.Sessions.Alone.{advances, request_of, is_none, advances-next_target}
use pet_project.Client.Sessions.FirstLoop.{Reach-taken}
use pet_project.Client.Sessions.Asked.{asked_with_target}
use pet_project.Client.Sessions.{requesting}
use pet_project.Client.Sessions.Overrun.{two_sessions_out_of_range}
use pet_project.Client.Session.{success, timeout, Round, Surroundings, Flow, do_session}
use pet_project.Client.Session.Total.{IsNamed}
use pet_project.Client.Session.Requested.{Done, do_session-Done}
use pet_project.Client.Startup.{IniValues, ClientHttp, construct}
use pet_project.Client.Startup.InRange.{Runs, run_total}
use pet_project.Parser.Search as Search
use pet_project.Parser.Search.{Directory, Item, FileSystem, regular, directory}
use pet_project.Parser.Search.Nearest.{Answers, construct-Answers}

abbrev songs : List Text
songs = lit "a" ∷ lit "b" ∷ []

-- The second of two sessions has looked whether there are targets.
abbrev second_looks : Client
second_looks = record (launch songs (pos 2) 2) { sessions = at_top ∷ looping ∷ [] }

second-Step : Step (launch songs (pos 2) 2) second_looks
unfolding launch advance start
second-Step = advanced (at_top ∷ []) [] at_top looping _ refl refl refl

Reach-taken_example :
    ((rest : List Text) × (songs ≡ second_looks.taken ++ rest))
    ⊎ ((rest : List Text) × (second_looks.taken ≡ songs ++ rest))
Reach-taken_example = Reach-taken songs (pos 2) 2 second_looks (omega arith) (next here second-Step)

two_sessions_out_of_range_example :
    (s : Client) × Reach (launch songs (pos (suc (suc 0))) 2) s
    × (second : Phase) × (s.sessions ≡ out_of_range (length songs + 2) ∷ second ∷ [])
two_sessions_out_of_range_example =
    two_sessions_out_of_range (lit "a") (lit "b" ∷ []) 0 (omega arith)

asked_with_target_example :
    (s : Client) × Reach (launch songs (pos 1) 2) s
    × (s.taken ≡ songs)
    × (second : Phase) × (s.sessions ≡ requesting (some (lit "b")) true ∷ second ∷ [])
asked_with_target_example =
    asked_with_target (lit "a") (lit "b" ∷ []) (lit "a" ∷ []) (lit "b") (omega arith) refl

abbrev at_second : Looper
at_second = record {
  targets = songs;
  targets_loops = pos 2;
  targets_index = 1;
  targets_looping_over = false;
}

advances-next_target_example :
    request_of (advances 9 (at_top, at_second))
    ≡ (do r ← next_target at_second; some (r.0, is_none r.0, r.1))
advances-next_target_example = advances-next_target at_second (omega arith)

abbrev page_round : Round
page_round = record {
  taken = some (lit "files_table");
  entered = none;
  written = success;
  header_read = success;
  header = record {
    content_type = lit "text/html";
    content_disposition = [];
    text = lit "HTTP/1.1 200 OK";
    content_length = some 20;
  };
  answered_name = lit "answer";
  exists = true;
  created = success;
  opened = success;
  body_read = timeout;
  page = [];
}

abbrev host : Surroundings
host = record {
  host = lit "127.0.0.1";
  port = lit "8080";
  path_to_dwnld_dir = lit "/tmp";
  message = λ ec. lit "The socket was closed due to a timeout";
  thread_id = lit "1";
  shutdown = success;
}

page_round-IsNamed : IsNamed page_round
unfolding file_name is_empty
page_round-IsNamed = (lit "answer", refl)

do_session-Done_example :
    (f : Flow) × (do_session host success success (page_round ∷ []) ≡ some f)
    × Done host success success (page_round ∷ []) f
do_session-Done_example =
    do_session-Done host success success (page_round ∷ []) (page_round-IsNamed, tt)

abbrev values : IniValues
values = record {
  host_address = lit "127.0.0.1";
  port_service = lit "8080";
  client_name = lit "client";
  version = lit "1.1";
  num_threads = lit "2";
  download_dir = lit "/tmp";
  targets = lit "a,b";
}

run_total_example : (c : ClientHttp) × (construct 8 values (pos 2) ≡ some c) × Runs c
run_total_example = run_total 8 values (pos 2)

-- The file is in the root directory, and the search starts two directories below.
abbrev file_system : FileSystem
file_system [] =
    record { filename = lit "home"; file_type = directory }
    ∷ record { filename = lit "a.ini"; file_type = regular }
    ∷ []
file_system (n ∷ d) = []

abbrev working_directory : Directory
working_directory = lit "user" ∷ lit "home" ∷ []

construct-Answers_example :
    Answers file_system
      (lit "a.ini")
      0
      working_directory
      (Search.construct file_system (lit "a.ini") working_directory)
construct-Answers_example = construct-Answers file_system (lit "a.ini") working_directory
