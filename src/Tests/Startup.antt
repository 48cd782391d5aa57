-- ===== src/Tests/Startup.antt =====
-- The start and the end of DB_module, Inotify_module, Server_HTTP and Logger, and the pools as a
-- service.
use pet_project.Base.{
  ℕ, suc, ◌≡◌, ◌↔◌, refl, Bool, true, false, none, some, List, [], ◌∷◌, ◌++◌, ◌||◌, All,
  if◌then◌else◌,
}
use pet_project.Base.Text.{lit}
use pet_project.Database.Pool.{idle, Pool, Step, asked, exec_command, Reach}
use pet_project.Database.Startup.{ConnInfo, by_conninfo, DbModule}
use pet_project.Database.Startup as Db
use pet_project.Database.Startup.{connection_pool, starting_threads}
use pet_project.Database.Startup.Working.{construct-CanFinish}
use pet_project.Database.Startup.Unreached.{made, construct-made}
use pet_project.Database.Connect.{make_connections, connections_from, attempts}
use pet_project.Database.Pool.Progress.{CanFinish}
use pet_project.Database.Pool.{here, next}
use pet_project.Base.{arith}
use pet_project.Database.Startup.Unreached.{construct-IsUnreachable}
use pet_project.Database.Shutdown as Shutdown
use pet_project.Database.Shutdown.{Worker, blocked, joining, ThreadPool, new_pool}
use pet_project.Database.Shutdown.LostWakeup.{destructor_hangs}
use pet_project.Logger.Dialogue.{
  nothing_read, char_read, create_dir_if_not_exist, IsUndecided, create_dir_if_not_exist-none,
}
use pet_project.Inotify.Startup as Inotify
use pet_project.Inotify.Startup.{
  SysResult, gives, fails, Module, construct_with, new_module, set_folder, destruct,
}
use pet_project.Inotify.Startup.Opened.{
  closing, has_started, record_of, construct_with-Opened, set_folder_success,
}
use pet_project.Server.Startup.{Helpers, Endpoint, listener, Output}
use pet_project.Server.Startup.Listening.{acceptor_of, Says, with_logger, listener-acceptor_of}

abbrev pool : Pool
pool = record {
  conns_deque = 1 ∷ [];
  task_deque = 6 ∷ [];
  workers = idle ∷ [];
  done = false;
  finished = [];
  lost = [];
}

abbrev asked_pool : Pool
asked_pool = record pool { task_deque = 6 ∷ 7 ∷ [] }

abbrev always : ℕ → ℕ → ℕ × Bool
always i j = (i, true)

abbrev connected : DbModule
connected = made 1 (by_conninfo false) always (λ i. true)

one_connection : connected.conns_established ≡ 1
unfolding connection_pool make_connections connections_from attempts
one_connection = refl

one_thread : connected.threads_started ≡ 1
unfolding starting_threads
one_thread = refl

-- The first command has been asked for.
abbrev with_command : Pool
with_command = record connected.pool { task_deque = 7 ∷ [] }

first-Step : Step connected.pool with_command
unfolding exec_command
first-Step = asked 7 true refl

construct-CanFinish_example : CanFinish with_command
construct-CanFinish_example =
    construct-CanFinish 1 (by_conninfo false) always (λ i. true) connected with_command
      (construct-made 1 (by_conninfo false) always (λ i. true)) (omega (arith, one_connection))
      (omega (arith, one_thread)) (next here first-Step) refl refl

abbrev never : ℕ → ℕ → ℕ × Bool
never i j = (i, false)

construct-IsUnreachable_example :
    (m : DbModule) × (Db.construct 4 (by_conninfo false) never (λ i. true) ≡ some m)
    × (m.conns_established ≡ 0)
    × ((s : Pool) → Reach m.pool s → s.finished ≡ [])
construct-IsUnreachable_example =
    construct-IsUnreachable 4 (by_conninfo false) never (λ i. true) (λ i j. refl)

destructor_hangs_example :
    (s : ThreadPool) × Shutdown.Reach (new_pool (suc 3)) s
    × ((t : ThreadPool)
        → Shutdown.Reach s t
        → (t.destructor ≡ joining) × ((ws : List Worker) × (t.workers ≡ blocked ∷ ws)))
destructor_hangs_example = destructor_hangs 3

create_dir_if_not_exist-none_example :
    (create_dir_if_not_exist true (nothing_read ∷ char_read b'q' false ∷ []) ≡ none)
    ↔ All IsUndecided (nothing_read ∷ char_read b'q' false ∷ [])
create_dir_if_not_exist-none_example =
    create_dir_if_not_exist-none true (nothing_read ∷ char_read b'q' false ∷ [])

-- The folder cannot be watched.
abbrev unwatched : Inotify.Surroundings
unwatched = record {
  exists = λ folder. true;
  created = false;
  inputs = [];
  inotify_init = gives 3;
  inotify_add_watch = λ folder. fails 2;
}

construct_with-Opened_example :
    let m = construct_with unwatched (lit "/srv/songs") true in
    let started = has_started (gives 3) (fails 2) in
    (m.watcher.if_success ≡ started)
    × (m.watcher.log ≡ (if true then record_of started ∷ [] else []))
    × ((destruct m).0 ≡ closing (gives 3) (fails 2))
construct_with-Opened_example = construct_with-Opened unwatched (lit "/srv/songs") true

abbrev working : Module
working = record {
  watcher = record (new_module (lit "/srv/songs")).watcher { has_logger = true; if_success = true };
  fd = some 3;
  wd = some 1;
}

set_folder_success_example :
    (m' : Module) × (set_folder unwatched (lit "/srv/more") false working ≡ some m')
    × (m'.watcher.folder ≡ lit "/srv/more")
    × (m'.watcher.if_success ≡ true)
    × (m'.watcher.log ≡ (
        if false || working.watcher.has_logger
        then working.watcher.log ++ lit "Inotify started" ∷ []
        else working.watcher.log))
    × ((fd : ℕ) → gives 3 ≡ gives fd → (destruct m').0 ≡ closing (gives 3) (fails 2))
set_folder_success_example = set_folder_success unwatched (lit "/srv/more") false working refl refl

abbrev helper_classes : Helpers
helper_classes = record {
  server_name = lit "server";
  logger = false;
  if_fail = none;
  mime_type = true;
  handler = none;
}

abbrev local_end : Endpoint
local_end = record {
  address = lit "127.0.0.1";
  port = lit "8080";
  address_ec = none;
  open_ec = none;
  option_ec = none;
  bind_ec = none;
  listen_ec = some (lit "Address already in use");
}

abbrev silent : Output
silent = record { log = []; reports = [] }

listener-acceptor_of_example :
    (p : Output) × (listener (with_logger helper_classes) local_end silent
      ≡ some (acceptor_of local_end, p))
    × Says helper_classes local_end silent p
listener-acceptor_of_example = listener-acceptor_of helper_classes local_end silent
