-- ===== src/Inotify/Startup.antt =====
-- Inotify_module/src/inotify_module.cpp: the constructors, create_inotify, set_folder and the
-- destructor. The kernel, the folders that exist and the user's answers are arguments.
pub mod Opened
use pet_project.Base.{
  ℕ, Bool, true, false, ◌&&◌, Option, none, some, List, [], ◌∷◌, ◌++◌, if◌then◌else◌, ◌>>=◌,
}
use pet_project.Base.Text.{Text, lit}
use pet_project.Logger.Dialogue.{Input, create_dir_if_not_exist}
use pet_project.Inotify.{Watcher, make_record}

-- A system call gives a descriptor, or -1 with errno.
pub data SysResult : Type 0 where
  gives fails : ℕ → SysResult

-- fs::exists, what create_directories returns, the user's answers, and the two calls of inotify.
pub record Surroundings : Type 0 where
  pub exists : Text → Bool
  pub created : Bool
  pub inputs : List Input
  pub inotify_init : SysResult
  pub inotify_add_watch : Text → SysResult

-- The module with its descriptors; `none` is -1.
pub record Module : Type 0 where
  pub watcher : Watcher
  pub fd : Option ℕ
  pub wd : Option ℕ

-- The members' initial values, and arguments[FILES_FOLDER]
abbrev pub new_module : Text → Module
new_module folder = record {
  watcher = record {
    has_logger = false;
    log = [];
    if_success = false;
    error_number = 0;
    done = false;
    folder = folder;
    args_event = [];
    args_entity = [];
    handled = [];
  };
  fd = none;
  wd = none;
}

abbrev failed : ℕ → Module → Module
failed errno m = record m { watcher = record m.watcher { error_number = errno } }

-- create_inotify, up to the records of the log
unfoldable pub open_inotify : Surroundings → Module → Module
open_inotify e m = elim e.inotify_init [
  | fails errno ↦ failed errno (record m { fd = none })
  | gives fd ↦ elim (e.inotify_add_watch m.watcher.folder) [
    | fails errno ↦ failed errno (record m { fd = some fd; wd = none })
    | gives wd ↦ record m {
      fd = some fd;
      wd = some wd;
      watcher = record m.watcher { if_success = true };
    }
  ]
]

abbrev pub log_record : Text → Module → Module
log_record message m = record m { watcher = make_record message m.watcher }

-- "Inotify started" needs a logger too, but without one nothing is logged at all.
unfoldable pub create_inotify : Surroundings → Module → Module
unfolding open_inotify make_record
create_inotify e m =
    let opened = open_inotify e m in
    if opened.watcher.if_success && opened.watcher.has_logger
    then log_record (lit "Inotify started") opened
    else log_record (lit "Inotify failed to start") opened

-- create_dir_if_not_exist, for arguments[FILES_FOLDER]; `none` is a dialogue that has not ended.
unfoldable pub folder_is_there : Surroundings → Module → Option Bool
unfolding create_dir_if_not_exist
folder_is_there e m =
    if e.exists m.watcher.folder then some true else create_dir_if_not_exist e.created e.inputs

-- A logger that has not started is let go.
abbrev pub with_logger : Bool → Module → Module
with_logger started m = record m { watcher = record m.watcher { has_logger = started } }

-- Inotify_module(files_folder, logs_folder): the flag is whether the logger has started.
unfoldable pub construct : Surroundings → Text → Bool → Option Module
unfolding folder_is_there create_inotify
construct e folder logger_started = do
  there ← folder_is_there e (new_module folder)
  some (
      if there
      then create_inotify e (with_logger logger_started (new_module folder))
      else new_module folder)

-- Inotify_module(files_folder, logger)
unfoldable pub construct_with : Surroundings → Text → Bool → Module
unfolding create_inotify
construct_with e folder logger_started =
    create_inotify e (with_logger logger_started (new_module folder))

-- set_folder(folder, add_logger): it asks for the folder that was set before. A logger that it makes is
-- kept, also if it has not started.
unfoldable pub set_folder : Surroundings → Text → Bool → Module → Option Module
unfolding folder_is_there create_inotify
set_folder e folder add_logger m = do
  there ← folder_is_there e m
  let moved = record m { watcher = record m.watcher { folder = folder } }
  some
      (if there then create_inotify e (if add_logger then with_logger true moved else moved) else m)

pub data Call : Type 0 where
  inotify_rm_watch : ℕ → ℕ → Call
  close : ℕ → Call

-- ~Inotify_module: the system calls that it makes, and the module with its last record.
unfoldable pub destruct : Module → List Call × Module
unfolding make_record
destruct m =
    let stopped =
      log_record (lit "Inotify stopped")
        (record m { watcher = record m.watcher { done = true } }) in
    (
      elim m.fd [
        | none ↦ []
        | some fd ↦ elim m.wd [
          | none ↦ close fd ∷ []
          | some wd ↦ inotify_rm_watch fd wd ∷ close fd ∷ []
        ]
      ],
      stopped,
    )
