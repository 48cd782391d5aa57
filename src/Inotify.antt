-- ===== src/Inotify.antt =====
-- Inotify_module/src/inotify_module.cpp and include/inotify_module.h: the module that watches the
-- folder of songs. The kernel is an argument: what poll, ioctl and read give, and the events.
pub mod Table
pub mod Events
pub mod Errors
pub mod Race
pub mod Startup
use pet_project.Base.{
  ℕ, zero, suc, ◌/◌, ◌%◌, Bool, true, false, ◌&&◌, ◌||◌, Option, none, some, List, [], ◌∷◌, ◌++◌,
  ltb, ◌==◌, if◌then◌else◌,
}
use pet_project.Base.Text.{Text, lit}
use pet_project.Handler.Dir.{Entry, regular_names}

-- struct inotify_event: its mask and its name.
pub record InotifyEvent : Type 0 where
  pub mask : ℕ
  pub name : Text

-- mask & 2^k
abbrev pub in_moved_from : ℕ → Bool
in_moved_from mask = mask / 64 % 2 == 1

abbrev pub in_moved_to : ℕ → Bool
in_moved_to mask = mask / 128 % 2 == 1

abbrev pub in_create : ℕ → Bool
in_create mask = mask / 256 % 2 == 1

abbrev pub in_delete : ℕ → Bool
in_delete mask = mask / 512 % 2 == 1

abbrev pub in_delete_self : ℕ → Bool
in_delete_self mask = mask / 1024 % 2 == 1

abbrev pub in_move_self : ℕ → Bool
in_move_self mask = mask / 2048 % 2 == 1

-- The module's state. The three strings are its vector `arguments`; `handled` lists the vectors
-- that its handler was called with, in their order.
pub record Watcher : Type 0 where
  pub has_logger : Bool
  pub log : List Text
  pub if_success : Bool
  pub error_number : ℕ
  pub done : Bool
  pub folder : Text
  pub args_event : Text
  pub args_entity : Text
  pub handled : List (List Text)

-- if (logger) logger->make_record(…)
unfoldable pub make_record : Text → Watcher → Watcher
make_record message w = if w.has_logger then record w { log = w.log ++ message ∷ [] } else w

abbrev pub quoted : Text → Text
quoted name = b'\'' ∷ (name ++ b'\'' ∷ [])

-- arguments[ARGS_EVENT] = …; arguments[ARGS_ENTITY_NAME] = …; handler->handle(arguments);
unfoldable pub call_handler : Text → Text → Watcher → Watcher
call_handler event name w = record w {
  args_event = event;
  args_entity = quoted name;
  handled = w.handled ++ (w.folder ∷ event ∷ quoted name ∷ []) ∷ [];
}

-- A change of one name in the folder.
unfoldable pub file_event : Text → Text → Text → Watcher → Watcher
unfolding make_record call_handler
file_event event name what w = call_handler event name (make_record (name ++ what) w)

-- The folder itself was deleted or moved: it is forgotten, and watching ends.
unfoldable pub folder_event : Text → Text → Watcher → Watcher
unfolding make_record call_handler
folder_event name what w = record (call_handler (lit "dir_del") name (make_record what w)) {
  folder = [];
  done = true;
}

-- One round of the loop over the events.
unfoldable pub handle_event : InotifyEvent → Watcher → Watcher
unfolding file_event folder_event
handle_event e w =
    let cleared : Watcher = record w { args_event = []; args_entity = [] } in
    if in_create e.mask
    then file_event (lit "add") e.name (lit " file created") cleared
    else if in_delete e.mask
    then file_event (lit "delete") e.name (lit " file deleted") cleared
    else if in_moved_from e.mask
    then file_event (lit "delete") e.name (lit " file moved from songs folder") cleared
    else if in_moved_to e.mask
    then file_event (lit "add") e.name (lit " file moved to songs folder") cleared
    else if in_delete_self e.mask
    then folder_event e.name (lit "Songs folder was deleted") cleared
    else if in_move_self e.mask
    then folder_event e.name (lit "Songs folder was moved to another location") cleared
    else cleared

unfoldable pub handle_events : List InotifyEvent → Watcher → Watcher
unfolding handle_event
handle_events [] w = w
handle_events (e ∷ es) w = handle_events es (handle_event e w)

-- What read() gives: an error number, or events; EINTR is 4.
pub data Read : Type 0 where
  read_failed : ℕ → Read
  read_events : List InotifyEvent → Read

-- read_handle_event. It asks for the length of what is left and compares the result of ioctl, which
-- is 0 or -1, with 0: so it never reads again.
unfoldable pub read_handle_event : Read → Watcher → Watcher
unfolding handle_events
read_handle_event (read_failed errno) w =
    if errno == 4 then w else record w { error_number = errno }
read_handle_event (read_events es) w = handle_events es w

-- A round of watching(): poll timed out, failed, or ioctl failed, or there was something to read.
pub data Round : Type 0 where
  poll_timeout : Round
  poll_failed : ℕ → Round
  ioctl_failed : Round
  readable : Read → Round

-- The loop, over the rounds that the kernel gives until it returns or the rounds end.
unfoldable pub watching_from : List Round → Watcher → Watcher
unfolding read_handle_event
watching_from [] w = w
watching_from (poll_timeout ∷ rs) w = if w.done then w else watching_from rs w
watching_from (poll_failed errno ∷ rs) w = if w.done then w else record w { error_number = errno }
watching_from (ioctl_failed ∷ rs) w = if w.done then w else watching_from rs w
watching_from (readable r ∷ rs) w =
    let next = watching_from rs (read_handle_event r w) in if w.done then w else next

pub watching : List Round → Watcher → Watcher
unfolding watching_from
watching rs w = watching_from rs (record w { if_success = false; error_number = 0 })

-- if_no_error(error), with strerror as an argument
pub if_no_error : (ℕ → Text) → Watcher → Bool × Text
if_no_error strerror w = (
  w.if_success,
  if w.error_number == 0
      then lit "Error number is equal to zero, everything works properly"
      else strerror w.error_number,
)

-- The vector that refresh_file_list hands to the handler, for the entries of the folder.
unfoldable pub quote_all : List Text → List Text
quote_all [] = []
quote_all (n ∷ ns) = quoted n ∷ quote_all ns

pub refresh_file_list : List Entry → Watcher → Watcher
unfolding make_record quote_all
refresh_file_list es w =
    let started = make_record (lit "Refreshing files list started") w in
    let args : List Text = w.folder ∷ lit "refresh" ∷ quote_all (regular_names es) in
    make_record (lit "Refreshing files list completed")
      (record started { handled = started.handled ++ args ∷ [] })
