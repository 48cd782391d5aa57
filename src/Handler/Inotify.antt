-- ===== src/Handler/Inotify.antt =====
-- Handler/src/handler.cpp, class Inotify_DB_handler: what it asks of the database for a vector of
-- arguments (the folder, the event, names). Every command goes to the front of the task queue.
-- `none` is an index behind the vector. `hash` is std::hash, and `truncated` tells whether the
-- database emptied the table when a refresh asked for it, which is the one answer that is waited for.
pub mod Refresh
use pet_project.Base.{
  ℕ, zero, suc, Bool, true, false, Option, none, some, List, [], ◌∷◌, ◌++◌, get_elem?, map,
  if◌then◌else◌, ◌>>=◌,
}
use pet_project.Base.Text.{Text, lit, text_eq}
use pet_project.Base.Decimal.{to_string}
use pet_project.Database.Result.{PgResult, res_error}

abbrev pub add_event : Text
add_event = lit "add"

abbrev pub delete_event : Text
delete_event = lit "delete"

abbrev pub dir_del_event : Text
dir_del_event = lit "dir_del"

abbrev pub refresh_event : Text
refresh_event = lit "refresh"

-- What the task that exec_command pushes into the thread pool of the handler, and a refresh, write to
-- std::cerr for the result of a command.
unfoldable pub report_of : Text → PgResult → Option Text
unfolding res_error
report_of command res =
    if res.success
    then none
    else some (
        lit "Database "
        ++ (res.db_name
            ++ (lit " error: "
                ++ (res_error res ++ (lit ", executing: " ++ (command ++ lit " query\n"))))))

abbrev pub insert_song : (Text → ℕ) → Text → Text → Text
insert_song hash folder name =
    lit
      "LOCK TABLE song_table IN ACCESS EXCLUSIVE MODE; INSERT INTO song_table (id, song_name, song_uid, song_URL) VALUES (DEFAULT, "
    ++ (name ++ (lit ", '" ++ (to_string (hash name) ++ (lit "', '" ++ (folder ++ lit "')")))))

abbrev pub delete_song : Text → Text
delete_song name =
    lit "LOCK TABLE song_table IN ACCESS EXCLUSIVE MODE; DELETE FROM song_table WHERE song_name = "
    ++ (name ++ lit "; ALTER SEQUENCE song_seq RESTART; UPDATE song_table SET ID = DEFAULT")

abbrev pub forget_songs : Text
forget_songs =
    lit
      "LOCK TABLE song_table IN ACCESS EXCLUSIVE MODE; TRUNCATE song_table RESTART IDENTITY; ALTER SEQUENCE song_seq RESTART; UPDATE song_table SET ID = DEFAULT"

abbrev pub truncate_songs : Text
truncate_songs =
    lit
      "LOCK TABLE song_table IN ACCESS EXCLUSIVE MODE; TRUNCATE song_table RESTART IDENTITY; ALTER SEQUENCE song_seq RESTART"

-- The loop `for (i = 2; i != amount; ++i)`, each round of which handles {folder, "add", name}.
unfoldable pub add_all : (Text → ℕ) → Text → List Text → List Text
add_all hash folder [] = []
add_all hash folder (name ∷ names) = insert_song hash folder name ∷ add_all hash folder names

-- The arguments from ARGS_ENTITY_NAME on.
abbrev pub names_of : List Text → List Text
names_of (folder ∷ event ∷ names) = names
names_of _ = []

-- What is returned, and the commands in the order of their calls.
unfoldable pub handle : (Text → ℕ) → Bool → List Text → Option (Bool × List Text)
unfolding add_all
handle hash truncated args = do
  event ← get_elem? args 1
  folder ← get_elem? args 0
  let added = (do name ← get_elem? args 2; some (true, insert_song hash folder name ∷ []))
  let deleted = (do name ← get_elem? args 2; some (true, delete_song name ∷ []))
  let refreshed = some (true, truncate_songs ∷ add_all hash folder (names_of args))
  if text_eq event add_event
      then added
      else (if text_eq event delete_event
          then deleted
          else (if text_eq event dir_del_event
              then some (true, forget_songs ∷ [])
              else (if text_eq event refresh_event
                  then (if truncated then refreshed else some (false, truncate_songs ∷ []))
                  else some (false, []))))
