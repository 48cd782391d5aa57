-- ===== src/Tests/Inotify.antt =====
-- Inotify_module and its handler at a folder of songs.
use pet_project.Base.{
  ℕ, ◌≡◌, refl, Bool, true, false, Option, none, some, List, [], ◌∷◌, ◌++◌, ◌==◌, ◌&&◌, not, ltb,
  append_assoc, if◌then◌else◌, arith, ◌∙◌, ap,
}
use pet_project.Base.Text.{Text, lit, text_eq, text_eq_iff}
use pet_project.Database.Pool.{Pool}
use pet_project.Database.Pool.Order.{ask_all}
use pet_project.Inotify.{Watcher, quoted, handle_events}
use pet_project.Inotify.Table.{holds, commands, execute_all, IsPlain, Executes}
use pet_project.Inotify.Events.{
  Happening, created, deleted, moved_in, events_of, folder_after, handle_events_tracks,
}
use pet_project.Inotify.Race.{calls_of, deleted_song_stays}

-- A database that reads the name between the apostrophes behind the start of a command.
abbrev strip : Text → Text → Option Text
strip [] s = some s
strip (c ∷ p) [] = none
strip (c ∷ p) (d ∷ s) = if c == d then strip p s else none

strip-append : (p s : Text) → strip p (p ++ s) ≡ some s
strip-append [] s = refl
strip-append (c ∷ p) s = ground (arith, strip-append p s)

abbrev until_apostrophe : Text → Text
until_apostrophe [] = []
until_apostrophe (c ∷ s) = if c == b'\'' then [] else c ∷ until_apostrophe s

until_apostrophe-append : (n s : Text) → IsPlain n → until_apostrophe (n ++ b'\'' ∷ s) ≡ n
until_apostrophe-append [] s p = refl
until_apostrophe-append (c ∷ n) s ((_, _, q, _), p) =
    ground (arith, q, until_apostrophe-append n s p)

abbrev insert_start : Text
insert_start =
    lit
      "LOCK TABLE song_table IN ACCESS EXCLUSIVE MODE; INSERT INTO song_table (id, song_name, song_uid, song_URL) VALUES (DEFAULT, "

abbrev delete_start : Text
delete_start =
    lit "LOCK TABLE song_table IN ACCESS EXCLUSIVE MODE; DELETE FROM song_table WHERE song_name = "

abbrev without : Text → List Text → List Text
without n [] = []
without n (m ∷ rows) = if text_eq n m then without n rows else m ∷ without n rows

holds-without :
    (n m : Text) (rows : List Text)
    → holds (without n rows) m ≡ (if text_eq n m then false else holds rows m)
holds-without n m [] = ground arith
holds-without n m (k ∷ rows) =
    ground (arith, holds-without n m rows, text_eq_iff n m, text_eq_iff n k, text_eq_iff k m)

-- The text behind the first byte, which is an apostrophe.
abbrev name_in : Text → Text
name_in [] = []
name_in (c ∷ s) = until_apostrophe s

abbrev executed : Option Text → Option Text → List Text → List Text
executed (some s) _ rows = name_in s ∷ rows
executed none (some s) rows = without (name_in s) rows
executed none none rows = rows

abbrev execute : Text → List Text → List Text
execute c rows = executed (strip insert_start c) (strip delete_start c) rows

delete_is_no_insert : (s : Text) → strip insert_start (delete_start ++ s) ≡ none
unfolding lit
delete_is_no_insert s = refl

name_in-quoted : (n s : Text) → IsPlain n → name_in (quoted n ++ s) ≡ n
name_in-quoted n s p =
    ap until_apostrophe (append_assoc n (b'\'' ∷ []) s) ∙ until_apostrophe-append n s p

execute-insert : (s : Text) (rows : List Text) → execute (insert_start ++ s) rows ≡ name_in s ∷ rows
execute-insert s rows =
    ap (λ o. executed o (strip delete_start (insert_start ++ s)) rows) (strip-append insert_start s)

execute-delete :
    (s : Text) (rows : List Text) → execute (delete_start ++ s) rows ≡ without (name_in s) rows
execute-delete s rows =
    ap (λ o. executed o (strip delete_start (delete_start ++ s)) rows) (delete_is_no_insert s)
    ∙ ap (λ o. executed none o rows) (strip-append delete_start s)

abbrev no_hash : Text → ℕ
no_hash n = 7

execute-Executes : Executes no_hash execute
execute-Executes = record {
  inserts = λ folder name rows m f p.
      ap (λ us. holds us m) (execute-insert _ rows ∙ ap (λ k. k ∷ rows) (name_in-quoted name _ p));
  deletes = λ name rows m p.
      ap (λ us. holds us m)
        (execute-delete _ rows ∙ ap (λ k. without k rows) (name_in-quoted name _ p))
      ∙ holds-without name m rows;
}

abbrev watcher : Watcher
watcher = record {
  has_logger = true;
  log = [];
  if_success = false;
  error_number = 0;
  done = false;
  folder = lit "/srv/songs";
  args_event = [];
  args_entity = [];
  handled = [];
}

abbrev song : Text
song = lit "a.mp3"

abbrev other_song : Text
other_song = lit "b.mp3"

abbrev happenings : List Happening
happenings = created 0 song ∷ moved_in 0 other_song ∷ deleted 0 song ∷ []

abbrev no_file : Text → Bool
no_file n = false

-- The same, as a test.
abbrev is_plain : Text → Bool
is_plain [] = true
is_plain (c ∷ t) =
    if ltb c 32
    then false
    else if ltb c 127
    then not (c == b'\'') && not (c == b'\\') && is_plain t
    else false

is_plain-IsPlain : (t : Text) → is_plain t ≡ true → IsPlain t
is_plain-IsPlain [] e = tt
is_plain-IsPlain (c ∷ t) e = (
  (ground arith, ground arith, λ q. ground arith, λ q. ground arith),
  is_plain-IsPlain t (ground arith),
)

song-IsPlain : IsPlain song
unfolding lit
song-IsPlain = is_plain-IsPlain song refl

other_song-IsPlain : IsPlain other_song
unfolding lit
other_song-IsPlain = is_plain-IsPlain other_song refl

folder-IsPlain : IsPlain watcher.folder
unfolding lit
folder-IsPlain = is_plain-IsPlain watcher.folder refl

no_command : commands no_hash true [] ≡ some []
unfolding commands
no_command = refl

no_row : (m : Text) → holds (execute_all execute [] []) m ≡ no_file m
unfolding execute_all
no_row m = refl

handle_events_tracks_example :
    (later : List Text) × (commands no_hash true
        (handle_events (events_of happenings) watcher).handled
      ≡ some later)
    × ((m : Text) → holds (execute_all execute later []) m ≡ folder_after happenings no_file m)
handle_events_tracks_example =
    handle_events_tracks no_hash true execute happenings watcher [] [] no_file execute-Executes
      folder-IsPlain (song-IsPlain, (other_song-IsPlain, (song-IsPlain, tt))) no_command
      (λ m. no_row m)

abbrev quiet_pool : Pool
quiet_pool = record {
  conns_deque = 1 ∷ [];
  task_deque = [];
  workers = [];
  done = false;
  finished = [];
  lost = [];
}

deleted_song_stays_example :
    (folder_after (created 0 song ∷ deleted 0 song ∷ []) no_file song ≡ false)
    × (cs : List Text) × (commands no_hash true (
          calls_of
            (handle_events (events_of (created 0 song ∷ deleted 0 song ∷ [])) watcher).handled
            (ask_all true (0 ∷ 1 ∷ []) quiet_pool).task_deque)
        ≡ some cs)
    × (holds (execute_all execute cs []) song ≡ true)
deleted_song_stays_example =
    deleted_song_stays no_hash true execute song watcher quiet_pool [] no_file execute-Executes
      folder-IsPlain song-IsPlain refl refl
