-- ===== src/Inotify/Race.antt =====
-- The table of songs when the commands of two events wait together: handler.cpp asks for each at the
-- front of the task queue.
use pet_project.Base.{
  ℕ, ◌≡◌, refl, ap, ◌∙◌, List, [], ◌∷◌, ◌++◌, Bool, true, false, get_elem?, some, none,
}
use pet_project.Base.Text.{Text}
use pet_project.Database.Pool.{Pool}
use pet_project.Database.Pool.Order.{ask_all, ask_all-task_deque}
use pet_project.Handler.Inotify.{add_event, delete_event, insert_song, delete_song}
use pet_project.Inotify.{Watcher, quoted, handle_event, handle_events}
use pet_project.Inotify.Table.{holds, commands, execute_all, IsPlain, Executes}
use pet_project.Inotify.Events.{
  created, deleted, event_of, events_of, folder_after, text_eq_refl, handle_event_handled,
  file_call, handle_add, handle_delete,
}

-- The calls that the tasks stand for, in the order of the tasks: task `k` is the call with number `k`.
abbrev pub calls_of : List (List Text) → List ℕ → List (List Text)
calls_of handled [] = []
calls_of handled (k ∷ ks) = elim (get_elem? handled k) [
  | none ↦ calls_of handled ks
  | some c ↦ c ∷ calls_of handled ks
]

two_handled :
    (n : Text) (w : Watcher)
    → w.handled ≡ []
    → (handle_events (events_of (created 0 n ∷ deleted 0 n ∷ [])) w).handled
      ≡ file_call w.folder add_event n
        ∷ file_call (handle_event (event_of (created 0 n)) w).folder delete_event n
        ∷ []
unfolding handle_events
two_handled n w h =
    handle_event_handled (deleted 0 n) (handle_event (event_of (created 0 n)) w)
    ∙ ap
        (λ cs. cs ++ file_call (handle_event (event_of (created 0 n)) w).folder delete_event n ∷ [])
        (handle_event_handled (created 0 n) w
          ∙ ap (λ cs. cs ++ file_call w.folder add_event n ∷ []) h)

two_commands :
    (hash : Text → ℕ) (truncated : Bool) (n folder later : Text)
    → commands hash truncated (file_call later delete_event n ∷ file_call folder add_event n ∷ [])
      ≡ some (delete_song (quoted n) ∷ insert_song hash folder (quoted n) ∷ [])
unfolding commands
two_commands hash truncated n folder later =
    rw (handle_delete hash truncated later n, handle_add hash truncated folder n) refl

added_last :
    (hash : Text → ℕ) (execute : Text → List Text → List Text) (n folder : Text) (rows : List Text)
    → Executes hash execute
    → IsPlain folder
    → IsPlain n
    → holds
        (execute_all execute
          (delete_song (quoted n) ∷ insert_song hash folder (quoted n) ∷ [])
          rows)
        n
      ≡ true
unfolding execute_all
added_last hash execute n folder rows s f p =
    s.inserts folder n (execute (delete_song (quoted n)) rows) n f p ∙ rw (text_eq_refl n) refl

-- A file with a plain name, in a folder with a plain path, that is created and then deleted before a
-- worker takes a task, with no other call made and no other task queued: the folder does not hold its
-- name, and when the database has carried out the commands of the two tasks, in the order of the queue,
-- the table does, whatever it was before.
pub deleted_song_stays :
    (hash : Text → ℕ) (truncated : Bool) (execute : Text → List Text → List Text) (n : Text)
    (w : Watcher) (s : Pool) (rows : List Text) (dir : Text → Bool)
    → Executes hash execute
    → IsPlain w.folder
    → IsPlain n
    → w.handled ≡ []
    → s.task_deque ≡ []
    → (folder_after (created 0 n ∷ deleted 0 n ∷ []) dir n ≡ false)
      × (cs : List Text) × (commands hash truncated (
            calls_of
              (handle_events (events_of (created 0 n ∷ deleted 0 n ∷ [])) w).handled
              (ask_all true (0 ∷ 1 ∷ []) s).task_deque)
          ≡ some cs)
      × (holds (execute_all execute cs rows) n ≡ true)
deleted_song_stays hash truncated execute n w s rows dir e f p hw hs = (
  rw (text_eq_refl n) refl,
  delete_song (quoted n) ∷ insert_song hash w.folder (quoted n) ∷ [],
  rw (two_handled n w hw, (ask_all-task_deque (0 ∷ 1 ∷ []) s).1, hs)
      (two_commands hash truncated n w.folder _),
  added_last hash execute n w.folder rows e f p,
)
