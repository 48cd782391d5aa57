-- ===== src/Inotify/Events.antt =====
-- The folder and the table of songs, event by event.
use pet_project.Base.{
  ℕ, ◌+◌, ◌*◌, ◌≡◌, refl, Bool, true, false, ◌||◌, some, List, [], ◌∷◌, ◌++◌, All, arith,
  if◌then◌else◌, sym, ◌∙◌, ap, subst,
}
use pet_project.Base.Text.{Text, lit, text_eq, text_eq_iff}
use pet_project.Handler.Inotify.{add_event, delete_event, insert_song, delete_song, handle}
use pet_project.Inotify.Table.{
  holds, commands, commands-append, execute_all, execute_all-append, IsPlain, Executes,
}
use pet_project.Inotify.{
  InotifyEvent, Watcher, quoted, make_record, call_handler, file_event, handle_event, handle_events,
}

-- What happens to a name in the folder; IN_ISDIR is set when `dirs` is 1.
pub data Happening : Type 0 where
  created deleted moved_out moved_in : ℕ → Text → Happening

-- The kernel's event for it.
abbrev pub event_of : Happening → InotifyEvent
event_of (created dirs n) = record { mask = 256 + 1073741824 * dirs; name = n }
event_of (deleted dirs n) = record { mask = 512 + 1073741824 * dirs; name = n }
event_of (moved_out dirs n) = record { mask = 64 + 1073741824 * dirs; name = n }
event_of (moved_in dirs n) = record { mask = 128 + 1073741824 * dirs; name = n }

abbrev pub events_of : List Happening → List InotifyEvent
events_of [] = []
events_of (x ∷ xs) = event_of x ∷ events_of xs

-- Which names the folder holds afterwards.
abbrev pub folder_after : List Happening → (Text → Bool) → Text → Bool
folder_after [] dir m = dir m
folder_after (created _ n ∷ xs) dir m = folder_after xs (λ k. text_eq n k || dir k) m
folder_after (moved_in _ n ∷ xs) dir m = folder_after xs (λ k. text_eq n k || dir k) m
folder_after (deleted _ n ∷ xs) dir m =
    folder_after xs (λ k. if text_eq n k then false else dir k) m
folder_after (moved_out _ n ∷ xs) dir m =
    folder_after xs (λ k. if text_eq n k then false else dir k) m

delete_is_not_add : text_eq delete_event add_event ≡ false
unfolding text_eq lit
delete_is_not_add = refl

pub text_eq_refl : (s : Text) → text_eq s s ≡ true
text_eq_refl s = (text_eq_iff s s).1 refl

abbrev pub file_call : Text → Text → Text → List Text
file_call folder event name = folder ∷ event ∷ quoted name ∷ []

file_event_handled :
    (event name what : Text) (w : Watcher)
    → ((file_event event name what w).handled ≡ w.handled ++ file_call w.folder event name ∷ [])
      × ((file_event event name what w).folder ≡ w.folder)
unfolding file_event
file_event_handled event name what w = ground arith

abbrev pub name_of : Happening → Text
name_of (created _ n) = n
name_of (deleted _ n) = n
name_of (moved_out _ n) = n
name_of (moved_in _ n) = n

-- The event that the handler is told of.
abbrev pub told : Happening → Text
told (created _ n) = add_event
told (deleted _ n) = delete_event
told (moved_out _ n) = delete_event
told (moved_in _ n) = add_event

pub handle_event_handled :
    (x : Happening) (w : Watcher)
    → (handle_event (event_of x) w).handled
      ≡ w.handled ++ file_call w.folder (told x) (name_of x) ∷ []
unfolding handle_event
handle_event_handled (created d n) w = ground (
  arith,
  file_event_handled add_event n (lit " file created")
      (record w { args_event = []; args_entity = [] }),
)
handle_event_handled (deleted d n) w = ground (
  arith,
  file_event_handled delete_event n (lit " file deleted")
      (record w { args_event = []; args_entity = [] }),
)
handle_event_handled (moved_out d n) w = ground (
  arith,
  file_event_handled delete_event n (lit " file moved from songs folder")
      (record w { args_event = []; args_entity = [] }),
)
handle_event_handled (moved_in d n) w = ground (
  arith,
  file_event_handled add_event n (lit " file moved to songs folder")
      (record w { args_event = []; args_entity = [] }),
)

handle_event-folder :
    (x : Happening) (w : Watcher) → (handle_event (event_of x) w).folder ≡ w.folder
unfolding handle_event file_event call_handler make_record
handle_event-folder (created d n) w = ground arith
handle_event-folder (deleted d n) w = ground arith
handle_event-folder (moved_out d n) w = ground arith
handle_event-folder (moved_in d n) w = ground arith

module _ (hash : Text → ℕ) (truncated : Bool) where
  pub handle_add :
      (folder name : Text)
      → handle hash truncated (file_call folder add_event name)
        ≡ some (true, insert_song hash folder (quoted name) ∷ [])
  unfolding handle
  handle_add folder name = rw (text_eq_refl add_event) refl

  pub handle_delete :
      (folder name : Text)
      → handle hash truncated (file_call folder delete_event name)
        ≡ some (true, delete_song (quoted name) ∷ [])
  unfolding handle
  handle_delete folder name = rw (delete_is_not_add, text_eq_refl delete_event) refl

  -- The command for a change of the folder.
  command : Text → Happening → Text
  command folder (created _ n) = insert_song hash folder (quoted n)
  command folder (deleted _ n) = delete_song (quoted n)
  command folder (moved_out _ n) = delete_song (quoted n)
  command folder (moved_in _ n) = insert_song hash folder (quoted n)

  handle-command :
      (folder : Text) (x : Happening)
      → handle hash truncated (file_call folder (told x) (name_of x))
        ≡ some (true, command folder x ∷ [])
  unfolding command
  handle-command folder (created _ n) = handle_add folder n
  handle-command folder (deleted _ n) = handle_delete folder n
  handle-command folder (moved_out _ n) = handle_delete folder n
  handle-command folder (moved_in _ n) = handle_add folder n

  holds-command :
      (execute : Text → List Text → List Text) (folder : Text) (x : Happening) (rows : List Text)
      (dir : Text → Bool) (m : Text)
      → Executes hash execute
      → IsPlain folder
      → IsPlain (name_of x)
      → holds rows m ≡ dir m
      → holds (execute (command folder x) rows) m ≡ folder_after (x ∷ []) dir m
  unfolding command
  holds-command execute folder (created _ n) rows dir m s f p h =
      s.inserts folder n rows m f p ∙ rw h refl
  holds-command execute folder (moved_in _ n) rows dir m s f p h =
      s.inserts folder n rows m f p ∙ rw h refl
  holds-command execute folder (deleted _ n) rows dir m s f p h = s.deletes n rows m p ∙ rw h refl
  holds-command execute folder (moved_out _ n) rows dir m s f p h = s.deletes n rows m p ∙ rw h refl

folder_after_step :
    (x : Happening) (xs : List Happening) (dir : Text → Bool) (m : Text)
    → folder_after (x ∷ xs) dir m ≡ folder_after xs (folder_after (x ∷ []) dir) m
folder_after_step (created d n) xs dir m = refl
folder_after_step (moved_in d n) xs dir m = refl
folder_after_step (deleted d n) xs dir m = refl
folder_after_step (moved_out d n) xs dir m = refl

-- For every sequence of files (and directories) created, deleted, moved in and moved out, with names
-- that are plain, in a folder with a plain path: if the commands that the handler has made of its calls
-- make the table hold exactly the names in the folder, then so do they, with those for the new events,
-- for the folder afterwards. The database carries out each command, in the order in which they are
-- made.
pub handle_events_tracks :
    (hash : Text → ℕ) (truncated : Bool) (execute : Text → List Text → List Text)
    (xs : List Happening) (w : Watcher) (rows cs : List Text) (dir : Text → Bool)
    → Executes hash execute
    → IsPlain w.folder
    → All (λ x. IsPlain (name_of x)) xs
    → commands hash truncated w.handled ≡ some cs
    → ((m : Text) → holds (execute_all execute cs rows) m ≡ dir m)
    → (later : List Text) × (commands hash truncated (handle_events (events_of xs) w).handled
        ≡ some later)
      × ((m : Text) → holds (execute_all execute later rows) m ≡ folder_after xs dir m)
unfolding handle_events
handle_events_tracks hash truncated execute [] w rows cs dir s f p c h = (cs, c, h)
handle_events_tracks hash truncated execute (x ∷ xs) w rows cs dir s f p c h =
    let command_x = command hash truncated w.folder x in
    let handled =
      ap (commands hash truncated) (handle_event_handled x w)
      ∙ commands-append hash truncated w.handled _ cs (command_x ∷ []) true c
          (handle-command hash truncated w.folder x) in
    let (later, q, k) =
      handle_events_tracks hash truncated execute xs (handle_event (event_of x) w) rows
        (cs ++ command_x ∷ []) (folder_after (x ∷ []) dir) s
        (subst IsPlain (sym (handle_event-folder x w)) f) p.1 handled
        (λ m.
          ap (λ us. holds us m) (execute_all-append execute cs command_x rows)
          ∙ holds-command hash truncated execute w.folder x (execute_all execute cs rows) dir m s f
              p.0 (h m)) in
    (later, q, λ m. k m ∙ sym (folder_after_step x xs dir m))
