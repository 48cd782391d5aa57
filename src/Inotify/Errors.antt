-- ===== src/Inotify/Errors.antt =====
-- The flags that tell a caller whether watching works.
use pet_project.Base.{
  ◌≢◌, ◌⊎◌, ℕ, ◌≡◌, refl, false, List, [], ◌∷◌, arith, ◌==◌, Bool-cases, inl, inr, ◌∙◌,
}
use pet_project.Base.Text.{Text, lit}
use pet_project.Inotify.{
  InotifyEvent, Watcher, Read, read_failed, read_events, Round, poll_timeout, poll_failed,
  ioctl_failed, readable, make_record, file_event, folder_event, handle_event, handle_events,
  read_handle_event, watching_from, watching, if_no_error,
}

make_record_flags :
    (m : Text) (w : Watcher)
    → ((make_record m w).if_success ≡ w.if_success)
      × ((make_record m w).error_number ≡ w.error_number)
unfolding make_record
make_record_flags m w = ground arith

file_event_flags :
    (event name what : Text) (w : Watcher)
    → ((file_event event name what w).if_success ≡ w.if_success)
      × ((file_event event name what w).error_number ≡ w.error_number)
unfolding file_event
file_event_flags event name what w = make_record_flags _ w

folder_event_flags :
    (name what : Text) (w : Watcher)
    → ((folder_event name what w).if_success ≡ w.if_success)
      × ((folder_event name what w).error_number ≡ w.error_number)
unfolding folder_event
folder_event_flags name what w = make_record_flags _ w

handle_event_flags :
    (e : InotifyEvent) (w : Watcher)
    → ((handle_event e w).if_success ≡ w.if_success)
      × ((handle_event e w).error_number ≡ w.error_number)
unfolding handle_event
handle_event_flags e w =
    let c : Watcher = record w { args_event = []; args_entity = [] } in
    ground (
      arith,
      file_event_flags (lit "add") e.name (lit " file created") c,
      file_event_flags (lit "delete") e.name (lit " file deleted") c,
      file_event_flags (lit "delete") e.name (lit " file moved from songs folder") c,
      file_event_flags (lit "add") e.name (lit " file moved to songs folder") c,
      folder_event_flags e.name (lit "Songs folder was deleted") c,
      folder_event_flags e.name (lit "Songs folder was moved to another location") c,
    )

handle_events_flags :
    (es : List InotifyEvent) (w : Watcher)
    → ((handle_events es w).if_success ≡ w.if_success)
      × ((handle_events es w).error_number ≡ w.error_number)
unfolding handle_events
handle_events_flags [] w = (refl, refl)
handle_events_flags (e ∷ es) w = (
  (handle_events_flags es (handle_event e w)).0 ∙ (handle_event_flags e w).0,
  (handle_events_flags es (handle_event e w)).1 ∙ (handle_event_flags e w).1,
)

read_flags : (r : Read) (w : Watcher) → (read_handle_event r w).if_success ≡ w.if_success
unfolding read_handle_event
read_flags (read_failed errno) w = ground arith
read_flags (read_events es) w = (handle_events_flags es w).0

watching_from_flags :
    (rs : List Round) (w : Watcher) → (watching_from rs w).if_success ≡ w.if_success
unfolding watching_from
watching_from_flags [] w = refl
watching_from_flags (poll_timeout ∷ rs) w = ground (arith, watching_from_flags rs w)
watching_from_flags (poll_failed errno ∷ rs) w = ground arith
watching_from_flags (ioctl_failed ∷ rs) w = ground (arith, watching_from_flags rs w)
watching_from_flags (readable r ∷ rs) w =
    ground (arith, watching_from_flags rs (read_handle_event r w), read_flags r w)

-- Whatever happens while the folder is watched, if_no_error answers false from the start of watching
-- on; and either an error number is set, or the message says that everything works properly.
pub watching_reports_failure :
    (rs : List Round) (w : Watcher) (strerror : ℕ → Text)
    → ((if_no_error strerror (watching rs w)).0 ≡ false)
      × (((watching rs w).error_number ≢ 0)
          ⊎ ((if_no_error strerror (watching rs w)).1
              ≡ lit "Error number is equal to zero, everything works properly"))
unfolding watching if_no_error
watching_reports_failure rs w strerror = (
  watching_from_flags rs (record w { if_success = false; error_number = 0 }),
  elim (Bool-cases ((watching rs w).error_number == 0)) [
    | inl e ↦ inr (ground (arith, e))
    | inr e ↦ inl (ground (arith, e))
  ],
)
