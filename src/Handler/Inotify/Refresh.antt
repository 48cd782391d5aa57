-- ===== src/Handler/Inotify/Refresh.antt =====
-- Inotify_DB_handler::handle for the event "refresh".
use pet_project.Base.{ℕ, ◌≡◌, ◌≢◌, refl, true, false, some, List, [], ◌∷◌, map, arith, ap}
use pet_project.Base.Text.{Text, text_eq, text_eq_iff, lit}
use pet_project.Handler.Inotify.{
  add_event, delete_event, dir_del_event, refresh_event, insert_song, truncate_songs, add_all,
  handle,
}

add_all-map :
    (hash : Text → ℕ) (folder : Text) (names : List Text)
    → add_all hash folder names ≡ map (insert_song hash folder) names
unfolding add_all
add_all-map hash folder [] = refl
add_all-map hash folder (n ∷ ns) =
    ap (λ t. insert_song hash folder n ∷ t) (add_all-map hash folder ns)

distinct : (s t : Text) → text_eq s t ≡ false → s ≢ t
distinct s t h e = ground (arith, (text_eq_iff s t).1 e)

refresh_is :
    (text_eq refresh_event add_event ≡ false)
    × (text_eq refresh_event delete_event ≡ false)
    × (text_eq refresh_event dir_del_event ≡ false)
unfolding text_eq lit
refresh_is = (refl, refl, refl)

text_eq_refl : (s : Text) → text_eq s s ≡ true
text_eq_refl s = (text_eq_iff s s).1 refl

-- A refresh first empties the table. If that succeeds, it inserts every name of the list, in its
-- order, and returns true; if not, it asks for nothing more and returns false.
pub handle-refresh :
    (hash : Text → ℕ) (folder : Text) (names : List Text)
    → (handle hash true (folder ∷ refresh_event ∷ names)
        ≡ some (true, truncate_songs ∷ map (insert_song hash folder) names))
      × (handle hash false (folder ∷ refresh_event ∷ names) ≡ some (false, truncate_songs ∷ []))
unfolding handle
handle-refresh hash folder names = (
  ground (arith, refresh_is, text_eq_refl refresh_event, add_all-map hash folder names),
  ground (arith, refresh_is, text_eq_refl refresh_event),
)
