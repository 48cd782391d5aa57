-- ===== src/Tests/Parser.antt =====
-- ini_and_parser at an ini file's sections.
use pet_project.Base.{◌≡◌, ◌↔◌, refl, true, some, [], ◌∷◌}
use pet_project.Base.Text.{lit}
use pet_project.Parser.Massives.{Section}
use pet_project.Parser.Classes.{parser_inotify, Ptree, expected, construct, validate}
use pet_project.Parser.Classes.Startup.{keys_of, validate-construct}

abbrev inotify_section : Section
inotify_section =
    (lit "files_folder", lit "/srv/songs")
    ∷ (lit "logs_folder", lit "/var/log")
    ∷ (lit "max_log_file_size", lit "1000")
    ∷ []

-- A tree with this section under every name.
abbrev inotify_tree : Ptree
inotify_tree name = some inotify_section

validate-construct_example :
    (validate parser_inotify (construct parser_inotify inotify_tree).0 ≡ some (true, []))
    ↔ (keys_of inotify_section ≡ expected parser_inotify)
validate-construct_example =
    validate-construct parser_inotify inotify_tree inotify_section (λ e. cc) refl
