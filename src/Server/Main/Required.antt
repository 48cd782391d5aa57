-- ===== src/Server/Main/Required.antt =====
-- Server_HTTP/src/main.cpp: what it takes for the server to run.
use pet_project.Base.{
  ℕ, ◌+◌, ◌<◌, ◌≡◌, refl, sym, ◌∙◌, true, none, some, [], arith, ltb, Bool-cases, Option-cases, inl,
  inr,
}
use mathlib.Core.Option.{none-ne-some}
use pet_project.Base.Text.{Text}
use pet_project.Handler.Dir.{path_append}
use pet_project.Parser.Massives.{Section, default_parser, string_at}
use pet_project.Parser.Classes.{
  Ptree, parser_db, parser_server_http, section_name, construct, construct_from_file,
  parsed_info_ptr,
}
use pet_project.Parser.Search as Search
use pet_project.Parser.Search.{Directory, returned, not_founded, dir_text}
use pet_project.Parser.Search.Nearest.{up, IsThere, path_at, Answers, construct-Answers}
use pet_project.Server.Main.{System, Running, Await, config_name, info_at, server_of, start, main}
use pet_project.Server.Main.Configured.{module_total}

module _ {σ : Type 0} (e : System σ) where
  start_unread : (path what : Text) → e.read_ini path ≡ none → start e path what ≡ none
  unfolding start construct_from_file
  start_unread path what h = rw h refl

  without_section :
      (config : Ptree)
      → config (section_name parser_server_http) ≡ none
      → (construct parser_server_http config).0 ≡ default_parser
  unfolding construct
  without_section config missing = rw (missing, construct) refl

  start_without_section :
      (path what : Text) (config : Ptree)
      → e.read_ini path ≡ some config
      → config (section_name parser_server_http) ≡ none
      → start e path what ≡ none
  unfolding start construct_from_file server_of info_at parsed_info_ptr string_at
  start_without_section path what config read missing =
      let (m, x) = module_total e.hardware (construct parser_db config).0 e.connect e.starts in
      rw (read, x, without_section config missing) refl

  start_reads :
      (path what : Text) (r : Await (Running σ))
      → start e path what ≡ some r
      → (config : Ptree) × (section : Section) × (e.read_ini path ≡ some config)
        × (config (section_name parser_server_http) ≡ some section)
  start_reads path what r h = elim (Option-cases (e.read_ini path)) [
    | inl n ↦ absurd (none-ne-some r (sym (start_unread path what n) ∙ h))
    | inr (config, read) ↦ elim (Option-cases (config (section_name parser_server_http))) [
      | inl n ↦ absurd (none-ne-some r (sym (start_without_section path what config read n) ∙ h))
      | inr (section, found) ↦ (config, section, read, found)
    ]
  ]

  -- The ini file that the program has found and read, with its section.
  abbrev pub IsFound : Directory → Type 0
  IsFound dir =
      (n : ℕ) × (config : Ptree) × (section : Section) × (n < 4)
      × IsThere e.files config_name n dir
      × (e.read_ini (path_append (dir_text (up n dir)) config_name) ≡ some config)
      × (config (section_name parser_server_http) ≡ some section)

  -- If no file has the empty name and the directories from the working directory to the root are not
  -- read as ini files, the program comes to the database
  -- or to its accepting loop only if an ini file that can be read, with a section Server_HTTP, is in the working
  -- directory or fewer than four steps up: else an exception is not caught, also when the file was
  -- found higher up, or a null pointer is read.
  pub main-IsFound :
      (dir : Directory) (r : Await (Running σ))
      → e.read_ini [] ≡ none
      → ((n : ℕ) → e.read_ini (dir_text (up n dir)) ≡ none)
      → main e dir ≡ some r
      → IsFound dir
  unfolding main
  main-IsFound dir r no_name no_dir h = go (construct-Answers e.files config_name dir)
    where
      near_path :
          (n : ℕ) (path : Text)
          → path ≡ path_at e.files config_name (0 + n) (up n dir)
          → ltb (0 + n) 4 ≡ true
          → path ≡ path_append (dir_text (up n dir)) config_name
      near_path n path p y = rw y at p

      go :
          Answers e.files config_name 0 dir (Search.construct e.files config_name dir) → IsFound dir
      go (inl (x, nowhere)) =
          absurd (none-ne-some r (sym (start_unread [] _ no_name) ∙ (rw x at h)))
      go (inr (n, s, x, there, nearer, f, p, c)) = elim (Bool-cases (ltb (0 + n) 4)) [
        | inl y ↦
            let (config, section, read, found) = start_reads s.path [] r (rw x at h) in
            (
              n,
              config,
              section,
              ground (arith, y),
              there,
              rw (near_path n s.path p y) at read,
              found,
            )
        | inr y ↦ absurd (none-ne-some r (sym (start_unread _ _ (no_dir n)) ∙ (rw (x, p, y) at h)))
      ]
