-- ===== src/Parser/Classes.antt =====
-- ini_and_parser/src/parser.cpp and include/parser.h: Parser_DB, Parser_Inotify, Parser_Server_HTTP
-- and Parser_Client_HTTP, each with its section of the ini file and its table of keywords. The
-- property tree and the reader of the file are Boost's: a tree is the function that finds a section.
pub mod Startup
use pet_project.Base.{
  ℕ, Bool, true, false, Option, none, some, List, [], ◌∷◌, ◌++◌, ltb, ◌==◌, ◌||◌, if◌then◌else◌,
  ◌>>=◌,
}
use pet_project.Base.Text.{Text, lit}
use pet_project.Parser.Massives.{
  Array, null, Parser, Section, default_parser, constructing_massives, validate_parsed,
}

pub data Class : Type 0 where
  parser_db parser_inotify parser_server_http parser_client_http : Class

-- config.get_child_optional
abbrev pub Ptree : Type 0
Ptree = Text → Option Section

abbrev pub section_name : Class → Text
section_name parser_db = lit "DB_module"
section_name parser_inotify = lit "Inotify_module"
section_name parser_server_http = lit "Server_HTTP"
section_name parser_client_http = lit "Client_HTTP"

abbrev pub expected : Class → List Text
expected parser_db = []
expected parser_inotify = lit "files_folder" ∷ lit "logs_folder" ∷ lit "max_log_file_size" ∷ []
expected parser_server_http =
    lit "address"
    ∷ lit "port"
    ∷ lit "server_name"
    ∷ lit "files_folder"
    ∷ lit "logs_folder"
    ∷ lit "max_log_file_size"
    ∷ lit "num_threads"
    ∷ lit "days_limit"
    ∷ lit "rows_limit"
    ∷ []
expected parser_client_http =
    lit "host(address)"
    ∷ lit "port(service)"
    ∷ lit "client_name"
    ∷ lit "version"
    ∷ lit "num_threads"
    ∷ lit "download_dir"
    ∷ lit "target_requests"
    ∷ []

abbrev pub expected_count : Class → ℕ
expected_count parser_db = 0
expected_count parser_inotify = 3
expected_count parser_server_http = 9
expected_count parser_client_http = 7

-- What a parser's constructor makes of a tree, and what it writes to std::cerr.
unfoldable pub construct : Class → Ptree → Parser × Text
construct c config = elim (config (section_name c)) [
  | some section ↦ (constructing_massives section, [])
  | none ↦ (
    default_parser,
    lit "No appropriate section (" ++ (section_name c ++ lit ") in the provided structure\n"),
  )
]

-- From a file: `read_ini` is Boost's, and `none` its exception, which the constructor passes on.
unfoldable pub construct_from_file : Class → (Text → Option Ptree) → Text → Option (Parser × Text)
unfolding construct
construct_from_file c read_ini filename = do config ← read_ini filename; some (construct c config)

unfoldable pub parsed_info_ptr : Class → ℕ → Parser → Array
parsed_info_ptr parser_db m p =
    if m == b'k' || m == b'K' then p.keywords else if m == b'v' || m == b'V' then p.values else null
parsed_info_ptr _ m p = p.values

abbrev no_data : Text
no_data =
    lit
      "No data was parsed, may be because there is no appropriate information to parse in ini-file"

pub validate : Class → Parser → Option (Bool × Text)
validate parser_db p = if ltb 0 p.size_char_ptr_ptr then some (true, []) else some (false, no_data)
validate c p = validate_parsed (expected_count c) (expected c) p
